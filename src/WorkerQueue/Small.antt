-- ===== src/WorkerQueue/Small.antt =====
-- What the searches ask of a queue itself, once and for all, and that every operation keeps it.
use ants.Base.{ℕ, suc, ◌*◌, ◌≤◌, ◌≡◌, ap, subst, inl, inr, some, List, arith, Option-cases}
use ants.Base.Int.{ℤ, pos}
use ants.Base.Word.{i32_half}
use ants.Duration.{Duration}
use ants.LoopQueue
use ants.LoopQueue.Size
use ants.WorkerStack
use ants.WorkerQueue.{
  BoxedQueue, stack, loop_queue, insert, detach, refresh, reset, new_worker_queue, loop_queue_type,
  stack_type,
}

pub some_same {ℓ} : {A : Type ℓ} {a b : A} → some a ≡ some b → a ≡ b
some_same e = cc

module _ {ℓ} {W : Type ℓ} where
  -- A stack is never too large of itself, and no operation changes the size of a ring.
  abbrev pub Small : BoxedQueue W → Type 0
  Small (stack s) = Unit
  Small (loop_queue q) = 3 * q.size ≤ i32_half

  pub insert-Small : (q : BoxedQueue W) (w : W) → Small q → Small (insert q w).1
  unfolding insert
  insert-Small (stack s) w h = tt
  insert-Small (loop_queue q) w h = omega (arith, Size.insert-size q w)

  pub detach-Small : (q : BoxedQueue W) → Small q → Small (detach q).1
  unfolding detach
  detach-Small (stack s) h = tt
  detach-Small (loop_queue q) h = omega (arith, Size.detach-size q)

  pub reset-Small : (q : BoxedQueue W) → Small q → Small (reset q).1
  unfolding reset
  reset-Small (stack s) h = tt
  reset-Small (loop_queue q) h = omega (arith, Size.reset-size q)

  pub refresh-Small :
      (last_used : W → ℤ) (now : ℤ) (q : BoxedQueue W) (d : Duration) (r : List W × BoxedQueue W)
      → Small q
      → refresh last_used now q d ≡ some r
      → Small r.1
  unfolding refresh
  refresh-Small last_used now (stack s) d r h run =
      elim (Option-cases (WorkerStack.refresh last_used now s d)) [
        | inl stuck ↦ absurd (cc (stuck, run))
        | inr (t, found) ↦ subst Small (ap (λ x. x.1) (some_same (rw (found, refresh) at run))) tt
      ]
  refresh-Small last_used now (loop_queue q) d r h run =
      elim (Option-cases (LoopQueue.refresh last_used now q d)) [
        | inl stuck ↦ absurd (cc (stuck, run))
        | inr (t, found) ↦
            subst Small (ap (λ x. x.1) (some_same (rw (found, refresh) at run)))
              (omega (arith, Size.refresh-size last_used now q d t found))
      ]

  -- A new ring has the size it was asked for.
  pub new_ring-Small :
      (n : ℕ) (q : BoxedQueue W)
      → 3 * suc n ≤ i32_half
      → new_worker_queue loop_queue_type (pos (suc n)) ≡ some q
      → Small q
  unfolding new_worker_queue
  new_ring-Small n q h made = elim (Option-cases (LoopQueue.new {W = W} (pos (suc n)))) [
    | inl stuck ↦ absurd (cc (rw stuck at made))
    | inr (r, found) ↦
        subst Small (some_same (rw found at made)) (omega (arith, h, Size.new-size n r found))
  ]

  pub new_stack-Small : (q : BoxedQueue W) → new_worker_queue stack_type (pos 0) ≡ some q → Small q
  unfolding new_worker_queue
  new_stack-Small (stack s) made = tt
  new_stack-Small (loop_queue q) made = absurd (cc (made))

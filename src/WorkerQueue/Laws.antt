-- ===== src/WorkerQueue/Laws.antt =====
-- Both queues keep the promises of the interface, and so does the queue behind `Box<dyn WorkerQueue>`.
use ants.Base.{
  ℕ, ◌-◌, ◌*◌, ◌≤◌, ◌<◌, ◌≡◌, refl, sym, ap, ◌∙◌, subst, inl, inr, none, some, List, [], ◌∷◌, ◌++◌,
  arith, length, take, drop, take-append-drop,
}
use ants.Base.Int.{ℤ, pos}
use ants.Base.Word.{i32_half}
use mathlib.Core.List.{Perm, append-nil, perm_append_comm}
use mathlib.Core.List.Perm
use ants.Duration.{Duration}
use ants.Error.{Error, ok, err}
use ants.WorkerStack.Items.{len-items, insert-items, reset-items, detach-cases}
use ants.WorkerStack.Refresh.{refresh_partition}
use ants.LoopQueue.Holds.{Holds, len-Holds, insert-cases}
use ants.LoopQueue.Advance.{detach-nil, detach-cons, reset-Holds}
use ants.LoopQueue.Expire.{from_slot_zero}
use ants.LoopQueue.Refresh.{refresh-cut}
use ants.LoopQueue.Holds.{new-Holds}
use ants.WorkerQueue.Small.{
  Small, insert-Small, detach-Small, reset-Small, refresh-Small, some_same,
}
use ants.WorkerStack
use ants.WorkerQueue.{
  new_worker_queue, loop_queue_type, stack_type, BoxedQueue, stack, loop_queue, len, insert, detach,
  refresh, reset, WorkerQueue,
}

module _ {ℓ} {W : Type ℓ} where
  -- The workers that a boxed queue holds, oldest first.
  abbrev pub Idle : BoxedQueue W → List W → Type ℓ
  Idle (stack s) ws = s.items ≡ ws
  Idle (loop_queue q) ws = Holds q ws

  -- Below these sizes no `i32` index of the queue wraps.
  abbrev pub Fits : BoxedQueue W → Type 0
  Fits (stack s) = length s.items < i32_half
  Fits (loop_queue q) = 3 * q.size ≤ i32_half

  -- A ring queue of a positive size is made, and holds nothing.
  pub new_ring-Idle :
      (n : ℕ)
      → 0 < n
      → (q : BoxedQueue W) × (new_worker_queue loop_queue_type (pos n) ≡ some q) × Idle q []
  unfolding new_worker_queue
  new_ring-Idle n h =
      let (q, eq, holds) = new-Holds {W = W} n h in (loop_queue q, rw eq refl, holds)

  -- A stack queue is made, and holds nothing.
  pub new_stack-Idle :
      (size : ℤ) → (q : BoxedQueue W) × (new_worker_queue stack_type size ≡ some q) × Idle q []
  unfolding new_worker_queue
  new_stack-Idle size = (stack WorkerStack.new, refl, WorkerStack.items-new)

  pub len-Idle : (q : BoxedQueue W) (ws : List W) → Idle q ws → len q ≡ length ws
  unfolding len
  len-Idle (stack s) ws e = len-items s ∙ ap length e
  len-Idle (loop_queue q) ws v = (len-Holds ws v).0

  pub insert-Idle :
      (q : BoxedQueue W) (ws : List W) (w : W)
      → Idle q ws
      → (insert q w).0 ≡ ok tt
      → Idle (insert q w).1 (ws ++ (w ∷ []))
  unfolding insert
  insert-Idle (stack s) ws w e r =
      ap (λ x. x.1.items) (insert-items s w) ∙ ap (λ xs. xs ++ (w ∷ [])) e
  insert-Idle (loop_queue q) ws w v r = elim (insert-cases ws w v) [
    | inl full ↦ cc (full.1)
    | inr done ↦ done.2
  ]

  pub insert-refused :
      (q : BoxedQueue W) (ws : List W) (w : W) (e : Error)
      → Idle q ws
      → (insert q w).0 ≡ err e
      → (insert q w).1 ≡ q
  unfolding insert
  insert-refused (stack s) ws w e i r = cc (insert-items s w)
  insert-refused (loop_queue q) ws w e v r = elim (insert-cases ws w v) [
    | inl full ↦ ap (λ x. loop_queue x.1) full.1
    | inr done ↦ cc (done.1)
  ]

  pub detach-nothing :
      (q : BoxedQueue W) (ws : List W)
      → Idle q ws
      → (detach q).0 ≡ none
      → (ws ≡ []) × ((detach q).1 ≡ q)
  unfolding detach
  detach-nothing (stack s) ws i r = elim (detach-cases s) [
    | inl empty ↦ (sym i ∙ empty.0, ap (λ x. stack x.1) empty.1)
    | inr taken ↦ cc (taken.3)
  ]
  detach-nothing (loop_queue q) [] v r = (refl, ap (λ x. loop_queue x.1) (detach-nil v))
  detach-nothing (loop_queue q) (x ∷ xs) v r = cc ((detach-cons x xs v).0)

  -- A worker that `detach` gives is one of the idle workers of either queue, and the queue then
  -- holds the others, in their order.
  pub detach-worker :
      (q : BoxedQueue W) (ws : List W) (w : W)
      → Idle q ws
      → (detach q).0 ≡ some w
      → (before : List W) × (after : List W) × (ws ≡ before ++ (w ∷ after))
        × Idle (detach q).1 (before ++ after)
  unfolding detach
  detach-worker (stack s) ws w i r = elim (detach-cases s) [
    | inl empty ↦ cc (empty.1)
    | inr taken ↦
        let (w', rest, split, run) = taken in
        let same : w' ≡ w = some_same (sym (ap (λ x. x.0) run) ∙ r) in
        (
          rest,
          [],
          sym i ∙ split ∙ ap (λ x. rest ++ (x ∷ [])) same,
          ap (λ x. x.1.items) run ∙ sym (append-nil rest),
        )
  ]
  detach-worker (loop_queue q) [] w v r = cc (detach-nil v)
  detach-worker (loop_queue q) (x ∷ xs) w v r =
      let (first, rest) = detach-cons x xs v in
      ([], xs, ap (λ y. y ∷ xs) (some_same (sym first ∙ r)), rest)

  pub reset-Idle :
      (q : BoxedQueue W) (ws : List W) → Idle q ws → ((reset q).0 ≡ ws) × Idle (reset q).1 []
  unfolding reset
  reset-Idle (stack s) ws i =
      (ap (λ x. x.0) (reset-items s) ∙ i, ap (λ x. x.1.items) (reset-items s))
  reset-Idle (loop_queue q) ws v = reset-Holds ws v

  -- On a stack of less than 2 ^ 31 workers, or a ring of at most 2 ^ 31 / 3 slots, `refresh` does
  -- not panic: what it returns and what it keeps are together the idle workers, none lost or doubled.
  pub refresh-Idle :
      (last_used : W → ℤ) (now : ℤ) (q : BoxedQueue W) (ws : List W) (d : Duration)
      → Idle q ws
      → Fits q
      → (gone left : List W) × (q' : BoxedQueue W) × (refresh last_used now q d ≡ some (gone, q'))
        × Idle q' left
        × Perm (gone ++ left) ws
  unfolding refresh
  refresh-Idle last_used now (stack s) ws d i fits =
      let (gone, s', run, whole) = refresh_partition last_used now s d fits in
      (
        gone,
        s'.items,
        stack s',
        rw (run, refresh),
        refl,
        subst (Perm (gone ++ s'.items)) (whole ∙ i) (Perm.refl _),
      )
  refresh-Idle last_used now (loop_queue q) ws d v fits =
      let (k, q', run, holds, b) = refresh-cut last_used now q ws d v fits in
      let c = q.size - q.head in
      (
        from_slot_zero c (take k ws),
        drop k ws,
        loop_queue q',
        rw (run, refresh),
        holds,
        subst (Perm (from_slot_zero c (take k ws) ++ drop k ws)) (take-append-drop k ws) (
            Perm.append
              (subst (Perm (from_slot_zero c (take k ws))) (take-append-drop c (take k ws))
                (perm_append_comm (drop c (take k ws)) (take c (take k ws))))
              (Perm.refl (drop k ws))),
      )

  pub Small-Fits :
      (q : BoxedQueue W) (ws : List W) → Idle q ws → Small q → length ws < i32_half → Fits q
  Small-Fits (stack s) ws e h short = omega (arith, ap length e)
  Small-Fits (loop_queue q) ws v h short = h

  -- The queue behind `Box<dyn WorkerQueue>` keeps every promise of the interface.
  instance abbrev pub boxed_queue : WorkerQueue W
  boxed_queue = record {
    Queue = BoxedQueue W;
    q_len = len;
    q_insert = insert;
    q_detach = detach;
    q_refresh = refresh;
    q_reset = reset;
    Idle = Idle;
    len_law = len-Idle;
    insert_ok = insert-Idle;
    insert_err = insert-refused;
    detach_none = detach-nothing;
    detach_some = detach-worker;
    reset_law = reset-Idle;
    Fits = Fits;
    refresh_law = refresh-Idle;
    Small = Small;
    small_fits = Small-Fits;
    small_insert = insert-Small;
    small_detach = detach-Small;
    small_reset = reset-Small;
    small_refresh = refresh-Small;
  }

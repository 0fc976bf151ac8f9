-- ===== src/PoolCore/Blocked.antt =====
-- The submitters inside `retrieve_worker` that wait, and those that have been woken and have not
-- gone on yet.
use ants.Base.{ℕ, suc, ◌+◌, ◌≤◌, ◌≡◌, refl, ap, ◌∙◌, inl, inr, some, arith}
use ants.Base.Int.{pos, negsuc}
use ants.Base.Word.{wrap_i32, add_i32, add_i32-wrap_up, add_i32-wrap_down}
use ants.Cond.{Waiters, register, try_leave, signal, broadcast}
use ants.WorkerQueue.{WorkerQueue}
use ants.PoolCore.{PoolCore, add_running, add_waiting, fetch_cached_worker}
use ants.PoolCore.Workers.{spawn_worker, revert_locked}
use ants.PoolCore.Effects.{Unmoved, Woken, revert_locked-cases}
use ants.PoolCore.Effects.Lifecycle.{Restarted}

-- `waiting` counts both kinds, up to the wrap-around of an `i32`; the condition variable counts the
-- first, and has no more tokens out.
pub record Blocked {Q H L T : Type 0} (p : PoolCore Q H L T) (asleep awake : ℕ) : Type 0 where
  pub waiting : p.waiting ≡ wrap_i32 (pos (asleep + awake))
  pub parked : p.cond.parked ≡ asleep
  pub covered : p.cond.tokens ≤ p.cond.parked

Woken-counts :
    (c c' : Waiters)
    → Woken c c'
    → c.tokens ≤ c.parked
    → (c'.parked ≡ c.parked) × (c'.tokens ≤ c'.parked)
unfolding signal broadcast
Woken-counts c c' (inl same) h = (ap (λ x. x.parked) same, rw same h)
Woken-counts c c' (inr (inl one)) h = rw one (ground arith, ground arith)
Woken-counts c c' (inr (inr all)) h = rw all (ground arith, ground arith)

module _ {Q H L T : Type 0} where
  pub Woken-Blocked :
      {p p' : PoolCore Q H L T} {asleep awake : ℕ}
      → p'.waiting ≡ p.waiting
      → Woken p.cond p'.cond
      → Blocked p asleep awake
      → Blocked p' asleep awake
  Woken-Blocked {p} {p'} w c v =
      let (parked, covered) = Woken-counts p.cond p'.cond c v.covered in
      record { waiting = w ∙ v.waiting; parked = parked ∙ v.parked; covered = covered }

  pub Unmoved-Blocked :
      {p p' : PoolCore Q H L T} {asleep awake : ℕ}
      → Unmoved p p'
      → Blocked p asleep awake
      → Blocked p' asleep awake
  Unmoved-Blocked u v = Woken-Blocked u.waiting u.cond v

  -- A waiting submitter leaves `wait`, and is awake.
  pub wake-Blocked :
      {p : PoolCore Q H L T} {asleep awake : ℕ} (g : ℕ) (c : Waiters)
      → try_leave g p.cond ≡ some c
      → Blocked p (suc asleep) awake
      → Blocked (record p { cond = c }) asleep (suc awake)
  unfolding try_leave
  wake-Blocked {p} {asleep} {awake} g c leaves v =
      let left : (c.parked + 1 ≡ p.cond.parked) × (c.tokens ≤ c.parked) = ground (arith, v) in
      record {
        waiting = v.waiting ∙ ap (λ n. wrap_i32 (pos n)) (omega arith);
        parked = omega (arith, left, v.parked);
        covered = left.1;
      }

  pub Restarted-Blocked :
      {p p' : PoolCore Q H L T} {asleep awake : ℕ}
      → Restarted p p'
      → Blocked p asleep awake
      → Blocked p' asleep awake
  Restarted-Blocked r v = Woken-Blocked r.waiting (inl r.cond) v

  -- A submitter registers with the condition variable.
  pub parked-Blocked :
      {p : PoolCore Q H L T} {asleep awake : ℕ}
      → Blocked p asleep awake
      → Blocked (record (add_waiting (pos 1) p) { cond = (register p.cond).1 }) (suc asleep) awake
  unfolding add_waiting register
  parked-Blocked {p} {asleep} {awake} v = record {
    waiting =
        ap (λ x. add_i32 x (pos 1)) v.waiting
        ∙ add_i32-wrap_up (asleep + awake)
        ∙ ap (λ n. wrap_i32 (pos n)) (omega arith);
    parked = omega (arith, v.parked);
    covered = omega (arith, v.covered);
  }

  -- One that was awake goes on.
  pub resumed-Blocked :
      {p : PoolCore Q H L T} {asleep awake : ℕ}
      → Blocked p asleep (suc awake)
      → Blocked (add_waiting (negsuc 0) p) asleep awake
  unfolding add_waiting
  resumed-Blocked {p} {asleep} {awake} v = record {
    waiting =
        ap (λ x. add_i32 x (negsuc 0)) (v.waiting ∙ ap (λ n. wrap_i32 (pos n)) (omega arith))
        ∙ add_i32-wrap_down (asleep + awake);
    parked = v.parked;
    covered = v.covered;
  }

module _ (wq : WorkerQueue ℕ) {H L T : Type 0} where
  pub spawn-Blocked :
      {p : PoolCore wq.Queue H L T} {asleep awake : ℕ}
      → Blocked p asleep awake
      → Blocked (spawn_worker wq p).1 asleep awake
  unfolding spawn_worker add_running fetch_cached_worker
  spawn-Blocked {p} v =
      let p' : PoolCore wq.Queue H L T = (spawn_worker wq p).1 in
      let same : (p'.waiting ≡ p.waiting) × (p'.cond ≡ p.cond) = (ground arith, ground arith) in
      Woken-Blocked same.0 (inl same.1) v

  pub revert_locked-Blocked :
      {p : PoolCore wq.Queue H L T} {asleep awake : ℕ} (w : ℕ)
      → Blocked p asleep awake
      → Blocked (revert_locked wq w p).1 asleep awake
  revert_locked-Blocked {p} w v = elim (revert_locked-cases wq w p) [
    | inl (kept, done, eq) ↦ rw eq (Woken-Blocked refl (inr (inl refl)) v)
    | inr (refused, inl eq) ↦ rw eq v
    | inr (refused, inr (e, full, eq)) ↦ rw eq (Woken-Blocked refl (inl refl) v)
  ]

-- ===== src/PoolCore/System/Handover.antt =====
-- A worker that comes back goes to a submitter that waits: `revert_worker` of src/pool_common.rs
-- signals under the lock that `retrieve_worker` takes again after its wait.
use ants.Base.{
  Bool, ℕ, suc, ◌-◌, ◌<◌, ◌≤◌, ◌≡◌, refl, ap, ◌∙◌, subst, inl, inr, true, false, some, List, [],
  ◌∷◌, ◌++◌, arith, if◌then◌else◌, Bool-cases, Option-cases, length, length-append, length-middle,
}
use ants.Base.Int.{negsuc}
use ants.Cond.{Waiters, try_leave, signal}
use ants.Error.{ok}
use ants.WorkerQueue.{WorkerQueue}
use ants.PoolCore.{PoolCore, is_closed, add_waiting}
use ants.PoolCore.Workers.{look, revert_locked}
use ants.PoolCore.Effects.{revert_locked-cases}
use ants.PoolCore.System.{
  System, free, starting, Stage, granted, reinserting, leaving, Step, returns, wakes, resumes,
  takes, Reach, start, next,
}
use ants.PoolCore.System.Invariant.{Valid}

-- After a signal, with a thread asleep and no more tokens out than threads, whichever looks next
-- can leave.
signal-leaves :
    (c : Waiters) (g : ℕ)
    → 0 < c.parked
    → c.tokens ≤ c.parked
    → (c' : Waiters) × (try_leave g (signal c) ≡ some c')
unfolding try_leave signal
signal-leaves c g some_asleep covered =
    let w = signal c in (record w { tokens = w.tokens - 1; parked = w.parked - 1 }, ground arith)

-- The queue of a worker that has just come back is not empty.
found_after_insert :
    (wq : WorkerQueue ℕ) (q : wq.Queue) (idle : List ℕ) (w : ℕ)
    → wq.Idle q idle
    → (wq.q_insert q w).0 ≡ ok tt
    → (w' : ℕ) × ((wq.q_detach (wq.q_insert q w).1).0 ≡ some w')
found_after_insert wq q idle w holds done =
    let q' = (wq.q_insert q w).1 in
    elim (Option-cases (wq.q_detach q').0) [
      | inr (w', found) ↦ (w', found)
      | inl empty ↦
          let none_left =
            (wq.detach_none q' (idle ++ (w ∷ [])) (wq.insert_ok q idle w holds done) empty).0 in
          absurd (omega (arith, ap length none_left, length-append idle (w ∷ [])))
    ]

module _ (wq : WorkerQueue ℕ) (bound : ℕ) {H L T : Type 0} where
  -- A worker is kept only by a pool that is open, and then it is in the queue.
  kept-open :
      (w : ℕ) (p : PoolCore wq.Queue H L T) → (revert_locked wq w p).0 ≡ true → is_closed p ≡ false
  unfolding revert_locked
  kept-open w p kept = elim (Bool-cases (is_closed p)) [
    | inl shut ↦ absurd (cc (rw (shut, revert_locked) at kept))
    | inr live ↦ live
  ]

  kept-inserted :
      (w : ℕ) (p : PoolCore wq.Queue H L T)
      → (revert_locked wq w p).0 ≡ true
      → ((wq.q_insert p.workers w).0 ≡ ok tt)
        × ((revert_locked wq w p).1
            ≡ record p { workers = (wq.q_insert p.workers w).1; cond = signal p.cond })
  kept-inserted w p kept = elim (revert_locked-cases wq w p) [
    | inl (yes_kept, done, eq) ↦ (done, eq)
    | inr (refused, how) ↦ absurd (cc (refused, kept))
  ]

  looked :
      (p : PoolCore wq.Queue H L T) (w : ℕ)
      → (wq.q_detach p.workers).0 ≡ some w
      → look wq p ≡ (some w, record p { workers = (wq.q_detach p.workers).1 })
  unfolding look
  looked p w found = ap (λ d. (d, record p { workers = (wq.q_detach p.workers).1 })) found

  -- In a valid state where the lock is free, a worker is about to be put back and the pool keeps
  -- it: any submitter that waits can then leave its wait and get a worker.
  pub handover :
      (s : System wq.Queue H L T) (before after : List (ℕ × Stage T)) (w : ℕ)
      (early late : List (ℕ × T)) (g : ℕ) (t : T)
      → Valid wq bound s
      → s.held ≡ free
      → s.out ≡ before ++ ((w, reinserting) ∷ after)
      → (revert_locked wq w s.pool).0 ≡ true
      → s.asleep ≡ early ++ ((g, t) ∷ late)
      → (u : System wq.Queue H L T) × (w' : ℕ) × Reach wq bound s u
        × (u.held ≡ free)
        × (u.asleep ≡ early ++ late)
        × (u.awake ≡ s.awake)
        × (u.out ≡ (w', granted t) ∷ (before ++ after))
  unfolding add_waiting
  handover s before after w early late g t v unheld split kept waiting =
      let (done, eq) = kept-inserted w s.pool kept in
      let live = kept-open w s.pool kept in
      let b = v.blocked in
      let asleep : length s.asleep ≡ suc (length (early ++ late)) =
        ap length waiting ∙ length-middle early late (g, t) in
      let (c, leaves) = signal-leaves s.pool.cond g (omega (arith, b.parked, asleep)) b.covered in
      let (w', found) =
        found_after_insert wq s.pool.workers v.counted.idle w v.counted.holds done in
      let p1 : PoolCore wq.Queue H L T = record s.pool {
        workers = (wq.q_insert s.pool.workers w).1;
        cond = signal s.pool.cond;
      } in
      let s1 : System wq.Queue H L T = record s { pool = p1; out = before ++ after } in
      let back : Step wq bound s s1 =
        subst
          (λ (r : Bool × PoolCore wq.Queue H L T). Step wq bound s (record s {
            pool = r.1;
            out = if r.0 then before ++ after else before ++ ((w, leaving) ∷ after);
          }))
          (ap (λ k. (k, (revert_locked wq w s.pool).1)) kept ∙ ap (λ p. (true, p)) eq)
          (returns before after w split unheld) in
      let s2 : System wq.Queue H L T = record s1 {
        pool = record p1 { cond = c };
        asleep = early ++ late;
        awake = t ∷ s.awake;
      } in
      let s3 : System wq.Queue H L T = record s2 {
        pool = add_waiting (negsuc 0) s2.pool;
        held = starting t;
        awake = s.awake;
      } in
      let p4 : PoolCore wq.Queue H L T = record s3.pool { workers = (wq.q_detach p1.workers).1 } in
      (
        record s3 { pool = p4; held = free; out = (w', granted t) ∷ (before ++ after) },
        w',
        next
            (next (next (next start back) (wakes early late g t c waiting leaves))
              (resumes [] s.awake t refl unheld live))
            (takes t w' p4 refl (looked s3.pool w' found)),
        refl,
        refl,
        refl,
        refl,
      )

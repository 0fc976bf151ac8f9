-- ===== src/PoolCore/System/Lost.antt =====
-- A wake-up that is lost: the end of a worker, `work` of src/worker.rs, is not under the lock that
-- `retrieve_worker` of src/pool_common.rs holds from its look at the count to its wait.
use ants.Base.{
  inl, inr, Bool-cases, ◌<◌, length-map, length-middle, ℕ, suc, ◌+◌, ◌≤◌, ◌≡◌, refl, sym, ap, ◌∙◌,
  subst, true, false, none, List, [], ◌∷◌, ◌++◌, ◌&&◌, arith, length,
}
use ants.Base.Int.{ℤ, pos, negsuc, leb_ℤ, eqb_ℤ}
use ants.Base.Word.{add_i32}
use ants.Cond.{Waiters, register, try_leave, signal}
use ants.WorkerQueue.{WorkerQueue}
use ants.PoolCore.{PoolCore, cap, is_closed, add_waiting, add_running, recycle}
use ants.PoolCore.Workers.{blocked, bails_out, has_room, wait_or_fail, exit_worker}
use ants.PoolCore.Counted.{Counted}
use ants.PoolCore.Counted.Return.{uncount-running}
use ants.PoolCore.System.{System, free, full, Stage, leaving, parks, Reach, next}
use ants.PoolCore.System.Invariant.{Valid}
use ants.PoolCore.System.Alone.{exit-Exited}

-- A signal that nobody waits for is gone.
unheard :
    (c : Waiters)
    → c.parked ≡ 0
    → c.tokens ≤ 0
    → try_leave (register (signal c)).0 (register (signal c)).1 ≡ none
unfolding register try_leave signal
unheard c nobody no_tokens = ground arith

at_most : (a b : ℤ) (k limit : ℕ) → a ≡ pos k → b ≡ pos limit → leb_ℤ a b ≡ true → k ≤ limit
at_most a b k limit is_k is_limit le = ground arith

module _ (wq : WorkerQueue ℕ) (bound : ℕ) {H L T : Type 0} where
  exit_worker-fields :
      (w : ℕ) (p : PoolCore wq.Queue H L T)
      → let p' = exit_worker wq w p in
        (p'.capacity ≡ p.capacity)
        × (p'.cond ≡ signal p.cond)
        × (bails_out wq p' ≡ bails_out wq p)
        × (p'.state ≡ p.state)
        × (p'.running ≡ (add_running (negsuc 0) p).1.running)
  unfolding exit_worker add_running recycle bails_out
  exit_worker-fields w p =
      elim (Bool-cases (eqb_ℤ (add_i32 p.running (negsuc 0)) (pos 0) && is_closed p)) [
        | inl was_last ↦ rw was_last (refl, refl, refl, refl, refl)
        | inr goes ↦ rw goes (refl, refl, refl, refl, refl)
      ]

  -- The submitter's wait, where it does not bail out.
  waits :
      (p : PoolCore wq.Queue H L T)
      → bails_out wq p ≡ false
      → wait_or_fail wq p ≡ (
        blocked (register p.cond).0,
        record (add_waiting (pos 1) p) { cond = (register p.cond).1 },
      )
  waits p stays = rw stays refl

  roomy :
      (p : PoolCore wq.Queue H L T) (k limit : ℕ)
      → p.running ≡ pos k
      → p.capacity ≡ pos limit
      → k < limit
      → has_room wq (cap p) p ≡ true
  roomy p k limit runs capped below = rw (runs, capped) (ground arith)

  -- In a valid state with nobody asleep and no more workers than the capacity, let a submitter
  -- that may wait hold the lock, having found no room, and let a worker be at its end. Then the
  -- worker can end, and its signal be given, before the submitter waits: the submitter sleeps
  -- without the lock, nothing lets it leave its wait, and there is room for a new worker. No signal
  -- or wake-up of the purging thread is on its way that was not before, and the releases and the
  -- other threads at their end are as they were. This is so in a closed pool as well.
  pub lost_wakeup :
      (s : System wq.Queue H L T) (before after : List (ℕ × Stage T)) (w : ℕ) (t : T)
      → Valid wq bound s
      → s.asleep ≡ []
      → leb_ℤ s.pool.running (cap s.pool) ≡ true
      → bails_out wq s.pool ≡ false
      → s.held ≡ full t
      → s.out ≡ before ++ ((w, leaving) ∷ after)
      → (u : System wq.Queue H L T) × (g : ℕ) × Reach wq bound s u
        × (u.held ≡ free)
        × (u.out ≡ before ++ after)
        × (u.asleep ≡ (g, t) ∷ [])
        × (try_leave g u.pool.cond ≡ none)
        × (has_room wq (cap u.pool) u.pool ≡ true)
        × (u.pool.state ≡ s.pool.state)
        × (u.ending ≡ s.ending)
        × (u.closing ≡ s.closing)
        × (u.emptied ≡ s.emptied)
        × (u.signalling ≡ s.signalling)
        × (u.scanned ≡ s.scanned)
  unfolding add_waiting
  lost_wakeup s before after w t v nobody within stays held split =
      let (s1, e) = exit-Exited wq bound s before after w split in
      let (same_cap, signalled, same_bail, same_state, same_run) = exit_worker-fields w s.pool in
      let capacity = ap (λ p. p.capacity) e.pool ∙ same_cap in
      let p2 : PoolCore wq.Queue H L T = record (add_waiting (pos 1) s1.pool) {
        cond = (register s1.pool.cond).1;
      } in
      let g = (register s1.pool.cond).0 in
      let b = v.blocked in
      let parked : s.pool.cond.parked ≡ 0 = b.parked ∙ ap length nobody in
      let quiet = unheard s.pool.cond parked (omega (arith, b.covered, parked)) in
      let n = length (before ++ after) in
      let c : Counted wq bound s.pool (suc n) =
        subst (Counted wq bound s.pool)
          (length-map s.out (λ r. r.0) ∙ ap length split ∙ length-middle before after (w, leaving))
          v.counted in
      let fits =
        at_most s.pool.running (cap s.pool) (length c.idle + suc n) (suc c.room) c.count c.capped
          within in
      let runs : s1.pool.running ≡ pos (length c.idle + n) =
        ap (λ p. p.running) e.pool ∙ same_run ∙ uncount-running wq bound c in
      let room : has_room wq (cap s1.pool) s1.pool ≡ true =
        roomy s1.pool (length c.idle + n) (suc c.room) runs (capacity ∙ c.capped)
          (omega (arith, fits)) in
      let bails = ap (bails_out wq) e.pool ∙ same_bail ∙ stays in
      (
        record s1 { pool = p2; held = free; asleep = (g, t) ∷ s1.asleep },
        g,
        next e.reach (parks t g p2 (e.held ∙ held) (waits s1.pool bails)),
        refl,
        e.out,
        ap (λ l. (g, t) ∷ l) (e.asleep ∙ nobody),
        subst (λ c. try_leave (register c).0 (register c).1 ≡ none)
            (sym (ap (λ p. p.cond) e.pool ∙ signalled)) quiet,
        room,
        ap (λ p. p.state) e.pool ∙ same_state,
        e.ending,
        e.closing,
        e.emptied,
        e.signalling,
        e.scanned,
      )

-- ===== src/PoolCore/System/Overtaken.antt =====
-- A reboot that a release overtakes: `reboot` of src/pool_common.rs opens the pool first and puts
-- the new latch into it last, with no lock held between.
use ants.Base.{ℕ, suc, ◌≡◌, refl, sym, subst, ◌∙◌, false, [], inl, inr}
use ants.WorkerQueue.{WorkerQueue}
use ants.PoolCore.{PoolCore, opened, closed}
use ants.PoolCore.Lifecycle.{begin_close, reset_workers, finish_close}
use ants.PoolCore.Effects.Lifecycle.{reset_workers-Unmoved, finish_close-cases}
use ants.PoolCore.System.{System, free, closes, empties, latches, renews, Reach, start, next}
use ants.PoolCore.System.Invariant.{Valid}

module _ (wq : WorkerQueue ℕ) (bound : ℕ) {H L T : Type 0} where
  finished :
      (p : PoolCore wq.Queue H L T)
      → ((finish_close wq p).state ≡ p.state)
        × ((finish_close wq p).running ≡ p.running)
        × ((finish_close wq p).workers ≡ p.workers)
  finished p = elim (finish_close-cases wq p) [
    | inl (quiet, eq) ↦ rw eq (refl, refl, refl)
    | inr (busy, eq) ↦ rw eq (refl, refl, refl)
  ]

  -- In a valid state where the pool is open, the lock is free and a reboot has only its new latch
  -- left to put in, a whole release can come first. The pool is then closed, its queue is empty, no
  -- release is on its way that was not before, the count is as it was, and so are the threads at
  -- their end; but the latch is open, even where no worker runs.
  pub reboot_overtaken :
      (s : System wq.Queue H L T) (n : ℕ)
      → Valid wq bound s
      → s.pool.state ≡ opened
      → s.held ≡ free
      → s.clock_restarted ≡ suc n
      → (u : System wq.Queue H L T) × Reach wq bound s u
        × (u.pool.state ≡ closed)
        × (u.pool.all_done.closed ≡ false)
        × wq.Idle u.pool.workers []
        × (u.pool.running ≡ s.pool.running)
        × (u.ending ≡ s.ending)
        × (u.closing ≡ s.closing)
        × (u.emptied ≡ s.emptied)
        × (u.clock_restarted ≡ n)
  unfolding begin_close
  reboot_overtaken s n v live unheld half_done =
      let p = begin_close wq s.pool in
      let m = reset_workers-Unmoved wq p in
      let (state, running, workers) = finished (reset_workers wq p) in
      let c = v.counted in
      (
        _,
        next
            (next (next (next start (closes live)) (empties s.closing unheld refl))
              (latches s.emptied refl))
            (renews n half_done),
        state ∙ m.state,
        refl,
        subst (λ q. wq.Idle q []) (sym (workers ∙ m.workers))
            (wq.reset_law s.pool.workers c.idle c.holds).1,
        running ∙ m.running,
        refl,
        refl,
        refl,
        refl,
      )

-- ===== src/PoolCore/System/Valid.antt =====
-- What holds of a pool in every order of the steps of the threads that act on it.
use ants.Base.{inr, inl, inr, ℕ, ◌+◌, refl, ap, ◌∙◌, subst, ◌∷◌, ◌++◌, arith, length, length-middle}
use ants.Base.Count.{total, total-middle}
use ants.Base.Count.{total-middle}
use mathlib.Core.List.{map-append}
use ants.Base.Int.{eqb_ℤ, pos}
use ants.PoolCore.Effects.Lifecycle.{
  reopen-Restarted, restart_purge-Restarted, restart_clock-Restarted, renew_latch-Restarted,
}
use ants.PoolCore.Latch.{same-Latch, reopen-Latch, renew-Latch}
use ants.WorkerQueue.{WorkerQueue}
use ants.PoolCore.{is_closed, finish, payload, send}
use ants.PoolCore.Workers.{revert_locked}
use ants.PoolCore.Effects.{
  wake_dormant-Unmoved, unmoved, unmoved, wake_dormant-Unmoved, send-Unmoved, tune-Unmoved,
  ticktock_round-Unmoved,
}
use ants.PoolCore.Counted.{same-Counted}
use ants.PoolCore.Counted.Lifecycle.{wake_dormant-capacity, tune-Counted, ticktock_round-Counted}
use ants.PoolCore.System.{
  uncounted, last, uncached, uncounts, looks, shuts, recycles, signals, stops_purging, scans,
  finishes, rouses, stale, System, granted, told, working, reverting, reinserting, leaving, Step,
  rejects, enters, takes, finds_empty, reads, finds_room, finds_none, spawns, fails, parks, wakes,
  resumes, gives_up, sends, receives_task, receives_finish, runs, breaks, begins, returns, tunes,
  closes, empties, latches, reopens, restarts_purge, restarts_clock, renews, ticks, Reach, start,
  next,
}
use ants.PoolCore.System.Core.{
  Core, starting-Plain, full-Plain, relock, read-Core, room-Core, take-Core, empty-Core, spawn-Core,
  fail-Core, park-Core, wake-Core,
}
use ants.PoolCore.System.Workers.{
  workers_of, restaged, quiet-Core, begin-Core, return-Core, uncount-Core, shut-Core, recycle-Core,
}
use ants.PoolCore.System.Rest.{close-Core, reset-Core, latch-Core, Restarted-Core, scan-Core}
use ants.PoolCore.System.Invariant.{
  threads_of, last_weight, verdict, workers_of-taken, joined, returned, pending, Valid, at_held,
  listed, threaded, pended, looked, split_out, restage, woken,
}

module _ (wq : WorkerQueue ℕ) (bound : ℕ) {H L T : Type 0} where
  Step-Valid :
      {s t : System wq.Queue H L T} → Step wq bound s t → Valid wq bound s → Valid wq bound t
  unfolding send
  Step-Valid (rejects t shut) v = v
  Step-Valid (enters t unheld) v = relock wq bound (starting-Plain t) v
  Step-Valid (takes t w p' h eq) v = take-Core wq bound w eq v
  Step-Valid (finds_empty t p' h eq) v = empty-Core wq bound t eq v
  Step-Valid (reads t h) v = read-Core wq bound t v
  Step-Valid {s} (finds_room t c h room) v = room-Core wq bound t c room (at_held wq bound s h v)
  Step-Valid (finds_none t c h none_left) v = relock wq bound (full-Plain t) v
  Step-Valid {s} (spawns t h) v = spawn-Core wq bound t (at_held wq bound s h v)
  Step-Valid (fails t e p' h eq) v = fail-Core wq bound eq v
  Step-Valid (parks t g p' h eq) v = park-Core wq bound g eq v
  Step-Valid {s} (wakes before after g t c split leaves) v = wake-Core wq bound g c leaves (
      subst
        (λ n.
          Core wq bound s.pool s.held (workers_of s.out) (threads_of s.ending) n (length s.awake)
            (pending s))
        (ap length split ∙ length-middle before after (g, t)) v)
  Step-Valid {s} (resumes before after t split unheld live) v =
      relock wq bound (starting-Plain t) (woken wq bound s before after t split v)
  Step-Valid {s} (gives_up before after t split unheld shut) v =
      woken wq bound s before after t split v
  Step-Valid {s} (sends before after w t split) v =
      quiet-Core wq bound (send-Unmoved w (payload t) s.pool)
        (same-Counted wq bound refl refl refl v'.counted) v'
    where
      v' : Valid wq bound (record s { out = before ++ ((w, told) ∷ after) })
      v' = restage wq bound s before after w (granted t) told split v
  Step-Valid {s} (receives_task before after early late w t split mail first) v =
      restage wq bound s before after w told (working t) split v
  Step-Valid {s} (receives_finish before after early late w split mail first) v =
      restage wq bound s before after w told leaving split v
  Step-Valid {s} (runs before after w t split) v =
      restage wq bound s before after w (working t) reverting split v
  Step-Valid {s} (breaks before after w t split) v =
      restage wq bound s before after w (working t) leaving split v
  Step-Valid {s} (begins before after w split) v =
      begin-Core wq bound w (restage wq bound s before after w reverting _ split v)
  Step-Valid {s} (returns before after w split unheld) v =
      listed wq bound (returned before after w (revert_locked wq w s.pool).0) (
        return-Core wq bound (workers_of before) (workers_of after) w
          (listed wq bound (split_out wq bound s before after w reinserting split) v))
  Step-Valid {s} (uncounts before after w split) v = listed wq bound (joined before after) (
      pended wq bound (omega arith) (
        uncount-Core wq bound (workers_of before) (workers_of after) w
          (listed wq bound (split_out wq bound s before after w leaving split) v)))
  Step-Valid {s} (looks before after w count split) v =
      let weights = total-middle last_weight before after in
      threaded wq bound (ap threads_of split ∙ restaged before after w (uncounted count) _) (
        pended wq bound
          (omega (arith, weights (w, verdict (eqb_ℤ count (pos 0)) (is_closed s.pool))))
          (looked wq bound (eqb_ℤ count (pos 0)) (is_closed s.pool)
            (s.closing + s.emptied + s.overtaken + total last_weight (before ++ after)) refl
            (pended wq bound
              (omega (arith, ap (total last_weight) split, weights (w, uncounted count))) v)))
  Step-Valid {s} (shuts before after w split) v =
      let weights = total-middle last_weight before after in
      threaded wq bound (ap threads_of split ∙ restaged before after w last uncached) (
        shut-Core wq bound (
          pended wq bound
            (omega (arith, ap (total last_weight) split, weights (w, last), weights (w, uncached)))
            v))
  Step-Valid {s} (recycles before after w split) v = threaded wq bound (joined before after) (
      pended wq bound
        (omega (
          arith,
          ap (total last_weight) split,
          total-middle last_weight before after (w, uncached),
        ))
        (recycle-Core wq bound (threads_of before) (threads_of after) w (
          threaded wq bound
            (ap threads_of split ∙ map-append (λ r. r.0) before ((w, uncached) ∷ after)) v)))
  Step-Valid {s} (signals n some_left) v =
      quiet-Core wq bound (unmoved refl refl refl refl refl refl refl (inr (inl refl)))
        (same-Counted wq bound refl refl refl v.counted) v
  Step-Valid {s} (tunes size fits) v =
      quiet-Core wq bound (tune-Unmoved (pos size) s.pool)
        (tune-Counted wq bound size v.counted fits) v
  Step-Valid {s} (closes live) v = pended wq bound (omega arith) (close-Core wq bound v)
  Step-Valid {s} (empties n unheld some_closing) v =
      listed wq bound (workers_of-taken told (wq.q_reset s.pool.workers).0 s.out)
        (pended wq bound (omega (arith, some_closing)) (reset-Core wq bound v))
  Step-Valid {s} (latches n some_emptied) v =
      latch-Core wq bound (pended wq bound (omega (arith, some_emptied)) v)
  Step-Valid {s} (reopens shut) v =
      Restarted-Core wq bound (reopen-Restarted s.pool) (reopen-Latch s.pool) v
  Step-Valid {s} (restarts_purge n some_left) v =
      let (r, state, latch) = restart_purge-Restarted s.pool in
      Restarted-Core wq bound r (same-Latch state r.running latch v.latch) v
  Step-Valid {s} (restarts_clock now n some_left) v =
      let (r, state, latch) = restart_clock-Restarted now s.pool in
      Restarted-Core wq bound r (same-Latch state r.running latch v.latch) v
  Step-Valid {s} (renews n some_left) v =
      pended wq bound (omega arith)
        (Restarted-Core wq bound (renew_latch-Restarted s.pool) (renew-Latch v.latch) v)
  Step-Valid {s} (ticks fired clock) v =
      quiet-Core wq bound (ticktock_round-Unmoved fired clock s.pool)
        (ticktock_round-Counted wq bound fired clock v.counted) v
  Step-Valid {s} stops_purging v =
      quiet-Core wq bound (unmoved refl refl refl refl refl refl refl (inl refl))
        (same-Counted wq bound refl refl refl v.counted) v
  Step-Valid {s} (scans clock gone dormant p' unheld ran) v =
      listed wq bound (workers_of-taken stale gone s.out) (scan-Core wq bound clock ran v)
  Step-Valid {s} (finishes before after w split) v =
      quiet-Core wq bound (send-Unmoved w finish s.pool)
        (same-Counted wq bound refl refl refl v'.counted) v'
    where
      v' : Valid wq bound (record s { out = before ++ ((w, told) ∷ after) })
      v' = restage wq bound s before after w stale told split v
  Step-Valid {s} (rouses before after dormant split) v =
      quiet-Core wq bound (wake_dormant-Unmoved dormant s.pool)
        (same-Counted wq bound (wake_dormant-Unmoved dormant s.pool).workers
          (wake_dormant-Unmoved dormant s.pool).running
          (wake_dormant-capacity wq bound dormant s.pool) v.counted)
        v

  pub Reach-Valid :
      {s t : System wq.Queue H L T} → Valid wq bound s → Reach wq bound s t → Valid wq bound t
  Reach-Valid v start = v
  Reach-Valid v (next r st) = Step-Valid st (Reach-Valid v r)

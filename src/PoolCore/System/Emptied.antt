-- ===== src/PoolCore/System/Emptied.antt =====
-- A closed pool and its queue: `release` of src/pool_common.rs empties the queue under the lock, and
-- `revert_worker` looks under the lock whether the pool is closed before it puts a worker back.
use ants.Base.{ℕ, ◌<◌, ◌≡◌, refl, ap, [], arith, length}
use ants.Base.Int.{pos}
use ants.Base.Word.{i32_half}
use ants.WorkerQueue.{WorkerQueue}
use ants.PoolCore.{PoolCore, opened, closed, add_waiting, add_running, recycle, payload, finish}
use ants.PoolCore.Effects.{
  wait_or_fail-failed, wait_or_fail-blocked, revert_begin-Unmoved, send-Unmoved, tune-Unmoved,
  ticktock_round-Unmoved, wake_dormant-Unmoved,
}
use ants.PoolCore.Effects.Lifecycle.{restart_purge-Restarted, restart_clock-Restarted}
use ants.PoolCore.System.{
  System, alone, Step, rejects, enters, takes, finds_empty, reads, finds_room, finds_none, spawns,
  fails, parks, wakes, resumes, gives_up, sends, receives_task, receives_finish, runs, breaks,
  begins, returns, uncounts, looks, shuts, recycles, signals, tunes, closes, empties, latches,
  reopens, restarts_purge, restarts_clock, renews, ticks, stops_purging, scans, finishes, rouses,
  Reach, start, next,
}
use ants.PoolCore.System.Invariant.{Valid}
use ants.PoolCore.System.Valid.{Reach-Valid}
use ants.PoolCore.Emptied.{
  Emptied, same-Emptied, Unmoved-Emptied, take-Emptied, empty-Emptied, spawn-Emptied,
  return-Emptied, purge-Emptied, reset-Emptied, latch-Emptied, open-Emptied,
}

module _ (wq : WorkerQueue ℕ) (bound : ℕ) {H L T : Type 0} where
  Step-Emptied :
      {s t : System wq.Queue H L T}
      → Step wq bound s t
      → Valid wq bound s
      → Emptied wq s.pool s.closing
      → Emptied wq t.pool t.closing
  unfolding add_waiting add_running recycle
  Step-Emptied (rejects t shut) c v = v
  Step-Emptied (enters t unheld) c v = v
  Step-Emptied (takes t w p' h eq) c v = take-Emptied wq eq v
  Step-Emptied (finds_empty t p' h eq) c v = empty-Emptied wq eq v
  Step-Emptied (reads t h) c v = v
  Step-Emptied (finds_room t n h room) c v = v
  Step-Emptied (finds_none t n h none_left) c v = v
  Step-Emptied (spawns t h) c v = spawn-Emptied wq v
  Step-Emptied {s} (fails t e p' h eq) c v =
      let same = (wait_or_fail-failed wq s.pool eq).0 in rw same v
  Step-Emptied {s} (parks t g p' h eq) c v =
      let same = (wait_or_fail-blocked wq s.pool eq).0 in
      same-Emptied wq (ap (λ x. x.workers) same) (ap (λ x. x.state) same) v
  Step-Emptied (wakes before after g t w split leaves) c v = same-Emptied wq refl refl v
  Step-Emptied (resumes before after t split unheld live) c v = same-Emptied wq refl refl v
  Step-Emptied (gives_up before after t split unheld shut) c v = same-Emptied wq refl refl v
  Step-Emptied {s} (sends before after w t split) c v =
      Unmoved-Emptied wq (send-Unmoved w (payload t) s.pool) v
  Step-Emptied (receives_task before after early late w t split mail first) c v = v
  Step-Emptied (receives_finish before after early late w split mail first) c v = v
  Step-Emptied (runs before after w t split) c v = v
  Step-Emptied (breaks before after w t split) c v = v
  Step-Emptied {s} (begins before after w split) c v =
      Unmoved-Emptied wq (revert_begin-Unmoved wq w s.pool) v
  Step-Emptied (returns before after w split unheld) c v = return-Emptied wq w v
  Step-Emptied (uncounts before after w split) c v = same-Emptied wq refl refl v
  Step-Emptied (looks before after w count split) c v = v
  Step-Emptied (shuts before after w split) c v = same-Emptied wq refl refl v
  Step-Emptied (recycles before after w split) c v = same-Emptied wq refl refl v
  Step-Emptied (signals n some_left) c v = same-Emptied wq refl refl v
  Step-Emptied {s} (tunes size fits) c v = Unmoved-Emptied wq (tune-Unmoved (pos size) s.pool) v
  Step-Emptied (closes live) c v = record { empty = λ shut over. absurd (omega (arith, over)) }
  Step-Emptied {s} (empties n unheld some_closing) c v =
      reset-Emptied wq s.pool c.counted.idle c.counted.holds
  Step-Emptied (latches n some_emptied) c v = latch-Emptied wq v
  Step-Emptied (reopens shut) c v = open-Emptied wq refl
  Step-Emptied {s} (restarts_purge n some_left) c v =
      let (r, state, latch) = restart_purge-Restarted s.pool in same-Emptied wq r.workers state v
  Step-Emptied {s} (restarts_clock now n some_left) c v =
      let (r, state, latch) = restart_clock-Restarted now s.pool in
      same-Emptied wq r.workers state v
  Step-Emptied (renews n some_left) c v = same-Emptied wq refl refl v
  Step-Emptied {s} (ticks fired clock) c v =
      Unmoved-Emptied wq (ticktock_round-Unmoved fired clock s.pool) v
  Step-Emptied stops_purging c v = same-Emptied wq refl refl v
  Step-Emptied {s} (scans clock gone dormant p' unheld ran) c v =
      let n = c.counted in
      let below : length n.idle < i32_half = omega (arith, n.limit, n.small) in
      purge-Emptied wq clock (wq.small_fits s.pool.workers n.idle n.holds c.placed.small below)
        n.idle n.holds ran v
  Step-Emptied {s} (finishes before after w split) c v =
      Unmoved-Emptied wq (send-Unmoved w finish s.pool) v
  Step-Emptied {s} (rouses before after dormant split) c v =
      Unmoved-Emptied wq (wake_dormant-Unmoved dormant s.pool) v

  keeps-Emptied :
      {s t : System wq.Queue H L T}
      → Valid wq bound s
      → Emptied wq s.pool s.closing
      → Reach wq bound s t
      → Emptied wq t.pool t.closing
  keeps-Emptied c v start = v
  keeps-Emptied c v (next r st) = Step-Emptied st (Reach-Valid wq bound c r) (keeps-Emptied c v r)

  -- From an open pool that satisfies the invariants with nobody around it, in every reachable state
  -- where the pool is closed and no release has still to empty the queue, no worker is idle in it.
  pub Reach-emptied :
      {p : PoolCore wq.Queue H L T} {s : System wq.Queue H L T}
      → Valid wq bound (alone p)
      → p.state ≡ opened
      → Reach wq bound (alone p) s
      → s.pool.state ≡ closed
      → s.closing ≡ 0
      → wq.Idle s.pool.workers []
  Reach-emptied c live r shut over =
      let v = keeps-Emptied c (open-Emptied wq live) r in v.empty shut over

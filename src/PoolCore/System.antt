-- ===== src/PoolCore/System.antt =====
-- A pool and all that acts on it, in any order: submitters, workers, callers of `tune`, `release`
-- and `reboot`, and the two background threads.
-- A step is what one thread does between two points where what another does can matter to it. The
-- spin lock is part of the state, so a submitter that holds it can be overtaken by what the code
-- does without it: `tune`, the start of `revert_worker`, the end of a worker, most of a release.
mod State
pub mod Core
pub mod Workers
pub mod Rest
pub mod Invariant
pub mod Valid
pub mod Emptied
pub mod Unlock
pub mod Mail
pub mod Tasks
pub mod Reached
pub mod Alone
pub mod Drain
pub mod Drained
pub mod Made
pub mod Lost
pub mod Overtaken
pub mod Handover
pub use State.*
use ants.Base.{
  ◌+◌, ℕ, suc, ◌≤◌, ◌≡◌, Bool, true, false, none, some, List, [], ◌∷◌, ◌++◌, map, ◌&&◌,
  if◌then◌else◌,
}
use ants.Base.Int.{ℤ, pos, negsuc, eqb_ℤ}
use ants.Cond.{Waiters, try_leave, signal}
use ants.Context.{close}
use ants.Error.{Error}
use ants.WorkerQueue.{WorkerQueue}
use ants.PoolCore.{
  PoolCore, Message, payload, finish, opened, is_closed, cap, add_running, add_waiting, recycle,
  send,
}
use ants.PoolCore.Workers.{
  failed, blocked, spawn_worker, look, has_room, wait_or_fail, revert_begin, revert_locked,
}
use ants.PoolCore.Lifecycle.{
  tune, begin_close, reset_workers, finish_close, reopen, restart_purge, restart_clock, renew_latch,
}
use ants.PoolCore.Background.{ticktock_round, purge_scan, wake_dormant}

module _ (wq : WorkerQueue ℕ) (bound : ℕ) {H L T : Type 0} where
  pub data Step (s : System wq.Queue H L T) : System wq.Queue H L T → Type 0 where
    -- `try_submit`: the test for a closed pool, then the lock, which is got at any time after it.
    rejects :
        (t : T)
        → is_closed s.pool ≡ true
        → Step s (record s { entered = t ∷ s.entered; refused = t ∷ s.refused })
    enters :
        (t : T) → s.held ≡ free → Step s (record s { held = starting t; entered = t ∷ s.entered })
    -- A pass of `retrieve_worker`.
    takes :
        (t : T) (w : ℕ) (p' : PoolCore wq.Queue H L T)
        → s.held ≡ starting t
        → look wq s.pool ≡ (some w, p')
        → Step s (record s { pool = p'; held = free; out = (w, granted t) ∷ s.out })
    finds_empty :
        (t : T) (p' : PoolCore wq.Queue H L T)
        → s.held ≡ starting t
        → look wq s.pool ≡ (none, p')
        → Step s (record s { pool = p'; held = searched t })
    reads : (t : T) → s.held ≡ searched t → Step s (record s { held = comparing t (cap s.pool) })
    finds_room :
        (t : T) (c : ℤ)
        → s.held ≡ comparing t c
        → has_room wq c s.pool ≡ true
        → Step s (record s { held = spawning t })
    finds_none :
        (t : T) (c : ℤ)
        → s.held ≡ comparing t c
        → has_room wq c s.pool ≡ false
        → Step s (record s { held = full t })
    spawns :
        (t : T)
        → s.held ≡ spawning t
        → Step s (record s {
          pool = (spawn_worker wq s.pool).1;
          held = free;
          out = ((spawn_worker wq s.pool).0, granted t) ∷ s.out;
        })
    fails :
        (t : T) (e : Error) (p' : PoolCore wq.Queue H L T)
        → s.held ≡ full t
        → wait_or_fail wq s.pool ≡ (failed e, p')
        → Step s (record s { pool = p'; held = free; refused = t ∷ s.refused })
    parks :
        (t : T) (g : ℕ) (p' : PoolCore wq.Queue H L T)
        → s.held ≡ full t
        → wait_or_fail wq s.pool ≡ (blocked g, p')
        → Step s (record s { pool = p'; held = free; asleep = (g, t) ∷ s.asleep })
    -- A submitter leaves the wait, and later gets the lock.
    wakes :
        (before after : List (ℕ × T)) (g : ℕ) (t : T) (c : Waiters)
        → s.asleep ≡ before ++ ((g, t) ∷ after)
        → try_leave g s.pool.cond ≡ some c
        → Step s (record s {
          pool = record s.pool { cond = c };
          asleep = before ++ after;
          awake = t ∷ s.awake;
        })
    resumes :
        (before after : List T) (t : T)
        → s.awake ≡ before ++ (t ∷ after)
        → s.held ≡ free
        → is_closed s.pool ≡ false
        → Step s (record s {
          pool = add_waiting (negsuc 0) s.pool;
          held = starting t;
          awake = before ++ after;
        })
    gives_up :
        (before after : List T) (t : T)
        → s.awake ≡ before ++ (t ∷ after)
        → s.held ≡ free
        → is_closed s.pool ≡ true
        → Step s (record s {
          pool = add_waiting (negsuc 0) s.pool;
          awake = before ++ after;
          refused = t ∷ s.refused;
        })
    -- The submitter sends its payload to the worker that it has got.
    sends :
        (before after : List (ℕ × Stage T)) (w : ℕ) (t : T)
        → s.out ≡ before ++ ((w, granted t) ∷ after)
        → Step s (record s {
          pool = send w (payload t) s.pool;
          out = before ++ ((w, told) ∷ after);
          inbox = s.inbox ++ ((w, payload t) ∷ []);
        })
    -- A worker receives the oldest message of its channel.
    receives_task :
        (before after : List (ℕ × Stage T)) (early late : List (ℕ × Message T)) (w : ℕ) (t : T)
        → s.out ≡ before ++ ((w, told) ∷ after)
        → s.inbox ≡ early ++ ((w, payload t) ∷ late)
        → mail w early ≡ 0
        → Step s (record s { out = before ++ ((w, working t) ∷ after); inbox = early ++ late })
    receives_finish :
        (before after : List (ℕ × Stage T)) (early late : List (ℕ × Message T)) (w : ℕ)
        → s.out ≡ before ++ ((w, told) ∷ after)
        → s.inbox ≡ early ++ ((w, finish) ∷ late)
        → mail w early ≡ 0
        → Step s (record s { out = before ++ ((w, leaving) ∷ after); inbox = early ++ late })
    -- The payload has run; or it was the stop sentinel, or it panicked.
    runs :
        (before after : List (ℕ × Stage T)) (w : ℕ) (t : T)
        → s.out ≡ before ++ ((w, working t) ∷ after)
        → Step s (record s { out = before ++ ((w, reverting) ∷ after); done = t ∷ s.done })
    breaks :
        (before after : List (ℕ × Stage T)) (w : ℕ) (t : T)
        → s.out ≡ before ++ ((w, working t) ∷ after)
        → Step s (record s { out = before ++ ((w, leaving) ∷ after); done = t ∷ s.done })
    -- `revert_worker` up to the lock, and under it.
    begins :
        (before after : List (ℕ × Stage T)) (w : ℕ)
        → s.out ≡ before ++ ((w, reverting) ∷ after)
        → Step s (record s {
          pool = (revert_begin wq w s.pool).1;
          out =
              before
              ++ ((w, if (revert_begin wq w s.pool).0 then reinserting else leaving) ∷ after);
        })
    returns :
        (before after : List (ℕ × Stage T)) (w : ℕ)
        → s.out ≡ before ++ ((w, reinserting) ∷ after)
        → s.held ≡ free
        → Step s (record s {
          pool = (revert_locked wq w s.pool).1;
          out =
              if (revert_locked wq w s.pool).0
              then before ++ after
              else before ++ ((w, leaving) ∷ after);
        })
    -- The end of a worker's thread: it lowers the count, looks whether it was the last, and then
    -- closes the latch; it recycles its worker, and gives a signal.
    uncounts :
        (before after : List (ℕ × Stage T)) (w : ℕ)
        → s.out ≡ before ++ ((w, leaving) ∷ after)
        → Step s (record s {
          pool = (add_running (negsuc 0) s.pool).1;
          out = before ++ after;
          ending = (w, uncounted (add_running (negsuc 0) s.pool).0) ∷ s.ending;
        })
    looks :
        (before after : List (ℕ × Ending)) (w : ℕ) (count : ℤ)
        → s.ending ≡ before ++ ((w, uncounted count) ∷ after)
        → Step s (record s {
          ending =
              before
              ++ ((w, if eqb_ℤ count (pos 0) && is_closed s.pool then last else uncached) ∷ after);
        })
    shuts :
        (before after : List (ℕ × Ending)) (w : ℕ)
        → s.ending ≡ before ++ ((w, last) ∷ after)
        → Step s (record s {
          pool = record s.pool { all_done = close s.pool.all_done };
          ending = before ++ ((w, uncached) ∷ after);
        })
    recycles :
        (before after : List (ℕ × Ending)) (w : ℕ)
        → s.ending ≡ before ++ ((w, uncached) ∷ after)
        → Step s (record s {
          pool = recycle w s.pool;
          ending = before ++ after;
          signalling = suc s.signalling;
        })
    signals :
        (n : ℕ)
        → s.signalling ≡ suc n
        → Step s (record s { pool = record s.pool { cond = signal s.pool.cond }; signalling = n })
    tunes : (size : ℕ) → size ≤ bound → Step s (record s { pool = tune (pos size) s.pool })
    -- A release: up to the lock, under it, and after it.
    closes :
        s.pool.state ≡ opened
        → Step s (record s { pool = begin_close wq s.pool; closing = suc s.closing })
    empties :
        (n : ℕ)
        → s.held ≡ free
        → s.closing ≡ suc n
        → Step s (
            tell
              (wq.q_reset s.pool.workers).0
              (record s { pool = reset_workers wq s.pool; closing = n; emptied = suc s.emptied }))
    latches :
        (n : ℕ)
        → s.emptied ≡ suc n
        → Step s (record s { pool = finish_close wq s.pool; emptied = n })
    -- A reboot, from its compare-exchange on; another release can come between any two parts.
    reopens :
        is_closed s.pool ≡ true
        → Step s (record s { pool = reopen s.pool; reopened = suc s.reopened })
    restarts_purge :
        (n : ℕ)
        → s.reopened ≡ suc n
        → Step s (record s {
          pool = restart_purge s.pool;
          reopened = n;
          purge_restarted = suc s.purge_restarted;
        })
    restarts_clock :
        (now : ℤ) (n : ℕ)
        → s.purge_restarted ≡ suc n
        → Step s (record s {
          pool = restart_clock now s.pool;
          purge_restarted = n;
          clock_restarted = suc s.clock_restarted;
        })
    renews :
        (n : ℕ)
        → s.clock_restarted ≡ suc n
        → Step s (record s {
          pool = renew_latch s.pool;
          clock_restarted = n;
          overtaken = s.overtaken + (if is_closed s.pool then 1 else 0);
        })
    ticks :
        (fired : Bool) (clock : ℤ)
        → Step s (record s { pool = (ticktock_round fired clock s.pool).1 })
    -- The purging thread ends; or it takes the stale workers out under the lock, tells each to
    -- finish, and wakes the submitters of a dormant pool.
    stops_purging : Step s (record s { pool = record s.pool { purge_done = pos 1 } })
    scans :
        (clock : ℤ) (gone : List ℕ) (dormant : Bool) (p' : PoolCore wq.Queue H L T)
        → s.held ≡ free
        → purge_scan wq clock s.pool ≡ some ((gone, dormant), p')
        → Step s (record s {
          pool = p';
          out = map (λ w. (w, stale)) gone ++ s.out;
          scanned = dormant ∷ s.scanned;
        })
    finishes :
        (before after : List (ℕ × Stage T)) (w : ℕ)
        → s.out ≡ before ++ ((w, stale) ∷ after)
        → Step s (record s {
          pool = send w finish s.pool;
          out = before ++ ((w, told) ∷ after);
          inbox = s.inbox ++ ((w, finish) ∷ []);
        })
    rouses :
        (before after : List Bool) (dormant : Bool)
        → s.scanned ≡ before ++ (dormant ∷ after)
        → Step s (record s { pool = wake_dormant dormant s.pool; scanned = before ++ after })

  pub data Reach (s : System wq.Queue H L T) : System wq.Queue H L T → Type 0 where
    start : Reach s s
    next : {t u : System wq.Queue H L T} → Reach s t → Step t u → Reach s u

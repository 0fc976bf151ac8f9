-- ===== src/Tests/Runs.antt =====
-- Concrete runs of a pool among its threads: a pool of one worker, from its making on.
use ants.PoolCore.{send_finish}
use ants.Base.{ℕ, ◌≡◌, refl, some, [], ◌∷◌, arith}
use ants.Base.Int.{pos}
use ants.Options.{with_options, load_options, logger_or}
use ants.Error.{ok}
use ants.WorkerStack
use ants.WorkerQueue
use ants.WorkerQueue.{BoxedQueue, stack, new_worker_queue}
use ants.WorkerQueue.Laws.{boxed_queue}
use ants.Base.{ℕ, ◌≡◌}
use ants.Base.Int.{◌+ℤ◌}
use ants.Base.Word.{add_i32, wrap_i32}
use ants.Cond.{register}
use ants.WorkerStack.{pop_last}
use ants.PoolCore.{
  set_last_used_time, add_waiting, PoolCore, payload, cap, send, fetch_cached_worker, add_running,
}
use ants.PoolCore.Workers.{revert_begin, revert_locked, wait_or_fail, look, spawn_worker, bails_out}
use ants.PoolCore.System.{reopens, restarts_purge, restarts_clock}
use ants.PoolCore.Lifecycle.{
  reopen, restart_purge, restart_clock, begin_close, finish_close, reset_workers, go_purge,
  go_ticktock,
}
use ants.PoolCore.Create.{new, build, start_pool, with_default_logger, fresh_pool, check_expiry}
use ants.PoolCore.System.{
  returns, reinserting, runs, begins, parks, System, free, searched, spawning, full, leaving, alone,
  Reach, start, next, enters, finds_empty, reads, finds_room, finds_none, spawns, sends,
  receives_task, breaks, closes, empties, latches,
}
use ants.PoolCore.System.Invariant.{Valid}
use ants.PoolCore.System.Made.{new-Valid}
use ants.Tests.Pool.{plain_options}

-- A pool of one worker that has just been made.
abbrev pub made_pool : PoolCore (BoxedQueue ℕ) ℕ ℕ ℕ
made_pool = go_ticktock (pos 9) (
    go_purge (
      fresh_pool (pos 1) (record plain_options { logger = some 1 })
        (stack (record { items = [] }))))

pub made : new 1 (pos 9) (pos 1) (with_options plain_options ∷ []) ≡ some (ok made_pool)
unfolding new build start_pool with_default_logger check_expiry load_options new_worker_queue
    WorkerStack.new logger_or
made = refl

pub made_pool-Valid : Valid boxed_queue 4 (alone made_pool)
made_pool-Valid =
    new-Valid 1 (pos 9) 0 4 (with_options plain_options ∷ []) (ground arith) (ground arith)
      (ground arith) made

-- A submission finds the queue empty and gets a new worker.
abbrev pub first_search : System (BoxedQueue ℕ) ℕ ℕ ℕ
first_search = record (alone made_pool) {
  pool = (look boxed_queue made_pool).1;
  held = searched 7;
  entered = 7 ∷ [];
}

abbrev pub first_room : System (BoxedQueue ℕ) ℕ ℕ ℕ
first_room = record first_search { held = spawning 7 }

pub first_room-Reach : Reach boxed_queue 4 (alone made_pool) first_room
unfolding look WorkerQueue.detach WorkerStack.detach pop_last fresh_pool go_purge go_ticktock
first_room-Reach =
    next
      (next
        (next (next start (enters 7 refl)) (finds_empty 7 (look boxed_queue made_pool).1 refl refl))
        (reads 7 refl))
      (finds_room 7 (cap first_search.pool) refl refl)

-- The worker has got the payload, which panics.
abbrev pub spawned : ℕ × PoolCore (BoxedQueue ℕ) ℕ ℕ ℕ
spawned = spawn_worker boxed_queue first_room.pool

abbrev pub ending : System (BoxedQueue ℕ) ℕ ℕ ℕ
ending = record first_room {
  pool = send spawned.0 (payload 7) spawned.1;
  held = free;
  out = (spawned.0, leaving) ∷ [];
  done = 7 ∷ [];
}

pub ending-Reach : Reach boxed_queue 4 (alone made_pool) ending
ending-Reach =
    next
      (next (next (next first_room-Reach (spawns 7 refl)) (sends [] [] spawned.0 7 refl))
        (receives_task [] [] [] [] spawned.0 7 refl refl refl))
      (breaks [] [] spawned.0 7 refl)

-- Before it ends, another submission finds no room.
abbrev pub no_room : System (BoxedQueue ℕ) ℕ ℕ ℕ
no_room = record ending {
  pool = (look boxed_queue ending.pool).1;
  held = full 8;
  entered = 8 ∷ (7 ∷ []);
}

pub no_room-Reach : Reach boxed_queue 4 (alone made_pool) no_room
unfolding look WorkerQueue.detach WorkerStack.detach pop_last fresh_pool go_purge go_ticktock
    spawn_worker fetch_cached_worker add_running send add_i32 wrap_i32 ◌+ℤ◌
no_room-Reach =
    next
      (next
        (next (next ending-Reach (enters 8 refl))
          (finds_empty 8 (look boxed_queue ending.pool).1 refl refl))
        (reads 8 refl))
      (finds_none 8 (cap no_room.pool) refl refl)

-- A run where the payload returns: the worker is about to be put back.
abbrev pub returning : System (BoxedQueue ℕ) ℕ ℕ ℕ
returning = record first_room {
  pool = (revert_begin boxed_queue spawned.0 (send spawned.0 (payload 7) spawned.1)).1;
  held = free;
  out = (spawned.0, reinserting) ∷ [];
  done = 7 ∷ [];
}

pub returning-Reach : Reach boxed_queue 4 (alone made_pool) returning
unfolding look WorkerQueue.detach WorkerStack.detach pop_last fresh_pool go_purge go_ticktock
    spawn_worker fetch_cached_worker add_running send add_i32 wrap_i32 ◌+ℤ◌ revert_begin
returning-Reach =
    next
      (next
        (next (next (next first_room-Reach (spawns 7 refl)) (sends [] [] spawned.0 7 refl))
          (receives_task [] [] [] [] spawned.0 7 refl refl refl))
        (runs [] [] spawned.0 7 refl))
      (begins [] [] spawned.0 refl)

-- It is put back, and may be stale later.
abbrev pub restored : System (BoxedQueue ℕ) ℕ ℕ ℕ
restored = record returning {
  pool = (revert_locked boxed_queue spawned.0 returning.pool).1;
  out = [];
}

pub restored-Reach : Reach boxed_queue 4 (alone made_pool) restored
unfolding look WorkerQueue.detach WorkerStack.detach pop_last fresh_pool go_purge go_ticktock
    spawn_worker fetch_cached_worker add_running send add_i32 wrap_i32 ◌+ℤ◌ revert_begin
    revert_locked WorkerQueue.insert WorkerStack.insert set_last_used_time
restored-Reach = next returning-Reach (returns [] [] spawned.0 refl refl)

-- Meanwhile another submitter goes to sleep.
abbrev pub sleeping : System (BoxedQueue ℕ) ℕ ℕ ℕ
sleeping = record returning {
  pool = (wait_or_fail boxed_queue (look boxed_queue returning.pool).1).1;
  asleep = (0, 8) ∷ [];
  entered = 8 ∷ (7 ∷ []);
}

pub sleeping-Reach : Reach boxed_queue 4 (alone made_pool) sleeping
unfolding look WorkerQueue.detach WorkerStack.detach pop_last fresh_pool go_purge go_ticktock
    spawn_worker fetch_cached_worker add_running send add_i32 wrap_i32 ◌+ℤ◌ revert_begin
    set_last_used_time bails_out add_waiting register
sleeping-Reach =
    next
      (next
        (next
          (next (next returning-Reach (enters 8 refl))
            (finds_empty 8 (look boxed_queue returning.pool).1 refl refl))
          (reads 8 refl))
        (finds_none 8 (cap returning.pool) refl refl))
      (parks 8 0 sleeping.pool refl refl)

-- Nobody has used the pool, and it is released.
abbrev pub shut : System (BoxedQueue ℕ) ℕ ℕ ℕ
shut = record (alone made_pool) {
  pool = finish_close boxed_queue (reset_workers boxed_queue (begin_close boxed_queue made_pool));
}

pub shut-Reach : Reach boxed_queue 4 (alone made_pool) shut
unfolding fresh_pool go_purge go_ticktock begin_close WorkerQueue.reset WorkerStack.reset
shut-Reach = next (next (next start (closes refl)) (empties 0 refl refl)) (latches 0 refl)

-- A release begins where a worker is at its end and a submitter holds the lock.
abbrev pub closing : System (BoxedQueue ℕ) ℕ ℕ ℕ
closing = record no_room { pool = begin_close boxed_queue no_room.pool; closing = 1 }

pub closing-Reach : Reach boxed_queue 4 (alone made_pool) closing
unfolding look WorkerQueue.detach WorkerStack.detach pop_last fresh_pool go_purge go_ticktock
    spawn_worker fetch_cached_worker add_running send add_i32 wrap_i32 ◌+ℤ◌
closing-Reach = next no_room-Reach (closes refl)

-- The pool is released where the worker is at its end. A submitter that saw the pool open gets the
-- lock after that and finds no room.
abbrev pub released : System (BoxedQueue ℕ) ℕ ℕ ℕ
released = record ending {
  pool = finish_close boxed_queue (reset_workers boxed_queue (begin_close boxed_queue ending.pool));
}

abbrev pub late : System (BoxedQueue ℕ) ℕ ℕ ℕ
late = record released {
  pool = (look boxed_queue released.pool).1;
  held = full 8;
  entered = 8 ∷ (7 ∷ []);
}

pub late-Reach : Reach boxed_queue 4 (alone made_pool) late
unfolding look WorkerQueue.detach WorkerStack.detach pop_last fresh_pool go_purge go_ticktock
    spawn_worker fetch_cached_worker add_running send add_i32 wrap_i32 ◌+ℤ◌ begin_close
    WorkerQueue.reset WorkerStack.reset reset_workers finish_close send_finish
late-Reach =
    next
      (next
        (next
          (next
            (next (next (next ending-Reach (closes refl)) (empties 0 refl refl)) (latches 0 refl))
            (enters 8 refl))
          (finds_empty 8 (look boxed_queue released.pool).1 refl refl))
        (reads 8 refl))
      (finds_none 8 (cap late.pool) refl refl)

-- A pool that was released is opened again; the reboot has not put its new latch in yet.
abbrev pub rebooting : System (BoxedQueue ℕ) ℕ ℕ ℕ
rebooting = record shut {
  pool = restart_clock (pos 12) (restart_purge (reopen shut.pool));
  clock_restarted = 1;
}

pub rebooting-Reach : Reach boxed_queue 4 (alone made_pool) rebooting
unfolding go_ticktock go_purge fresh_pool begin_close finish_close reset_workers send_finish
    WorkerQueue.reset WorkerStack.reset
rebooting-Reach =
    next (next (next shut-Reach (reopens refl)) (restarts_purge 0 refl))
      (restarts_clock (pos 12) 0 refl)

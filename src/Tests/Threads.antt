-- ===== src/Tests/Threads.antt =====
-- The invariants of a pool among its threads, at concrete runs.
use ants.Base.{ℕ, ◌≡◌, refl, some, [], ◌∷◌, arith, true, length}
use ants.Base.Int.{pos}
use ants.Options.{with_options}
use ants.Context.{close}
use ants.WorkerStack
use ants.WorkerQueue
use ants.WorkerQueue.{BoxedQueue, stack, new_worker_queue}
use ants.WorkerQueue.Laws.{boxed_queue}
use ants.Base.{ℕ, ◌+◌, ◌≤◌, ◌≡◌, ◌++◌, none, List, Bool}
use ants.Base.Count.{times}
use ants.Base.Int.{◌+ℤ◌}
use ants.Base.Word.{add_i32, wrap_i32}
use ants.Cond.{register, try_leave}
use ants.WorkerStack.{pop_last}
use ants.WorkerQueue.Laws.{Idle}
use ants.PoolCore.{
  set_last_used_time, add_waiting, PoolCore, cap, send, send_finish, fetch_cached_worker,
  add_running,
}
use ants.PoolCore.Workers.{revert_begin, revert_locked, look, spawn_worker, bails_out, has_room}
use ants.PoolCore.Lifecycle.{begin_close, finish_close, reset_workers, go_purge, go_ticktock}
use ants.PoolCore.Create.{fresh_pool}
use ants.PoolCore.Counted.{Counted}
use ants.PoolCore.Places.{Placed}
use ants.PoolCore.Blocked.{Blocked}
use ants.PoolCore.System.{granted, System, free, mail, alone, Reach}
use ants.PoolCore.System.Workers.{workers_of}
use ants.PoolCore.System.Invariant.{Valid, threads_of}
use ants.PoolCore.System.Valid.{Reach-Valid}
use ants.PoolCore.System.Tasks.{Tasks}
use ants.PoolCore.System.Made.{new-Valid}
use ants.PoolCore.System.Reached.{
  Reach-Counted, Reach-Placed, Reach-Blocked, Reach-latched, Reach-mail, Reach-Tasks, Reach-purges,
}
use ants.PoolCore.System.Emptied.{Reach-emptied}
use ants.PoolCore.System.Overtaken.{reboot_overtaken}
use ants.PoolCore.System.Lost.{lost_wakeup}
use ants.PoolCore.System.Handover.{handover}
use ants.PoolCore.Background.{purge_scan}
use mathlib.Core.List.{Perm}
use ants.Tests.Pool.{plain_options}
use ants.PoolCore.{closed}
use ants.PoolCore.Lifecycle.{begin_close, reset_workers, finish_close}
use ants.PoolCore.{send_finish}
use ants.Base.{false}
use ants.Tests.Runs.{
  rebooting, rebooting-Reach, late, late-Reach, made_pool, made, made_pool-Valid, spawned, no_room,
  no_room-Reach, restored, restored-Reach, sleeping, sleeping-Reach, shut, shut-Reach, closing,
}

new-Valid_example : Valid boxed_queue 4 (alone made_pool)
new-Valid_example =
    new-Valid 1 (pos 9) 0 4 (with_options plain_options ∷ []) (ground arith) (ground arith)
      (ground arith) made

Reach-Counted_example : Counted boxed_queue 4 no_room.pool (length no_room.out)
Reach-Counted_example = Reach-Counted boxed_queue 4 made_pool-Valid no_room-Reach

Reach-Placed_example :
    Placed boxed_queue no_room.pool (workers_of no_room.out ++ threads_of no_room.ending)
Reach-Placed_example = Reach-Placed boxed_queue 4 made_pool-Valid no_room-Reach

Reach-Blocked_example : Blocked no_room.pool (length no_room.asleep) (length no_room.awake)
Reach-Blocked_example = Reach-Blocked boxed_queue 4 made_pool-Valid no_room-Reach

Reach-mail_example :
    (idle : List ℕ) × (Idle no_room.pool.workers idle)
    × ((w : ℕ) → mail w no_room.inbox + times w idle + times w no_room.pool.worker_cache ≤ 1)
Reach-mail_example = Reach-mail boxed_queue 4 made_pool-Valid no_room-Reach

Reach-Tasks_example : Tasks (λ task. task) no_room
Reach-Tasks_example = Reach-Tasks boxed_queue 4 (λ task. task) no_room-Reach

lost_wakeup_example :
    (u : System (BoxedQueue ℕ) ℕ ℕ ℕ) × (g : ℕ) × Reach boxed_queue 4 late u
    × (u.held ≡ free)
    × (u.out ≡ [])
    × (u.asleep ≡ (g, 8) ∷ [])
    × (try_leave g u.pool.cond ≡ none)
    × (has_room boxed_queue (cap u.pool) u.pool ≡ true)
    × (u.pool.state ≡ closed)
    × (u.ending ≡ [])
    × (u.closing ≡ 0)
    × (u.emptied ≡ 0)
    × (u.signalling ≡ 0)
    × (u.scanned ≡ [])
unfolding look WorkerQueue.detach WorkerStack.detach pop_last fresh_pool go_purge go_ticktock
    spawn_worker fetch_cached_worker add_running send add_i32 wrap_i32 ◌+ℤ◌ begin_close
    WorkerQueue.reset WorkerStack.reset reset_workers finish_close send_finish bails_out
lost_wakeup_example =
    lost_wakeup boxed_queue 4 late [] [] spawned.0 8
      (Reach-Valid boxed_queue 4 made_pool-Valid late-Reach) refl refl refl refl refl

Reach-purges_example :
    (idle gone left : List ℕ) × (dormant : Bool) × (p' : PoolCore (BoxedQueue ℕ) ℕ ℕ ℕ) × (Idle
      restored.pool.workers idle)
    × (purge_scan boxed_queue (pos 90) restored.pool ≡ some ((gone, dormant), p'))
    × (p' ≡ record restored.pool { workers = p'.workers })
    × (Idle p'.workers left)
    × Perm (gone ++ left) idle
Reach-purges_example = Reach-purges boxed_queue 4 (pos 90) made_pool-Valid restored-Reach

handover_example :
    (u : System (BoxedQueue ℕ) ℕ ℕ ℕ) × (w' : ℕ) × Reach boxed_queue 4 sleeping u
    × (u.held ≡ free)
    × (u.asleep ≡ [])
    × (u.awake ≡ [])
    × (u.out ≡ (w', granted 8) ∷ [])
unfolding look WorkerQueue.detach WorkerStack.detach pop_last fresh_pool go_purge go_ticktock
    spawn_worker fetch_cached_worker add_running send add_i32 wrap_i32 ◌+ℤ◌ revert_begin
    set_last_used_time bails_out add_waiting register revert_locked WorkerQueue.insert
    WorkerStack.insert
handover_example =
    handover boxed_queue 4 sleeping [] [] spawned.0 [] [] 0 8
      (Reach-Valid boxed_queue 4 made_pool-Valid sleeping-Reach) refl refl refl refl

Reach-latched_example : shut.pool.all_done.closed ≡ true
unfolding go_ticktock go_purge fresh_pool begin_close finish_close reset_workers send_finish
    WorkerQueue.reset WorkerStack.reset close
Reach-latched_example =
    Reach-latched boxed_queue 4 made_pool-Valid refl shut-Reach refl refl refl refl refl refl

Reach-emptied_example : Idle shut.pool.workers []
unfolding go_ticktock go_purge fresh_pool begin_close finish_close reset_workers send_finish
    WorkerQueue.reset WorkerStack.reset close
Reach-emptied_example = Reach-emptied boxed_queue 4 made_pool-Valid refl shut-Reach refl refl

reboot_overtaken_example :
    (u : System (BoxedQueue ℕ) ℕ ℕ ℕ) × Reach boxed_queue 4 rebooting u
    × (u.pool.state ≡ closed)
    × (u.pool.all_done.closed ≡ false)
    × Idle u.pool.workers []
    × (u.pool.running ≡ pos 0)
    × (u.ending ≡ [])
    × (u.closing ≡ 0)
    × (u.emptied ≡ 0)
    × (u.clock_restarted ≡ 0)
unfolding go_ticktock go_purge fresh_pool begin_close finish_close reset_workers send_finish
    WorkerQueue.reset WorkerStack.reset
reboot_overtaken_example =
    reboot_overtaken boxed_queue 4 rebooting 0
      (Reach-Valid boxed_queue 4 made_pool-Valid rebooting-Reach) refl refl refl

-- ===== src/Tests/Deps.antt =====
-- Durations, waits and runs of the ring at concrete inputs.
use ants.Base.{◌++◌, List, ℕ, ◌≡◌, refl, true, false, some, [], ◌∷◌, arith}
use ants.Base.Int.{pos}
use ants.Duration.{from_nanos}
use ants.Context.{Context, new_event, is_done, past_deadline, remaining}
use ants.Context.Waits.{Round, wait_round, wait_timeout, wait_until, wait_round-second}
use ants.Context.{with_timeout, ctx_err}
use ants.Duration.{to_std}
use ants.PoolCore.Lifecycle.{already_released, release, release_context}
use ants.Base.{◌⊎◌, false}
use ants.WorkerQueue.Laws.{boxed_queue}
use ants.PoolCore.{PoolCore}
use ants.Error.{pool_closed, Result, err, timeout}
use ants.WorkerQueue.{BoxedQueue}
use ants.PoolCore.{PoolCore}
use ants.PoolCore.Lifecycle.{done, release_round, map_timeout}
use ants.PoolCore.Shutdown.{
  await_rounds, Glance, timed_round, release_timeout, Justified, release_timeout-Justified,
  late_round-ends,
}
use ants.Tests.Pool.{pool_with, plain_options}
use ants.LoopQueue
use ants.LoopQueue.{LoopQueue}
use ants.LoopQueue.Runs.{Call, insert, detach, reset, len, answers, answers_fifo, new-fifo}

-- A context with a deadline at 10, which nobody cancels.
abbrev limited : Context
limited = record { cancelled = new_event; deadline = some 10 }

-- Its first round begins at 4, is woken at 8 and times out at 11; the second begins at 12.
abbrev early_round : Round
early_round = record {
  seen = limited;
  begun = 4;
  later = 4;
  start = 5;
  looks = record { closed = false; now = 8 } ∷ (record { closed = false; now = 11 } ∷ []);
}

abbrev late_round : Round
late_round = record { seen = limited; begun = 12; later = 12; start = 12; looks = [] }

wait_round-second_example : wait_round late_round ≡ some true
unfolding wait_round wait_timeout wait_until is_done past_deadline remaining
wait_round-second_example =
    wait_round-second early_round late_round 10 refl refl (omega arith)
      (omega arith, (omega arith, tt)) refl

new-fifo_example :
    let calls : List (Call ℕ) =
      insert 3 ∷ (insert 5 ∷ (insert 7 ∷ (detach ∷ (insert 7 ∷ (len ∷ (reset ∷ [])))))) in
    (q : LoopQueue ℕ) × (LoopQueue.new (pos 2) ≡ some q)
    × (answers q calls ≡ answers_fifo 2 [] calls)
new-fifo_example =
    new-fifo 1 (insert 3 ∷ (insert 5 ∷ (insert 7 ∷ (detach ∷ (insert 7 ∷ (len ∷ (reset ∷ [])))))))

-- A pool that runs a worker, seen by a round before the deadline at 10, and by one after it.
abbrev busy_pool : PoolCore (BoxedQueue ℕ) ℕ ℕ ℕ
busy_pool = pool_with [] (pos 1) (pos 1) plain_options

abbrev early_glance : Glance (BoxedQueue ℕ) ℕ ℕ ℕ
early_glance = record { early = 6; latched = false; late = 7; pool = busy_pool }

abbrev late_glance : Glance (BoxedQueue ℕ) ℕ ℕ ℕ
late_glance = record { early = 12; latched = false; late = 12; pool = busy_pool }

abbrev both_glances : List (Glance (BoxedQueue ℕ) ℕ ℕ ℕ)
both_glances = early_glance ∷ (late_glance ∷ [])

abbrev timed_out : Result (Unit {0})
timed_out = err timeout

abbrev shut_before : Result (Unit {0})
shut_before = err pool_closed

-- A pool of one worker, with its background threads.
abbrev live_pool : PoolCore (BoxedQueue ℕ) ℕ ℕ ℕ
live_pool = record busy_pool { stop_purge = some 0; stop_ticktock = some 1 }

release_timeout-Justified_example :
    let p' = (release_timeout boxed_queue 5 (from_nanos (pos 5)) live_pool both_glances).1 in
    ((already_released live_pool ≡ true) × (timed_out ≡ shut_before) × (p' ≡ live_pool))
    ⊎ ((already_released live_pool ≡ false)
        × (p' ≡ release boxed_queue live_pool)
        × ((before after : List (Glance (BoxedQueue ℕ) ℕ ℕ ℕ)) × (g : Glance (BoxedQueue ℕ) ℕ ℕ ℕ)
            × (both_glances ≡ before ++ (g ∷ after))
            × Justified 5 (from_nanos (pos 5)) timed_out g))
unfolding release_timeout release_context already_released await_rounds release_round ctx_err
    with_timeout past_deadline to_std map_timeout
release_timeout-Justified_example =
    release_timeout-Justified boxed_queue 5 (from_nanos (pos 5)) live_pool both_glances timed_out
      refl

late_round-ends_example :
    (r : Result (Unit {0})) × (timed_round 5 (from_nanos (pos 5)) late_glance ≡ done r)
unfolding to_std
late_round-ends_example =
    late_round-ends 5 (from_nanos (pos 5)) late_glance (omega arith) (omega arith)

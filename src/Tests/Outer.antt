-- ===== src/Tests/Outer.antt =====
-- The theorems on the flavours of a pool, the text of errors, the release of a multi-pool, the spin
-- lock, the logger and the default pool, at concrete inputs.
use ants.Base.{
  ℕ, ◌≡◌, refl, Bool, true, false, Option, none, some, List, [], ◌∷◌, ◌++◌, map, ltb, if◌then◌else◌,
}
use ants.Base.Int.{pos}
use ants.Base.Decimal.{show_padded}
use ants.Error.{Result, ok, err, to_string, codes, pool_closed, deadline_exceeded}
use ants.PoolCore.{payload, finish, closed}
use ants.PoolCore.Workers.{failed}
use ants.PoolFunc.{PoolWithFunc, AnyArg, arg}
use ants.PoolFuncGeneric.{PoolWithFuncGeneric}
use ants.Flavours.Calls.{Call, submits, works, releases, purges, relabel_call, relabel_reply}
use ants.Flavours.{
  as_task, calls_function, calls_all, call_task, call_func, call_generic, as_pool, as_func,
  func_is_pool, generic_is_func,
}
use ants.MultiPool.{MultiPoolCore, dispatch}
use ants.MultiPool.Text.{segment, release_pools}
use ants.MultiPool.Report.{read_segment, read_segment-segment}
use ants.MultiPool.Segments.{segments, report, release_pools-segments}
use ants.MultiPool.Lifecycle.{release_with, release_each}
use ants.MultiPool.Shut.{release_with-closes}
use ants.SpinLock.{Threads, Reach, start, calls, takes, fresh, try_lock}
use ants.SpinLock as SpinLock
use ants.SpinLock.Exclusion.{Exclusive, Reach-Exclusive}
use ants.Golog.{
  Fields, StdLogger, stdout, format, ends_with_newline, default_logger, date_text, clock_text,
  format-line,
}
use ants.Tests.Pool.{pool_with, plain_options}
use ants.Tests.Multi.{counters, trio}

-- A function that returns on arguments below 5, and panics on others.
abbrev below : ℕ → ℕ → Bool
below limit a = ltb a limit

abbrev func_pool : PoolWithFunc ℕ ℕ ℕ ℕ
func_pool = record { core = pool_with (3 ∷ []) (pos 1) (pos 2) plain_options; pf = 5 }

abbrev func_calls : List (Call (AnyArg ℕ))
func_calls =
    submits (some 4)
    ∷ submits (some 9)
    ∷ works 3 (payload (some 4))
    ∷ works 10 (payload (some 9))
    ∷ submits none
    ∷ releases
    ∷ works 3 finish
    ∷ []

func_is_pool_example :
    let (replies, end) = calls_all (call_func below) func_calls func_pool in
    calls_all
      (call_task (calls_function below))
      (map (relabel_call (as_task 5)) func_calls)
      (as_pool 5 func_pool)
    ≡ (map (relabel_reply (as_task 5)) replies, as_pool 5 end)
func_is_pool_example = func_is_pool below func_pool func_calls

abbrev generic_pool : PoolWithFuncGeneric ℕ ℕ ℕ ℕ
generic_pool = record { core = pool_with (3 ∷ []) (pos 1) (pos 2) plain_options; pf = 5 }

abbrev generic_calls : List (Call ℕ)
generic_calls = submits 4 ∷ submits 9 ∷ works 3 (payload 4) ∷ purges false (pos 9) ∷ []

generic_is_func_example :
    let (replies, end) = calls_all (call_generic below) generic_calls generic_pool in
    calls_all (call_func below) (map (relabel_call arg) generic_calls) (as_func generic_pool)
    ≡ (map (relabel_reply arg) replies, as_func end)
generic_is_func_example = generic_is_func below generic_pool generic_calls

read_segment-segment_example : read_segment (segment 120 pool_closed) ≡ (120, to_string pool_closed)
read_segment-segment_example = read_segment-segment 120 pool_closed

abbrev threads : List (Option (Result (Unit {0})))
threads = some (err pool_closed) ∷ some (ok tt) ∷ none ∷ some (err deadline_exceeded) ∷ []

release_pools-segments_example : release_pools threads ≡ report (segments 0 threads)
release_pools-segments_example = release_pools-segments threads (refl, (refl, tt))

release_with-closes_example :
    let m' = (release_with counters (release_each counters) trio).1 in
    ((release_with counters (release_each counters) trio).0
      ≡ release_pools (release_each counters trio.pools).0)
    × (m'.state ≡ closed)
    × (release_with counters (release_each counters) m' ≡ (err pool_closed, m'))
    × (dispatch counters 9 m' ≡ some (failed pool_closed, m'))
release_with-closes_example =
    release_with-closes counters (release_each counters) (release_each counters) trio 9 refl

abbrev shut_trio : MultiPoolCore (ℕ × ℕ)
shut_trio = record trio { state = closed }

-- Thread 1 calls `lock` and takes the lock.
abbrev locked : Threads ℕ
locked = record { lock = (try_lock (SpinLock.new 7)).1; holders = 1 ∷ []; spinning = [] }

locked-Reach : Reach (fresh 7) locked
unfolding try_lock SpinLock.new
locked-Reach = SpinLock.next (SpinLock.next start (calls 1)) (takes 1 1 [] [] refl refl)

Reach-Exclusive_example : Exclusive locked
Reach-Exclusive_example = Reach-Exclusive 7 locked-Reach

abbrev noon : Bool → Fields
noon utc = record {
  year = 2024;
  month = 2;
  day = 29;
  hour = 12;
  minute = 0;
  second = 0;
  micros = 7;
}

abbrev bare : StdLogger
bare = record { target = stdout; prefix = codes "> "; flags = 0 }

format-line_example :
    let line =
      ((((date_text (noon false) ++ clock_text (noon false)) ++ (codes "." ++ show_padded 6 7))
          ++ codes " ")
        ++ codes "[ants]: ")
      ++ codes "hi" in
    (ends_with_newline (format noon bare (codes "hi")) ≡ true)
    × (format noon default_logger (codes "hi")
        ≡ (if ends_with_newline line then line else line ++ (10 ∷ [])))
format-line_example = format-line noon bare (codes "hi")

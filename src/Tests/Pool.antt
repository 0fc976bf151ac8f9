-- ===== src/Tests/Pool.antt =====
-- The theorems on a pool, its condition variable, contexts and options, at concrete inputs.
use ants.Base.{ℕ, ◌≡◌, refl, ◌⊎◌, false, none, some, List, [], ◌∷◌, arith}
use ants.Options.{load_options}
use ants.Base.{true, false}
use ants.Base.Int.{◌<ℤ◌, ◌≤ℤ◌, ℤ, pos, negsuc, leb_ℤ, ltb_ℤ, eqb_ℤ}
use ants.Duration.{from_nanos}
use ants.Error.{ok, err, pool_closed, invalid_pool_expiry}
use ants.WorkerStack
use ants.WorkerStack.{pop_last}
use ants.WorkerQueue.{BoxedQueue, stack, loop_queue}
use ants.WorkerQueue.Laws.{boxed_queue}
use ants.WorkerQueue
use ants.Cond.{
  Waiters, Sleepers, Reach, start, next, enters, no_waiters, register, signal, broadcast, try_leave,
  IsValid, Reach-IsValid, signal_stolen,
}
use ants.Context.{new_event}
use ants.Options.{Options, with_options}
use ants.PoolCore.{PoolCore, opened, closed}
use ants.PoolCore.Workers.{
  look, retrieve_new, bails_out, retrieve_pass, try_submit, blocked, refused,
}
use ants.PoolCore.Lifecycle.{release}
use ants.PoolCore.Create.{new}
use ants.PoolCore.Created.{new-Counted}
use ants.PoolCore.Counted.{Counted}
use ants.PoolCore.Closed.{release-closes, retrieve_pass-blocked}

-- One thread has entered `wait`.
abbrev one_asleep : Sleepers
one_asleep = record { waiters = record { parked = 1; tokens = 0; generation = 0 }; asleep = 0 ∷ [] }

one_asleep-Reach : Reach one_asleep
unfolding register
one_asleep-Reach = next start (enters (record { waiters = no_waiters; asleep = [] }))

Reach-IsValid_example : IsValid one_asleep
Reach-IsValid_example = Reach-IsValid one_asleep-Reach

signal_stolen_example :
    let (mine, w2) = register (broadcast one_asleep.waiters) in
    (w' : Waiters) × (try_leave 0 (signal w2) ≡ some w') × (try_leave mine w' ≡ none)
signal_stolen_example =
    signal_stolen one_asleep.waiters 0 (ground arith) (ground arith) (ground arith)

-- A limited pool over a stack of idle workers; tasks, loggers and handlers are numbers.
abbrev pub pool_with : {T : Type 0} → List ℕ → ℤ → ℤ → Options ℕ ℕ → PoolCore (BoxedQueue ℕ) ℕ ℕ T
pool_with idle running capacity options = record {
  capacity = capacity;
  running = running;
  workers = stack (record { items = idle });
  state = opened;
  cond = no_waiters;
  all_done = new_event;
  worker_cache = [];
  waiting = pos 0;
  purge_done = pos 0;
  purge_ctx = none;
  stop_purge = none;
  ticktock_done = pos 0;
  ticktock_ctx = none;
  stop_ticktock = none;
  now = pos 9;
  options = options;
  contexts = [];
  made = 10;
  last_used = λ w. pos w;
  sent = [];
}

abbrev pub plain_options : Options ℕ ℕ
plain_options = record {
  expiry_duration = from_nanos (pos 5);
  pre_alloc = false;
  max_blocking_tasks = pos 0;
  nonblocking = false;
  panic_handler = none;
  logger = none;
  disable_purge = false;
}

abbrev pub idle_pool : PoolCore (BoxedQueue ℕ) ℕ ℕ ℕ
idle_pool = pool_with (3 ∷ 5 ∷ []) (pos 2) (pos 4) plain_options

idle_pool-Counted : Counted boxed_queue 4 idle_pool 0
idle_pool-Counted = record {
  idle = 3 ∷ 5 ∷ [];
  holds = refl;
  count = refl;
  limit = ground arith;
  room = 3;
  capped = refl;
  within = ground arith;
  small = ground arith;
}

new-Counted_example :
    let opts = load_options (with_options plain_options ∷ []) in
    ((opts.disable_purge ≡ false)
      × (opts.expiry_duration.nanos <ℤ pos 0)
      × (new {T = ℕ} 1 (pos 9) (pos 4) (with_options plain_options ∷ [])
          ≡ some (err invalid_pool_expiry)))
    ⊎ (((opts.disable_purge ≡ true) ⊎ (pos 0 ≤ℤ opts.expiry_duration.nanos))
        × ((p : PoolCore (BoxedQueue ℕ) ℕ ℕ ℕ) × (new 1
                (pos 9)
                (pos 4)
                (with_options plain_options ∷ [])
              ≡ some (ok p))
            × (p.state ≡ opened)
            × (p.capacity ≡ pos 4)
            × Counted boxed_queue 4 p 0))
new-Counted_example =
    new-Counted 1 (pos 9) 3 4 (with_options plain_options ∷ []) (ground arith) (ground arith)

release-closes_example :
    let p' = release boxed_queue idle_pool in
    (p'.state ≡ closed)
    × (release boxed_queue p' ≡ p')
    × (try_submit boxed_queue 7 p' ≡ (refused pool_closed 7, p'))
release-closes_example = release-closes boxed_queue idle_pool 7 refl

abbrev full_pool : PoolCore (BoxedQueue ℕ) ℕ ℕ ℕ
full_pool = pool_with [] (pos 1) (pos 1) plain_options

full_pool-waits : (retrieve_pass boxed_queue full_pool).0 ≡ blocked 0
unfolding retrieve_pass WorkerQueue.detach WorkerStack.detach pop_last look retrieve_new bails_out
    register
full_pool-waits = refl

retrieve_pass-blocked_example :
    ((boxed_queue.q_detach full_pool.workers).0 ≡ none)
    × (ltb_ℤ (pos 1) (pos 1) ≡ false)
    × (eqb_ℤ (pos 1) (negsuc 0) ≡ false)
    × (false ≡ false)
    × ((pos 0 ≡ pos 0) ⊎ (leb_ℤ (pos 0) (pos 0) ≡ false))
retrieve_pass-blocked_example = retrieve_pass-blocked boxed_queue full_pool 0 full_pool-waits

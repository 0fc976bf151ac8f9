-- ===== src/MultiPool/Tasks.antt =====
-- `MultiPool` of src/multipool.rs: several pools behind one, for tasks.
use ants.Base.{ℕ, Bool, not, ◌||◌, ◌&&◌, Option, none, some, List, if◌then◌else◌}
use ants.Base.Int.{ℤ, pos, leb_ℤ}
use ants.Error.{Result, ok, err, invalid_multi_pool_size, ◌>>=◌}
use ants.Options.{Opt}
use ants.PoolCore.Workers.{Retrieved}
use ants.Pool.{Pool, Task}
use ants.Pool
use ants.MultiPool.{
  MultiPoolCore, Poolish, LoadBalancingStrategy, dispatch, total, by_index, tune_all, same_strategy,
  round_robin, least_tasks,
}
use ants.MultiPool as Core
use ants.MultiPool.Lifecycle as Lifecycle

-- How a `Pool` is one of the pools behind a multi-pool: `impl Poolish for Pool`. `now` is the
-- wall clock of a reboot.
abbrev pub poolish : {H L B : Type 0} → ℤ → Poolish (Pool H L B) (Task B)
poolish now = record {
  deliver = Pool.try_submit;
  running = Pool.running;
  free = Pool.free;
  waiting = Pool.waiting;
  cap = Pool.cap;
  tune = Pool.tune;
  release = Pool.release;
  release_context = Pool.release_context;
  reboot = Pool.reboot now;
}

pub record MultiPool (H L B : Type 0) : Type 0 where
  pub core : MultiPoolCore (Pool H L B)

module _ {H L B : Type 0} (now : ℤ) where
  -- What `MultiPoolCore::new` makes of pools that are made without a panic: `make_pool i` is what
  -- the call number `i` of `Pool::new` returns. The second component holds the pools that are
  -- released again.
  unfoldable pub new_from :
      ℤ
      → LoadBalancingStrategy
      → (ℕ → Result (Pool H L B))
      → Result (MultiPool H L B) × List (Pool H L B)
  new_from size lbs make_pool =
      let (made, released) = Core.new (poolish now) size lbs make_pool in
      (made >>= λ core. ok (record { core = core }), released)

  -- `none` is a panic of `Pool::new`, which is called only where the size and the strategy are
  -- accepted.
  unfoldable pub new :
      L
      → ℤ
      → ℤ
      → LoadBalancingStrategy
      → List (Opt H L)
      → Option (Result (MultiPool H L B) × List (Pool H L B))
  new default_logger size size_per_pool lbs options =
      if leb_ℤ size (pos 0)
        || (not (same_strategy lbs round_robin) && not (same_strategy lbs least_tasks))
      then some (new_from size lbs (λ i. err invalid_multi_pool_size))
      else elim (Pool.new default_logger now size_per_pool options) [
        | none ↦ none
        | some made ↦ some (new_from size lbs (λ i. made))
      ]

  -- `none` is a panic; a call that may wait is taken up to its wait.
  unfoldable pub submit : (Task B) → MultiPool H L B → Option (Retrieved × MultiPool H L B)
  submit argument m = elim (dispatch (poolish now) argument m.core) [
    | none ↦ none
    | some r ↦ some (r.0, record { core = r.1 })
  ]

  abbrev pub running : MultiPool H L B → ℤ
  running m = total (poolish now) Pool.running m.core

  abbrev pub running_by_index : ℤ → MultiPool H L B → Result ℤ
  running_by_index index m = by_index (poolish now) Pool.running index m.core

  abbrev pub free : MultiPool H L B → ℤ
  free m = total (poolish now) Pool.free m.core

  abbrev pub free_by_index : ℤ → MultiPool H L B → Result ℤ
  free_by_index index m = by_index (poolish now) Pool.free index m.core

  abbrev pub waiting : MultiPool H L B → ℤ
  waiting m = total (poolish now) Pool.waiting m.core

  abbrev pub waiting_by_index : ℤ → MultiPool H L B → Result ℤ
  waiting_by_index index m = by_index (poolish now) Pool.waiting index m.core

  abbrev pub cap : MultiPool H L B → ℤ
  cap m = total (poolish now) Pool.cap m.core

  abbrev pub tune : ℤ → MultiPool H L B → MultiPool H L B
  tune size m = record { core = tune_all (poolish now) size m.core }

  abbrev pub is_closed : MultiPool H L B → Bool
  is_closed m = Core.is_closed (poolish now) m.core

  -- `release_all` is what the threads make of the pools, with the context of the timeout.
  abbrev pub release_timeout :
      (List (Pool H L B) → List (Option (Result (Unit {0}))) × List (Pool H L B))
      → MultiPool H L B
      → Result (Unit {0}) × MultiPool H L B
  release_timeout release_all m =
      let (r, core) = Lifecycle.release_timeout (poolish now) release_all m.core in
      (r, record { core = core })

  -- Without a context.
  abbrev pub release_context : MultiPool H L B → Result (Unit {0}) × MultiPool H L B
  release_context m =
      let (r, core) = Lifecycle.release_context (poolish now) m.core in (r, record { core = core })

  -- Whether it ends before a pool waits.
  abbrev pub reboot : MultiPool H L B → Bool × MultiPool H L B
  reboot m =
      let (ends, core) = Lifecycle.reboot (poolish now) m.core in (ends, record { core = core })

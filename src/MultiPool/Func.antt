-- ===== src/MultiPool/Func.antt =====
-- `MultiPoolWithFunc` of src/multipool_func.rs: several pools behind one, for one function over arguments of any type.
use ants.Base.{ℕ, Bool, not, ◌||◌, ◌&&◌, Option, none, some, List, if◌then◌else◌}
use ants.Base.Int.{ℤ, pos, leb_ℤ}
use ants.Error.{Result, ok, err, invalid_multi_pool_size, ◌>>=◌}
use ants.Options.{Opt}
use ants.PoolCore.Workers.{Retrieved}
use ants.PoolFunc.{PoolWithFunc, AnyArg, AnyFunc}
use ants.PoolFunc
use ants.MultiPool.{
  MultiPoolCore, Poolish, LoadBalancingStrategy, dispatch, total, by_index, tune_all, same_strategy,
  round_robin, least_tasks,
}
use ants.MultiPool as Core
use ants.MultiPool.Lifecycle as Lifecycle

-- How a `PoolWithFunc` is one of the pools behind a multi-pool: `impl Poolish for PoolWithFunc`. `now` is the
-- wall clock of a reboot.
abbrev pub poolish : {H L F A : Type 0} → ℤ → Poolish (PoolWithFunc H L F A) (AnyArg A)
poolish now = record {
  deliver = PoolFunc.try_invoke;
  running = PoolFunc.running;
  free = PoolFunc.free;
  waiting = PoolFunc.waiting;
  cap = PoolFunc.cap;
  tune = PoolFunc.tune;
  release = PoolFunc.release;
  release_context = PoolFunc.release_context;
  reboot = PoolFunc.reboot now;
}

pub record MultiPoolWithFunc (H L F A : Type 0) : Type 0 where
  pub core : MultiPoolCore (PoolWithFunc H L F A)

module _ {H L F A : Type 0} (now : ℤ) where
  -- What `MultiPoolCore::new` makes of pools that are made without a panic: `make_pool i` is what
  -- the call number `i` of `PoolWithFunc::new` returns. The second component holds the pools that are
  -- released again.
  unfoldable pub new_from :
      ℤ
      → LoadBalancingStrategy
      → (ℕ → Result (PoolWithFunc H L F A))
      → Result (MultiPoolWithFunc H L F A) × List (PoolWithFunc H L F A)
  new_from size lbs make_pool =
      let (made, released) = Core.new (poolish now) size lbs make_pool in
      (made >>= λ core. ok (record { core = core }), released)

  -- `none` is a panic of `PoolWithFunc::new`, which is called only where the size and the strategy are
  -- accepted.
  unfoldable pub new :
      L
      → ℤ
      → ℤ
      → AnyFunc F
      → LoadBalancingStrategy
      → List (Opt H L)
      → Option (Result (MultiPoolWithFunc H L F A) × List (PoolWithFunc H L F A))
  new default_logger size size_per_pool pf lbs options =
      if leb_ℤ size (pos 0)
        || (not (same_strategy lbs round_robin) && not (same_strategy lbs least_tasks))
      then some (new_from size lbs (λ i. err invalid_multi_pool_size))
      else elim (PoolFunc.new default_logger now size_per_pool pf options) [
        | none ↦ none
        | some made ↦ some (new_from size lbs (λ i. made))
      ]

  -- `none` is a panic; a call that may wait is taken up to its wait.
  unfoldable pub invoke :
      (AnyArg A) → MultiPoolWithFunc H L F A → Option (Retrieved × MultiPoolWithFunc H L F A)
  invoke argument m = elim (dispatch (poolish now) argument m.core) [
    | none ↦ none
    | some r ↦ some (r.0, record { core = r.1 })
  ]

  abbrev pub running : MultiPoolWithFunc H L F A → ℤ
  running m = total (poolish now) PoolFunc.running m.core

  abbrev pub running_by_index : ℤ → MultiPoolWithFunc H L F A → Result ℤ
  running_by_index index m = by_index (poolish now) PoolFunc.running index m.core

  abbrev pub free : MultiPoolWithFunc H L F A → ℤ
  free m = total (poolish now) PoolFunc.free m.core

  abbrev pub free_by_index : ℤ → MultiPoolWithFunc H L F A → Result ℤ
  free_by_index index m = by_index (poolish now) PoolFunc.free index m.core

  abbrev pub waiting : MultiPoolWithFunc H L F A → ℤ
  waiting m = total (poolish now) PoolFunc.waiting m.core

  abbrev pub waiting_by_index : ℤ → MultiPoolWithFunc H L F A → Result ℤ
  waiting_by_index index m = by_index (poolish now) PoolFunc.waiting index m.core

  abbrev pub cap : MultiPoolWithFunc H L F A → ℤ
  cap m = total (poolish now) PoolFunc.cap m.core

  abbrev pub tune : ℤ → MultiPoolWithFunc H L F A → MultiPoolWithFunc H L F A
  tune size m = record { core = tune_all (poolish now) size m.core }

  abbrev pub is_closed : MultiPoolWithFunc H L F A → Bool
  is_closed m = Core.is_closed (poolish now) m.core

  -- `release_all` is what the threads make of the pools, with the context of the timeout.
  abbrev pub release_timeout :
      (List (PoolWithFunc H L F A)
        → List (Option (Result (Unit {0}))) × List (PoolWithFunc H L F A))
      → MultiPoolWithFunc H L F A
      → Result (Unit {0}) × MultiPoolWithFunc H L F A
  release_timeout release_all m =
      let (r, core) = Lifecycle.release_timeout (poolish now) release_all m.core in
      (r, record { core = core })

  -- Without a context.
  abbrev pub release_context :
      MultiPoolWithFunc H L F A → Result (Unit {0}) × MultiPoolWithFunc H L F A
  release_context m =
      let (r, core) = Lifecycle.release_context (poolish now) m.core in (r, record { core = core })

  -- Whether it ends before a pool waits.
  abbrev pub reboot : MultiPoolWithFunc H L F A → Bool × MultiPoolWithFunc H L F A
  reboot m =
      let (ends, core) = Lifecycle.reboot (poolish now) m.core in (ends, record { core = core })

-- ===== src/MultiPool/FuncGeneric.antt =====
-- `MultiPoolWithFuncGeneric` of src/multipool_func_generic.rs: several pools behind one, for one function over arguments of one type.
use ants.Base.{ℕ, Bool, not, ◌||◌, ◌&&◌, Option, none, some, List, if◌then◌else◌}
use ants.Base.Int.{ℤ, pos, leb_ℤ}
use ants.Error.{Result, ok, err, invalid_multi_pool_size, ◌>>=◌}
use ants.Options.{Opt}
use ants.PoolCore.Workers.{Retrieved}
use ants.PoolFuncGeneric.{PoolWithFuncGeneric, PoolFunc}
use ants.PoolFuncGeneric
use ants.MultiPool.{
  MultiPoolCore, Poolish, LoadBalancingStrategy, dispatch, total, by_index, tune_all, same_strategy,
  round_robin, least_tasks,
}
use ants.MultiPool as Core
use ants.MultiPool.Lifecycle as Lifecycle

-- How a `PoolWithFuncGeneric` is one of the pools behind a multi-pool: `impl Poolish for PoolWithFuncGeneric`. `now` is the
-- wall clock of a reboot.
abbrev pub poolish : {H L F A : Type 0} → ℤ → Poolish (PoolWithFuncGeneric H L F A) A
poolish now = record {
  deliver = PoolFuncGeneric.try_invoke;
  running = PoolFuncGeneric.running;
  free = PoolFuncGeneric.free;
  waiting = PoolFuncGeneric.waiting;
  cap = PoolFuncGeneric.cap;
  tune = PoolFuncGeneric.tune;
  release = PoolFuncGeneric.release;
  release_context = PoolFuncGeneric.release_context;
  reboot = PoolFuncGeneric.reboot now;
}

pub record MultiPoolWithFuncGeneric (H L F A : Type 0) : Type 0 where
  pub core : MultiPoolCore (PoolWithFuncGeneric H L F A)

module _ {H L F A : Type 0} (now : ℤ) where
  -- What `MultiPoolCore::new` makes of pools that are made without a panic: `make_pool i` is what
  -- the call number `i` of `PoolWithFuncGeneric::new` returns. The second component holds the pools that are
  -- released again.
  unfoldable pub new_from :
      ℤ
      → LoadBalancingStrategy
      → (ℕ → Result (PoolWithFuncGeneric H L F A))
      → Result (MultiPoolWithFuncGeneric H L F A) × List (PoolWithFuncGeneric H L F A)
  new_from size lbs make_pool =
      let (made, released) = Core.new (poolish now) size lbs make_pool in
      (made >>= λ core. ok (record { core = core }), released)

  -- `none` is a panic of `PoolWithFuncGeneric::new`, which is called only where the size and the strategy are
  -- accepted.
  unfoldable pub new :
      L
      → ℤ
      → ℤ
      → PoolFunc F
      → LoadBalancingStrategy
      → List (Opt H L)
      → Option (Result (MultiPoolWithFuncGeneric H L F A) × List (PoolWithFuncGeneric H L F A))
  new default_logger size size_per_pool pf lbs options =
      if leb_ℤ size (pos 0)
        || (not (same_strategy lbs round_robin) && not (same_strategy lbs least_tasks))
      then some (new_from size lbs (λ i. err invalid_multi_pool_size))
      else elim (PoolFuncGeneric.new default_logger now size_per_pool pf options) [
        | none ↦ none
        | some made ↦ some (new_from size lbs (λ i. made))
      ]

  -- `none` is a panic; a call that may wait is taken up to its wait.
  unfoldable pub invoke :
      A → MultiPoolWithFuncGeneric H L F A → Option (Retrieved × MultiPoolWithFuncGeneric H L F A)
  invoke argument m = elim (dispatch (poolish now) argument m.core) [
    | none ↦ none
    | some r ↦ some (r.0, record { core = r.1 })
  ]

  abbrev pub running : MultiPoolWithFuncGeneric H L F A → ℤ
  running m = total (poolish now) PoolFuncGeneric.running m.core

  abbrev pub running_by_index : ℤ → MultiPoolWithFuncGeneric H L F A → Result ℤ
  running_by_index index m = by_index (poolish now) PoolFuncGeneric.running index m.core

  abbrev pub free : MultiPoolWithFuncGeneric H L F A → ℤ
  free m = total (poolish now) PoolFuncGeneric.free m.core

  abbrev pub free_by_index : ℤ → MultiPoolWithFuncGeneric H L F A → Result ℤ
  free_by_index index m = by_index (poolish now) PoolFuncGeneric.free index m.core

  abbrev pub waiting : MultiPoolWithFuncGeneric H L F A → ℤ
  waiting m = total (poolish now) PoolFuncGeneric.waiting m.core

  abbrev pub waiting_by_index : ℤ → MultiPoolWithFuncGeneric H L F A → Result ℤ
  waiting_by_index index m = by_index (poolish now) PoolFuncGeneric.waiting index m.core

  abbrev pub cap : MultiPoolWithFuncGeneric H L F A → ℤ
  cap m = total (poolish now) PoolFuncGeneric.cap m.core

  abbrev pub tune : ℤ → MultiPoolWithFuncGeneric H L F A → MultiPoolWithFuncGeneric H L F A
  tune size m = record { core = tune_all (poolish now) size m.core }

  abbrev pub is_closed : MultiPoolWithFuncGeneric H L F A → Bool
  is_closed m = Core.is_closed (poolish now) m.core

  -- `release_all` is what the threads make of the pools, with the context of the timeout.
  abbrev pub release_timeout :
      (List (PoolWithFuncGeneric H L F A)
        → List (Option (Result (Unit {0}))) × List (PoolWithFuncGeneric H L F A))
      → MultiPoolWithFuncGeneric H L F A
      → Result (Unit {0}) × MultiPoolWithFuncGeneric H L F A
  release_timeout release_all m =
      let (r, core) = Lifecycle.release_timeout (poolish now) release_all m.core in
      (r, record { core = core })

  -- Without a context.
  abbrev pub release_context :
      MultiPoolWithFuncGeneric H L F A → Result (Unit {0}) × MultiPoolWithFuncGeneric H L F A
  release_context m =
      let (r, core) = Lifecycle.release_context (poolish now) m.core in (r, record { core = core })

  -- Whether it ends before a pool waits.
  abbrev pub reboot : MultiPoolWithFuncGeneric H L F A → Bool × MultiPoolWithFuncGeneric H L F A
  reboot m =
      let (ends, core) = Lifecycle.reboot (poolish now) m.core in (ends, record { core = core })

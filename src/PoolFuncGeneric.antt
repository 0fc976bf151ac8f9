-- ===== src/PoolFuncGeneric.antt =====
-- `PoolWithFuncGeneric` of src/pool_func_generic.rs, the pool of one function over arguments of one type: what it makes of its core.
use ants.Base.{ℕ, Bool, Option, none, some, List, if◌then◌else◌}
use ants.Base.Int.{ℤ}
use ants.Error.{pool_closed, Result, ok, err, lack_pool_func, ◌>>=◌}
use ants.Options.{Opt}
use ants.WorkerQueue.{BoxedQueue}
use ants.WorkerQueue.Laws.{boxed_queue}
use ants.PoolCore.{PoolCore}
use ants.PoolCore as Core
use ants.PoolCore.Workers.{
  Retrieved, Submitted, Outcome, ran, panicked, answer, deliver, refused, retrieve_pass,
}
use ants.PoolCore.Lifecycle as Lifecycle
use ants.PoolCore.Create as Create

-- `type PoolFunc<T>`: nil, or a function.
abbrev pub PoolFunc : Type 0 → Type 0
PoolFunc F = Option F

abbrev pub pool_func : {F : Type 0} → F → PoolFunc F
pool_func body = some body

-- What a worker makes of an argument; `completes` tells whether the function returns on it or
-- panics.
unfoldable pub run_generic : {F A : Type 0} → (F → A → Bool) → F → A → Outcome
run_generic completes pf argument = if completes pf argument then ran else panicked

pub record PoolWithFuncGeneric (H L F A : Type 0) : Type 0 where
  pub core : PoolCore (BoxedQueue ℕ) H L A
  pub pf : F

module _ {H L F A : Type 0} where
  abbrev pub wrap :
      F → Result (PoolCore (BoxedQueue ℕ) H L A) → Result (PoolWithFuncGeneric H L F A)
  wrap pf made = made >>= λ core. ok (record { core = core; pf = pf })

  -- `none` is a panic of `PoolCore::new`.
  unfoldable pub new :
      L → ℤ → ℤ → PoolFunc F → List (Opt H L) → Option (Result (PoolWithFuncGeneric H L F A))
  new default_logger now size none options = some (err lack_pool_func)
  new default_logger now size (some pf) options =
      elim (Create.new default_logger now size options) [
        | none ↦ none
        | some made ↦ some (wrap pf made)
      ]

  -- A call that may wait is taken up to its wait.
  unfoldable pub try_invoke :
      A → PoolWithFuncGeneric H L F A → Submitted A × PoolWithFuncGeneric H L F A
  try_invoke argument p =
      if Core.is_closed p.core
      then (refused pool_closed argument, p)
      else let (end, core) = deliver boxed_queue argument (retrieve_pass boxed_queue p.core) in
        (end, record p { core = core })

  unfoldable pub invoke : A → PoolWithFuncGeneric H L F A → Retrieved × PoolWithFuncGeneric H L F A
  invoke argument p = let (end, p') = try_invoke argument p in (answer end, p')

  abbrev pub running : PoolWithFuncGeneric H L F A → ℤ
  running p = p.core.running

  abbrev pub free : PoolWithFuncGeneric H L F A → ℤ
  free p = Core.free p.core

  abbrev pub waiting : PoolWithFuncGeneric H L F A → ℤ
  waiting p = p.core.waiting

  abbrev pub cap : PoolWithFuncGeneric H L F A → ℤ
  cap p = Core.cap p.core

  abbrev pub tune : ℤ → PoolWithFuncGeneric H L F A → PoolWithFuncGeneric H L F A
  tune size p = record p { core = Lifecycle.tune size p.core }

  abbrev pub is_closed : PoolWithFuncGeneric H L F A → Bool
  is_closed p = Core.is_closed p.core

  abbrev pub release : PoolWithFuncGeneric H L F A → PoolWithFuncGeneric H L F A
  release p = record p { core = Lifecycle.release boxed_queue p.core }

  -- Up to the waiting loop.
  abbrev pub release_context :
      PoolWithFuncGeneric H L F A → Result (Unit {0}) × PoolWithFuncGeneric H L F A
  release_context p =
      let (r, core) = Lifecycle.release_context boxed_queue p.core in (r, record p { core = core })

  abbrev pub release_timeout :
      PoolWithFuncGeneric H L F A → Result (Unit {0}) × PoolWithFuncGeneric H L F A
  release_timeout p = let (r, p') = release_context p in (Lifecycle.map_timeout r, p')

  -- `none` where it would wait.
  abbrev pub reboot : ℤ → PoolWithFuncGeneric H L F A → Option (PoolWithFuncGeneric H L F A)
  reboot now p = elim (Lifecycle.reboot now p.core) [
    | none ↦ none
    | some core ↦ some (record p { core = core })
  ]

-- ===== src/PoolFunc.antt =====
-- `PoolWithFunc` of src/pool_func.rs, the pool of one function over arguments of any type: what it makes of its core.
use ants.Base.{ℕ, Bool, Option, none, some, List, if◌then◌else◌}
use ants.Base.Int.{ℤ}
use ants.Error.{pool_closed, Result, ok, err, lack_pool_func, ◌>>=◌}
use ants.Options.{Opt}
use ants.WorkerQueue.{BoxedQueue}
use ants.WorkerQueue.Laws.{boxed_queue}
use ants.PoolCore.{PoolCore}
use ants.PoolCore as Core
use ants.PoolCore.Workers.{
  Retrieved, Submitted, Outcome, stopped, ran, panicked, answer, deliver, refused, retrieve_pass,
}
use ants.PoolCore.Lifecycle as Lifecycle
use ants.PoolCore.Create as Create

-- `type AnyArg`: nil, or a value.
abbrev pub AnyArg : Type 0 → Type 0
AnyArg A = Option A

abbrev pub arg : {A : Type 0} → A → AnyArg A
arg value = some value

-- `type AnyFunc`: nil, or a function.
abbrev pub AnyFunc : Type 0 → Type 0
AnyFunc F = Option F

-- What a worker makes of an argument; `completes` tells whether the function returns on a value or
-- panics.
unfoldable pub run_arg : {F A : Type 0} → (F → A → Bool) → F → AnyArg A → Outcome
run_arg completes pf none = stopped
run_arg completes pf (some value) = if completes pf value then ran else panicked

pub record PoolWithFunc (H L F A : Type 0) : Type 0 where
  pub core : PoolCore (BoxedQueue ℕ) H L (AnyArg A)
  pub pf : F

module _ {H L F A : Type 0} where
  abbrev pub wrap :
      F → Result (PoolCore (BoxedQueue ℕ) H L (AnyArg A)) → Result (PoolWithFunc H L F A)
  wrap pf made = made >>= λ core. ok (record { core = core; pf = pf })

  -- `none` is a panic of `PoolCore::new`.
  unfoldable pub new :
      L → ℤ → ℤ → AnyFunc F → List (Opt H L) → Option (Result (PoolWithFunc H L F A))
  new default_logger now size none options = some (err lack_pool_func)
  new default_logger now size (some pf) options =
      elim (Create.new default_logger now size options) [
        | none ↦ none
        | some made ↦ some (wrap pf made)
      ]

  -- A call that may wait is taken up to its wait.
  unfoldable pub try_invoke :
      AnyArg A → PoolWithFunc H L F A → Submitted (AnyArg A) × PoolWithFunc H L F A
  try_invoke argument p =
      if Core.is_closed p.core
      then (refused pool_closed argument, p)
      else let (end, core) = deliver boxed_queue argument (retrieve_pass boxed_queue p.core) in
        (end, record p { core = core })

  unfoldable pub invoke : AnyArg A → PoolWithFunc H L F A → Retrieved × PoolWithFunc H L F A
  invoke argument p = let (end, p') = try_invoke argument p in (answer end, p')

  abbrev pub running : PoolWithFunc H L F A → ℤ
  running p = p.core.running

  abbrev pub free : PoolWithFunc H L F A → ℤ
  free p = Core.free p.core

  abbrev pub waiting : PoolWithFunc H L F A → ℤ
  waiting p = p.core.waiting

  abbrev pub cap : PoolWithFunc H L F A → ℤ
  cap p = Core.cap p.core

  abbrev pub tune : ℤ → PoolWithFunc H L F A → PoolWithFunc H L F A
  tune size p = record p { core = Lifecycle.tune size p.core }

  abbrev pub is_closed : PoolWithFunc H L F A → Bool
  is_closed p = Core.is_closed p.core

  abbrev pub release : PoolWithFunc H L F A → PoolWithFunc H L F A
  release p = record p { core = Lifecycle.release boxed_queue p.core }

  -- Up to the waiting loop.
  abbrev pub release_context : PoolWithFunc H L F A → Result (Unit {0}) × PoolWithFunc H L F A
  release_context p =
      let (r, core) = Lifecycle.release_context boxed_queue p.core in (r, record p { core = core })

  abbrev pub release_timeout : PoolWithFunc H L F A → Result (Unit {0}) × PoolWithFunc H L F A
  release_timeout p = let (r, p') = release_context p in (Lifecycle.map_timeout r, p')

  -- `none` where it would wait.
  abbrev pub reboot : ℤ → PoolWithFunc H L F A → Option (PoolWithFunc H L F A)
  reboot now p = elim (Lifecycle.reboot now p.core) [
    | none ↦ none
    | some core ↦ some (record p { core = core })
  ]

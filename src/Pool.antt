-- ===== src/Pool.antt =====
-- `Pool` of src/pool.rs, the pool of tasks: what it makes of its core.
use ants.Base.{◌≡◌, refl, ℕ, Bool, Option, none, some, List, if◌then◌else◌}
use ants.Base.Int.{ℤ}
use ants.Error.{pool_closed, Result, ok, ◌>>=◌}
use ants.Options.{Opt}
use ants.WorkerQueue.{BoxedQueue}
use ants.WorkerQueue.Laws.{boxed_queue}
use ants.PoolCore.{PoolCore}
use ants.PoolCore as Core
use ants.PoolCore.Workers.{
  Retrieved, Submitted, Outcome, stopped, ran, panicked, answer, deliver, refused, retrieve_pass,
}
use ants.PoolCore.Lifecycle as Lifecycle
use ants.PoolCore.Create as Create

-- `type Task`: the nil function, or a function body.
abbrev pub Task : Type 0 → Type 0
Task B = Option B

abbrev pub task : {B : Type 0} → B → Task B
task body = some body

-- What a worker makes of a task; `completes` tells of a body whether it returns or panics.
unfoldable pub run_task : {B : Type 0} → (B → Bool) → Task B → Outcome
run_task completes none = stopped
run_task completes (some body) = if completes body then ran else panicked

pub record Pool (H L B : Type 0) : Type 0 where
  pub core : PoolCore (BoxedQueue ℕ) H L (Task B)

module _ {H L B : Type 0} where
  abbrev pub wrap : Result (PoolCore (BoxedQueue ℕ) H L (Task B)) → Result (Pool H L B)
  wrap made = made >>= λ core. ok (record { core = core })

  -- `none` is a panic of `PoolCore::new`.
  unfoldable pub new : L → ℤ → ℤ → List (Opt H L) → Option (Result (Pool H L B))
  new default_logger now size options = elim (Create.new default_logger now size options) [
    | none ↦ none
    | some made ↦ some (wrap made)
  ]

  pub new-made :
      (default_logger : L) (now size : ℤ) (options : List (Opt H L))
      (core : PoolCore (BoxedQueue ℕ) H L (Task B))
      → Create.new default_logger now size options ≡ some (ok core)
      → new default_logger now size options ≡ some (ok (record { core = core }))
  unfolding new
  new-made default_logger now size options core made = rw (made, new) refl

  -- A call that may wait is taken up to its wait.
  unfoldable pub try_submit : Task B → Pool H L B → Submitted (Task B) × Pool H L B
  try_submit job p =
      if Core.is_closed p.core
      then (refused pool_closed job, p)
      else let (end, core) = deliver boxed_queue job (retrieve_pass boxed_queue p.core) in
        (end, record { core = core })

  unfoldable pub submit : Task B → Pool H L B → Retrieved × Pool H L B
  submit job p = let (end, p') = try_submit job p in (answer end, p')

  abbrev pub running : Pool H L B → ℤ
  running p = p.core.running

  abbrev pub free : Pool H L B → ℤ
  free p = Core.free p.core

  abbrev pub waiting : Pool H L B → ℤ
  waiting p = p.core.waiting

  abbrev pub cap : Pool H L B → ℤ
  cap p = Core.cap p.core

  abbrev pub tune : ℤ → Pool H L B → Pool H L B
  tune size p = record { core = Lifecycle.tune size p.core }

  abbrev pub is_closed : Pool H L B → Bool
  is_closed p = Core.is_closed p.core

  abbrev pub release : Pool H L B → Pool H L B
  release p = record { core = Lifecycle.release boxed_queue p.core }

  -- Up to the waiting loop.
  abbrev pub release_context : Pool H L B → Result (Unit {0}) × Pool H L B
  release_context p =
      let (r, core) = Lifecycle.release_context boxed_queue p.core in (r, record { core = core })

  abbrev pub release_timeout : Pool H L B → Result (Unit {0}) × Pool H L B
  release_timeout p = let (r, p') = release_context p in (Lifecycle.map_timeout r, p')

  -- `none` where it would wait.
  abbrev pub reboot : ℤ → Pool H L B → Option (Pool H L B)
  reboot now p = elim (Lifecycle.reboot now p.core) [
    | none ↦ none
    | some core ↦ some (record { core = core })
  ]

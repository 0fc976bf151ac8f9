-- ===== src/DefaultPool.antt =====
-- The default pool of src/lib.rs, made where it is first used. The state is the cell that holds it.
use ants.Base.{Bool, true, false, ap, ℕ, ◌-◌, ◌≡◌, Option, none, some, [], ◌==◌, if◌then◌else◌}
use ants.Base.Int.{ℤ, pos}
use ants.Base.Word.{i32_half}
use ants.Error.{Result, ok, err}
use ants.Duration.{second}
use ants.Options.{Options, default_options, load_options}
use ants.WorkerQueue.{BoxedQueue}
use ants.PoolCore.{PoolCore}
use ants.PoolCore.Workers.{Retrieved}
use ants.PoolCore.Create as Create
use ants.PoolCore.Create.{check_expiry, with_default_logger}
use ants.PoolCore.Created.{build-Started}
use ants.Pool as Pool
use ants.Pool.{Task}

-- `worker_chan_cap`, where the machine tells how many threads it runs in parallel, or does not.
unfoldable pub worker_chan_cap : Option ℕ → ℕ
worker_chan_cap available = if parallelism available == 1 then 0 else 1
  where
    parallelism : Option ℕ → ℕ
    parallelism none = 1
    parallelism (some n) = n

abbrev pub default_ants_pool_size : ℤ
default_ants_pool_size = pos (i32_half - 1)

abbrev pub Cell : Type 0 → Type 0 → Type 0 → Type 0
Cell H L B = Option (Pool.Pool H L B)

module _ {H L B : Type 0} (default_logger : L) (now : ℤ) where
  -- `expect`, where `none` is a panic.
  abbrev pub expect : Option (Result (Pool.Pool H L B)) → Option (Pool.Pool H L B)
  expect none = none
  expect (some (ok p)) = some p
  expect (some (err e)) = none

  -- `get_or_init`.
  unfoldable pub default_ants_pool : Cell H L B → Option (Pool.Pool H L B)
  default_ants_pool (some p) = some p
  default_ants_pool none = expect (Pool.new default_logger now default_ants_pool_size [])

  -- A function of the default pool, which may change it.
  abbrev pub on_default :
      {R : Type 0} → (Pool.Pool H L B → R × Pool.Pool H L B) → Cell H L B → Option (R × Cell H L B)
  on_default f cell = elim (default_ants_pool cell) [
    | none ↦ none
    | some p ↦ some ((f p).0, some (f p).1)
  ]

  abbrev pub submit : Task B → Cell H L B → Option (Retrieved × Cell H L B)
  submit job cell = on_default (Pool.submit job) cell

  abbrev pub running : Cell H L B → Option (ℤ × Cell H L B)
  running cell = on_default (λ p. (Pool.running p, p)) cell

  abbrev pub cap : Cell H L B → Option (ℤ × Cell H L B)
  cap cell = on_default (λ p. (Pool.cap p, p)) cell

  abbrev pub free : Cell H L B → Option (ℤ × Cell H L B)
  free cell = on_default (λ p. (Pool.free p, p)) cell

  abbrev pub release : Cell H L B → Option (Unit {0} × Cell H L B)
  release cell = on_default (λ p. (tt, Pool.release p)) cell

  abbrev pub release_timeout : Cell H L B → Option (Result (Unit {0}) × Cell H L B)
  release_timeout cell = on_default Pool.release_timeout cell

  abbrev pub release_context : Cell H L B → Option (Result (Unit {0}) × Cell H L B)
  release_context cell = on_default Pool.release_context cell

  -- Whether it ends, or waits.
  abbrev pub reboot : Cell H L B → Option (Bool × Cell H L B)
  reboot cell = elim (default_ants_pool cell) [
    | none ↦ none
    | some p ↦ elim (Pool.reboot now p) [
      | none ↦ some (false, some p)
      | some p' ↦ some (true, some p')
    ]
  ]

  default-made :
      (core : PoolCore (BoxedQueue ℕ) H L (Task B)) × (Create.new default_logger now
          default_ants_pool_size []
        ≡ some (ok core))
      × (core.capacity ≡ default_ants_pool_size)
  unfolding Create.new check_expiry load_options
  default-made =
      let opts : Options H L = record default_options { expiry_duration = second } in
      let (q, core, eq, st, _, _) =
        build-Started {T = Task B} now (i32_half - 2) (with_default_logger default_logger opts) in
      (core, eq, st.sized)

  -- Where its background threads can be made, making the default pool does not panic, and it has the
  -- default capacity.
  default_ants_pool-total :
      (p : Pool.Pool H L B) × (default_ants_pool none ≡ some p)
      × (Pool.cap p ≡ default_ants_pool_size)
  unfolding default_ants_pool
  default_ants_pool-total =
      let (core, made, sized) = default-made in
      (
        record { core = core },
        ap expect (Pool.new-made default_logger now default_ants_pool_size [] core made),
        sized,
      )

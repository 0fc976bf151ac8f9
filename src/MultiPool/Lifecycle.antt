-- ===== src/MultiPool/Lifecycle.antt =====
-- A multi-pool is released and rebooted: src/multipool.rs.
use ants.Base.{Bool, true, false, Option, none, some, List, [], ◌∷◌, map, if◌then◌else◌}
use ants.Base.Int.{eqb_ℤ}
use ants.Error.{Result, err, pool_closed}
use ants.PoolCore.{opened, closed}
use ants.MultiPool.{MultiPoolCore, Poolish}
use ants.MultiPool.Text.{release_pools}

module _ {P A : Type 0} (po : Poolish P A) where
  -- `release_context`; `release_all` is what the threads of `release_pools` make of the pools, and
  -- what each returns, `none` where it panicked.
  unfoldable pub release_with :
      (List P → List (Option (Result (Unit {0}))) × List P)
      → MultiPoolCore P
      → Result (Unit {0}) × MultiPoolCore P
  release_with release_all m =
      if eqb_ℤ m.state opened
      then (let (threads, pools) = release_all m.pools in
          (release_pools threads, record m { state = closed; pools = pools }))
      else (err pool_closed, m)

  -- The threads, where there is no context: none of them waits.
  abbrev pub release_each : List P → List (Option (Result (Unit {0}))) × List P
  release_each ps =
      (map (λ p. some (po.release_context p).0) ps, map (λ p. (po.release_context p).1) ps)

  abbrev pub release_context : MultiPoolCore P → Result (Unit {0}) × MultiPoolCore P
  release_context m = release_with release_each m

  -- `release_timeout`: the threads wait with the context that it makes, and cancels afterwards.
  abbrev pub release_timeout :
      (List P → List (Option (Result (Unit {0}))) × List P)
      → MultiPoolCore P
      → Result (Unit {0}) × MultiPoolCore P
  release_timeout release_all m = release_with release_all m

  -- The loop of `reboot`, up to its end or to the wait of a pool: `false`.
  unfoldable pub reboot_pools : List P → Bool × List P
  reboot_pools [] = (true, [])
  reboot_pools (p ∷ ps) = elim (po.reboot p) [
    | none ↦ (false, p ∷ ps)
    | some p' ↦ let (ends, ps') = reboot_pools ps in (ends, p' ∷ ps')
  ]

  unfoldable pub reboot : MultiPoolCore P → Bool × MultiPoolCore P
  reboot m =
      if eqb_ℤ m.state closed
      then (let (ends, pools) = reboot_pools m.pools in
          (ends, record m { state = opened; index = 0; pools = pools }))
      else (true, m)

-- ===== src/MultiPool/Shut.antt =====
-- A multi-pool after its release, and after its reboot: src/multipool.rs.
use ants.Base.{
  ◌%◌, ◌<◌, ◌≡◌, refl, ap, ◌∙◌, inl, inr, Option, some, List, [], ◌∷◌, arith, length, Option-cases,
}
use ants.Base.Int.{pos}
use ants.Base.Word.{i32_half}
use ants.Error.{Result, err, pool_closed}
use ants.PoolCore.{opened, closed}
use ants.PoolCore.Workers.{failed}
use ants.MultiPool.{MultiPoolCore, Poolish, round_robin, next, dispatch}
use ants.MultiPool.Text.{release_pools}
use ants.MultiPool.Lifecycle.{release_with, reboot, reboot_pools}
use ants.MultiPool.Rotation.{next-ticket}

module _ {P A : Type 0} (po : Poolish P A) where
  -- The release of an open multi-pool, whatever its pools answer, reports what `release_pools`
  -- makes of the answers and leaves the multi-pool closed; a second release then gives the error
  -- of a closed pool and changes nothing, and an argument is refused with that error.
  pub release_with-closes :
      (release_all release_again : List P → List (Option (Result (Unit {0}))) × List P)
      (m : MultiPoolCore P) (a : A)
      → m.state ≡ opened
      → let m' = (release_with po release_all m).1 in
        ((release_with po release_all m).0 ≡ release_pools (release_all m.pools).0)
        × (m'.state ≡ closed)
        × (release_with po release_again m' ≡ (err pool_closed, m'))
        × (dispatch po a m' ≡ some (failed pool_closed, m'))
  unfolding release_with dispatch
  release_with-closes release_all release_again m a live =
      (rw live refl, rw live refl, rw live refl, rw live refl)

  length-reboot_pools : (ps : List P) → length (reboot_pools po ps).1 ≡ length ps
  unfolding reboot_pools
  length-reboot_pools [] = refl
  length-reboot_pools (p ∷ ps) = elim (Option-cases (po.reboot p)) [
    | inl stuck ↦ rw (stuck, reboot_pools) refl
    | inr (q, done) ↦ rw (done, reboot_pools) (omega (arith, length-reboot_pools ps))
  ]

  -- Round robin on a closed multi-pool of at least one and fewer than 2 ^ 31 pools that is
  -- rebooted begins with pool 1, or with the only pool.
  pub reboot-second :
      (m : MultiPoolCore P)
      → m.state ≡ closed
      → 0 < length m.pools
      → length m.pools < i32_half
      → (next po round_robin (reboot po m).1).0 ≡ pos (1 % length m.pools)
  unfolding reboot
  reboot-second m shut some_pool few =
      let m' : MultiPoolCore P = record m {
        state = opened;
        index = 0;
        pools = (reboot_pools po m.pools).1;
      } in
      let size = length-reboot_pools m.pools in
      rw shut (
        ap (λ r. r.0)
          (next-ticket po m' (omega (arith, size, some_pool)) (omega (arith, size, few)))
        ∙ ap (λ n. pos (1 % n)) size)

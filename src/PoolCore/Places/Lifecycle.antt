-- ===== src/PoolCore/Places/Lifecycle.antt =====
-- Where workers are after a release, a reboot, or a round of the purging thread.
use ants.Base.{ℕ, ◌+◌, ◌≡◌, refl, sym, ap, subst, Bool, some, List, [], ◌++◌, arith}
use ants.Base.Int.{ℤ}
use ants.Base.Count.{times, times-append, times-Perm}
use ants.WorkerQueue.{WorkerQueue}
use ants.PoolCore.{PoolCore}
use ants.PoolCore.Lifecycle.{reset_workers}
use ants.PoolCore.Background.{purge_scan}
use ants.PoolCore.Effects.Lifecycle.{reset_workers-Unmoved, Restarted, purge_scan-divides}
use ants.PoolCore.Places.{Placed, moved, Unmoved-Placed}

module _ (wq : WorkerQueue ℕ) {H L T : Type 0} where
  -- The idle workers that are told to finish are outside the queue until they exit.
  pub reset_workers-Placed :
      {p : PoolCore wq.Queue H L T} {out : List ℕ}
      → Placed wq p out
      → Placed wq (reset_workers wq p) ((wq.q_reset p.workers).0 ++ out)
  reset_workers-Placed {p} {out} v =
      let (all, emptied) = wq.reset_law p.workers v.idle v.holds in
      let told = (wq.q_reset p.workers).0 in
      let mid : Placed wq (record p { workers = (wq.q_reset p.workers).1 }) (told ++ out) =
        moved wq [] v emptied (wq.small_reset p.workers v.small) refl
          (λ w. omega (arith, times-append told out w, ap (times w) all)) in
      Unmoved-Placed wq (reset_workers-Unmoved wq p) mid

  pub Restarted-Placed :
      {p p' : PoolCore wq.Queue H L T} {out : List ℕ}
      → Restarted p p'
      → Placed wq p out
      → Placed wq p' out
  Restarted-Placed {p} {p'} {out} r v =
      moved wq v.idle v (subst (λ q. wq.Idle q v.idle) (sym r.workers) v.holds)
        (subst wq.Small (sym r.workers) v.small) r.made
        (λ w. ap (λ k. times w v.idle + times w out + times w k) r.worker_cache)

  pub purge_scan-Placed :
      {p p' : PoolCore wq.Queue H L T} {out gone : List ℕ} {dormant : Bool} (clock : ℤ)
      → Placed wq p out
      → wq.Fits p.workers
      → purge_scan wq clock p ≡ some ((gone, dormant), p')
      → Placed wq p' (gone ++ out)
  purge_scan-Placed {p} {p'} {out} {gone} clock v fits ran =
      let (left, q, same, rest, perm, run) =
        purge_scan-divides wq clock p v.idle v.holds fits ran in
      let taken : (w : ℕ)
          → times w left + times w (gone ++ out) + times w p.worker_cache
            ≡ times w v.idle + times w out + times w p.worker_cache =
        λ w. omega (arith, times-append gone out w, times-append gone left w, times-Perm w perm) in
      subst (λ x. Placed wq x (gone ++ out)) (sym same)
        (moved wq left v rest
          (wq.small_refresh p.last_used clock p.workers p.options.expiry_duration (gone, q) v.small
            run)
          refl taken)

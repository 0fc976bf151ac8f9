-- ===== src/PoolCore/Effects/Lifecycle.antt =====
-- What release, reboot and the purging thread do to the fields that the invariants are about.
use ants.Base.{
  arith, sym, subst, ◌∙◌, ℕ, ◌≡◌, refl, ◌∙◌, subst, ◌⊎◌, inl, inr, Bool, false, ◌||◌, none, some,
  List, [], ◌++◌, if◌then◌else◌, Bool-cases,
}
use ants.Base.Int.{ℤ, pos, eqb_ℤ, eqb_ℤ→eq}
use mathlib.Core.List.{Perm}
use ants.Cond.{broadcast}
use ants.Context.{close}
use ants.WorkerQueue.{WorkerQueue}
use ants.PoolCore.{PoolCore, is_closed}
use ants.PoolCore.Lifecycle.{
  reset_workers, finish_close, reopen, restart_purge, restart_clock, renew_latch, go_purge,
  go_ticktock,
}
use ants.PoolCore.Background.{purge_scan, is_dormant}
use ants.PoolCore.Effects.{Unmoved, send_finish-Unmoved}

module _ {Q H L T : Type 0} where
  -- A part of the end of a reboot: the state of the pool, its latch and its background threads
  -- aside, nothing changes.
  pub record Restarted (p p' : PoolCore Q H L T) : Type 0 where
    pub workers : p'.workers ≡ p.workers
    pub worker_cache : p'.worker_cache ≡ p.worker_cache
    pub made : p'.made ≡ p.made
    pub running : p'.running ≡ p.running
    pub waiting : p'.waiting ≡ p.waiting
    pub cond : p'.cond ≡ p.cond
    pub capacity : p'.capacity ≡ p.capacity

  same-Restarted : (p : PoolCore Q H L T) → Restarted p p
  same-Restarted p = record {
    workers = refl;
    worker_cache = refl;
    made = refl;
    running = refl;
    waiting = refl;
    cond = refl;
    capacity = refl;
  }

  pub reopen-Restarted : (p : PoolCore Q H L T) → Restarted p (reopen p)
  reopen-Restarted p =
      let r = same-Restarted p in
      record {
        workers = r.workers;
        worker_cache = r.worker_cache;
        made = r.made;
        running = r.running;
        waiting = r.waiting;
        cond = r.cond;
        capacity = r.capacity;
      }

  pub renew_latch-Restarted : (p : PoolCore Q H L T) → Restarted p (renew_latch p)
  renew_latch-Restarted p =
      let r = same-Restarted p in
      record {
        workers = r.workers;
        worker_cache = r.worker_cache;
        made = r.made;
        running = r.running;
        waiting = r.waiting;
        cond = r.cond;
        capacity = r.capacity;
      }

  pub restart_clock-Restarted :
      (now : ℤ) (p : PoolCore Q H L T)
      → Restarted p (restart_clock now p)
        × ((restart_clock now p).state ≡ p.state)
        × ((restart_clock now p).all_done ≡ p.all_done)
  unfolding go_ticktock
  restart_clock-Restarted now p = (
    record {
      workers = refl;
      worker_cache = refl;
      made = refl;
      running = refl;
      waiting = refl;
      cond = refl;
      capacity = refl;
    },
    refl,
    refl,
  )

  pub restart_purge-Restarted :
      (p : PoolCore Q H L T)
      → Restarted p (restart_purge p)
        × ((restart_purge p).state ≡ p.state)
        × ((restart_purge p).all_done ≡ p.all_done)
  unfolding go_purge
  restart_purge-Restarted p = (
    record {
      workers = ground arith;
      worker_cache = ground arith;
      made = ground arith;
      running = ground arith;
      waiting = ground arith;
      cond = ground arith;
      capacity = ground arith;
    },
    ground arith,
    ground arith,
  )

module _ (wq : WorkerQueue ℕ) {H L T : Type 0} where
  -- A queue that is emptied is all that the invariants see of it.
  pub reset_workers-Unmoved :
      (p : PoolCore wq.Queue H L T)
      → Unmoved (record p { workers = (wq.q_reset p.workers).1 }) (reset_workers wq p)
  unfolding reset_workers
  reset_workers-Unmoved p =
      (send_finish-Unmoved (wq.q_reset p.workers).0
        (record p { workers = (wq.q_reset p.workers).1 })).0

  -- The end of a release wakes all, and closes the latch where no worker runs.
  pub finish_close-cases :
      (p : PoolCore wq.Queue H L T)
      → ((p.running ≡ pos 0)
          × (finish_close wq p ≡ record p { cond = broadcast p.cond; all_done = close p.all_done }))
        ⊎ ((eqb_ℤ p.running (pos 0) ≡ false)
            × (finish_close wq p ≡ record p { cond = broadcast p.cond }))
  unfolding finish_close
  finish_close-cases p = elim (Bool-cases (eqb_ℤ p.running (pos 0))) [
    | inl quiet ↦ inl (eqb_ℤ→eq p.running (pos 0) quiet, rw quiet refl)
    | inr busy ↦ inr (busy, rw busy refl)
  ]

  -- The workers that a round of the purging thread takes out of the queue.
  unfoldable pub purged : Bool → ℤ → PoolCore wq.Queue H L T → List ℕ
  purged fired clock p =
      if fired || is_closed p
      then []
      else elim (wq.q_refresh p.last_used clock p.workers p.options.expiry_duration) [
        | none ↦ []
        | some r ↦ r.0
      ]

  -- Where the queue fits the search, a round of the purging thread does not panic under the lock,
  -- and divides the idle workers.
  pub purge_scan-total :
      (clock : ℤ) (p : PoolCore wq.Queue H L T) (idle : List ℕ)
      → wq.Idle p.workers idle
      → wq.Fits p.workers
      → (gone left : List ℕ) × (q : wq.Queue) × (purge_scan wq clock p
          ≡ some ((gone, is_dormant p gone), record p { workers = q }))
        × wq.Idle q left
        × Perm (gone ++ left) idle
        × (wq.q_refresh p.last_used clock p.workers p.options.expiry_duration ≡ some (gone, q))
  unfolding purge_scan
  purge_scan-total clock p idle holds fits =
      let (gone, left, q, eq, rest, perm) =
        wq.refresh_law p.last_used clock p.workers idle p.options.expiry_duration holds fits in
      (gone, left, q, rw (eq, purge_scan) refl, rest, perm, eq)

  -- The queue is all that it changes.
  pub purge_scan-divides :
      {p' : PoolCore wq.Queue H L T} {gone : List ℕ} {dormant : Bool} (clock : ℤ)
      (p : PoolCore wq.Queue H L T) (idle : List ℕ)
      → wq.Idle p.workers idle
      → wq.Fits p.workers
      → purge_scan wq clock p ≡ some ((gone, dormant), p')
      → (left : List ℕ) × (q : wq.Queue) × (p' ≡ record p { workers = q })
        × wq.Idle q left
        × Perm (gone ++ left) idle
        × (wq.q_refresh p.last_used clock p.workers p.options.expiry_duration ≡ some (gone, q))
  purge_scan-divides {p'} {gone} {dormant} clock p idle holds fits ran =
      let (g, left, q, eq, rest, perm, run) = purge_scan-total clock p idle holds fits in
      let both : some ((g, is_dormant p g), record p { workers = q }) ≡ some ((gone, dormant), p') =
        sym eq ∙ ran in
      let same : g ≡ gone = cc (both) in
      let pools : p' ≡ record p { workers = q } = cc (both) in
      (
        left,
        q,
        pools,
        rest,
        subst (λ x. Perm (x ++ left) idle) same perm,
        subst
            (λ x. wq.q_refresh p.last_used clock p.workers p.options.expiry_duration ≡ some (x, q))
            same run,
      )

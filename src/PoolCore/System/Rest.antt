-- ===== src/PoolCore/System/Rest.antt =====
-- How a release, a reboot and a round of the purging thread, src/pool_common.rs, keep what holds
-- of a pool among its threads.
use ants.Base.{
  sym, ℕ, suc, ◌+◌, ◌≡◌, refl, ap, ◌∙◌, subst, Bool, some, List, ◌++◌, arith, length, length-append,
  inl, inr,
}
use ants.Base.Int.{ℤ, pos, ltb_ℤ}
use ants.WorkerQueue.{WorkerQueue}
use ants.PoolCore.{PoolCore}
use ants.PoolCore.Lifecycle.{begin_close, reset_workers, finish_close}
use ants.PoolCore.Background.{purge_scan}
use ants.PoolCore.Effects.Lifecycle.{
  reset_workers-Unmoved, finish_close-cases, Restarted, purge_scan-divides,
}
use ants.PoolCore.Counted.{Counted, same-Counted}
use ants.PoolCore.Counted.Lifecycle.{reset_workers-Counted, Restarted-Counted, purge_scan-Counted}
use mathlib.Core.List.{append_assoc}
use ants.PoolCore.Places.{Placed, moved}
use ants.PoolCore.Places.Lifecycle.{reset_workers-Placed, Restarted-Placed, purge_scan-Placed}
use ants.PoolCore.Blocked.{Woken-Blocked, Restarted-Blocked}
use ants.PoolCore.Latch.{same-Latch, begin_close-Latch, finish_close-Latch, Latch}
use ants.PoolCore.System.{Held}
use ants.PoolCore.System.Core.{Core}

module _ (wq : WorkerQueue ℕ) (bound : ℕ) {H L T : Type 0} where
  -- The queue stays small enough for its search.
  pub queue-Fits :
      {p : PoolCore wq.Queue H L T} {h : Held T} {out gone : List ℕ} {asleep awake pending : ℕ}
      → Core wq bound p h out gone asleep awake pending
      → wq.Fits p.workers
  queue-Fits {p} v =
      let c = v.counted in
      wq.small_fits p.workers c.idle c.holds v.placed.small (omega (arith, c.limit, c.small))

  more_out :
      {p : PoolCore wq.Queue H L T} (gone out : List ℕ)
      → Counted wq bound p (length out + length gone)
      → Counted wq bound p (length (gone ++ out))
  more_out {p} gone out c = subst (Counted wq bound p) (omega (arith, length-append gone out)) c

  pub close-Core :
      {p : PoolCore wq.Queue H L T} {h : Held T} {out gone : List ℕ} {asleep awake pending : ℕ}
      → Core wq bound p h out gone asleep awake pending
      → Core wq bound (begin_close wq p) h out gone asleep awake (suc pending)
  unfolding begin_close
  close-Core {p} v = record {
    counted = same-Counted wq bound refl refl refl v.counted;
    read = v.read;
    room = v.room;
    placed = moved wq v.placed.idle v.placed v.placed.holds v.placed.small refl (λ x. refl);
    blocked = Woken-Blocked refl (inl refl) v.blocked;
    latch = begin_close-Latch wq p;
  }

  pub reset-Core :
      {p : PoolCore wq.Queue H L T} {h : Held T} {out gone : List ℕ} {asleep awake pending : ℕ}
      → Core wq bound p h out gone asleep awake pending
      → Core wq bound
          (reset_workers wq p)
          h
          ((wq.q_reset p.workers).0 ++ out)
          gone
          asleep
          awake
          pending
  reset-Core {p} {out = out} {gone = gone} v =
      let u = reset_workers-Unmoved wq p in
      let b = v.blocked in
      record {
        counted = more_out (wq.q_reset p.workers).0 out (reset_workers-Counted wq bound v.counted);
        read = v.read;
        room = λ t eq. ap (λ r. ltb_ℤ r (pos bound)) u.running ∙ v.room t eq;
        placed =
            subst (Placed wq _) (sym (append_assoc (wq.q_reset p.workers).0 out gone))
              (reset_workers-Placed wq v.placed);
        blocked = Woken-Blocked u.waiting u.cond b;
        latch = same-Latch u.state u.running u.all_done v.latch;
      }

  pub latch-Core :
      {p : PoolCore wq.Queue H L T} {h : Held T} {out gone : List ℕ} {asleep awake pending : ℕ}
      → Core wq bound p h out gone asleep awake (suc pending)
      → Core wq bound (finish_close wq p) h out gone asleep awake pending
  latch-Core {p} {h} {out} {asleep} {awake} v =
      let kept = v.placed in
      elim (finish_close-cases wq p) [
        | inl (quiet, eq) ↦ record {
          counted = rw eq (same-Counted wq bound refl refl refl v.counted);
          read = v.read;
          room = λ t e. ap (λ x. ltb_ℤ x.running (pos bound)) eq ∙ v.room t e;
          placed = rw eq (moved wq kept.idle kept kept.holds kept.small refl (λ x. refl));
          blocked = rw eq (Woken-Blocked refl (inr (inr refl)) v.blocked);
          latch = finish_close-Latch wq v.latch;
        }
        | inr (busy, eq) ↦ record {
          counted = rw eq (same-Counted wq bound refl refl refl v.counted);
          read = v.read;
          room = λ t e. ap (λ x. ltb_ℤ x.running (pos bound)) eq ∙ v.room t e;
          placed = rw eq (moved wq kept.idle kept kept.holds kept.small refl (λ x. refl));
          blocked = rw eq (Woken-Blocked refl (inr (inr refl)) v.blocked);
          latch = finish_close-Latch wq v.latch;
        }
      ]

  -- A part of the end of a reboot.
  pub Restarted-Core :
      {p p' : PoolCore wq.Queue H L T} {h : Held T} {out gone : List ℕ}
      {asleep awake pending pending' : ℕ}
      → Restarted p p'
      → Latch p' pending'
      → Core wq bound p h out gone asleep awake pending
      → Core wq bound p' h out gone asleep awake pending'
  Restarted-Core r latch v = record {
    counted = Restarted-Counted wq bound r v.counted;
    read = v.read;
    room = λ t eq. ap (λ x. ltb_ℤ x (pos bound)) r.running ∙ v.room t eq;
    placed = Restarted-Placed wq r v.placed;
    blocked = Restarted-Blocked r v.blocked;
    latch = latch;
  }

  pub scan-Core :
      {p p' : PoolCore wq.Queue H L T} {h : Held T} {out gone taken : List ℕ} {dormant : Bool}
      {asleep awake pending : ℕ} (clock : ℤ)
      → purge_scan wq clock p ≡ some ((taken, dormant), p')
      → Core wq bound p h out gone asleep awake pending
      → Core wq bound p' h (taken ++ out) gone asleep awake pending
  scan-Core {p} {p'} {out = out} {gone = gone} {taken = taken} clock ran v =
      let fits = queue-Fits v in
      let c = v.counted in
      let (left, q, same, rest, perm, run) =
        purge_scan-divides wq clock p c.idle c.holds fits ran in
      record {
        counted = more_out taken out (purge_scan-Counted wq bound clock c fits ran);
        read = v.read;
        room = λ t e. ap (λ x. ltb_ℤ x.running (pos bound)) same ∙ v.room t e;
        placed =
            subst (Placed wq p') (sym (append_assoc taken out gone))
              (purge_scan-Placed wq clock v.placed fits ran);
        blocked = Woken-Blocked (ap (λ x. x.waiting) same) (inl (ap (λ x. x.cond) same)) v.blocked;
        latch =
            same-Latch (ap (λ x. x.state) same) (ap (λ x. x.running) same)
              (ap (λ x. x.all_done) same) v.latch;
      }

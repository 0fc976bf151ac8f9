-- ===== src/PoolCore/System/Workers.antt =====
-- How the steps of the workers, src/worker.rs and `revert_worker` of src/pool_common.rs, keep what
-- holds of a pool among its threads.
use ants.Base.{
  inl, ◌+◌, refl, true, false, Bool, inl, inr, ℕ, suc, ◌≡◌, refl, sym, ap, ◌∙◌, subst, true, false,
  List, ◌∷◌, ◌++◌, map, arith, if◌then◌else◌, length, length-append, Bool,
}
use mathlib.Core.List.{map-append, append_assoc}
use ants.Base.Int.{negsuc, eqb_ℤ, lt→ltb_pos, pos, ltb_ℤ}
use ants.WorkerQueue.{WorkerQueue}
use ants.Base.Count.{times-append, times-middle}
use ants.Context.{close}
use ants.PoolCore.{PoolCore, is_closed, add_running, recycle}
use ants.PoolCore.Workers.{revert_begin, revert_locked}
use ants.PoolCore.Effects.{Unmoved, revert_begin-Unmoved, revert_locked-cases}
use ants.PoolCore.Counted.{same-Counted, Counted, running_below}
use ants.PoolCore.Counted.Return.{
  uncount-running, uncount-Counted, revert_begin-Counted, revert_locked-Counted,
}
use ants.PoolCore.Places.{
  Unmoved-Placed, revert_locked-Placed, Placed, same-Placed, relisted-Placed, recycle-Placed,
}
use ants.PoolCore.Blocked.{Unmoved-Blocked, revert_locked-Blocked, Woken-Blocked}
use ants.PoolCore.Latch.{
  Unmoved-Latch, revert_locked-Latch, uncount-Latch, look-Latch, shut-Latch, same-Latch,
}
use ants.PoolCore.System.{Held, Stage}
use ants.PoolCore.System.Core.{Core}

-- The workers outside the queue, whatever they do there.
abbrev pub workers_of : {T : Type 0} → List (ℕ × Stage T) → List ℕ
workers_of out = map (λ r. r.0) out

-- A worker that goes on is still in the same list.
pub restaged :
    {A : Type 0} (before after : List (ℕ × A)) (w : ℕ) (a b : A)
    → map (λ r. r.0) (before ++ ((w, a) ∷ after)) ≡ map (λ r. r.0) (before ++ ((w, b) ∷ after))
restaged before after w a b =
    map-append (λ r. r.0) before ((w, a) ∷ after)
    ∙ sym (map-append (λ r. r.0) before ((w, b) ∷ after))

length-kept :
    (before after : List ℕ) (w : ℕ) (kept : Bool)
    → (if kept then length (before ++ after) else suc (length (before ++ after)))
      ≡ length (if kept then before ++ after else before ++ (w ∷ after))
length-kept before after w true = refl
length-kept before after w false =
    omega (arith, length-append before after, length-append before (w ∷ after))

kept-gone :
    (before after gone : List ℕ) (w : ℕ) (kept : Bool)
    → (if kept then before ++ (after ++ gone) else before ++ (w ∷ (after ++ gone)))
      ≡ (if kept then before ++ after else before ++ (w ∷ after)) ++ gone
kept-gone before after gone w true = sym (append_assoc before after gone)
kept-gone before after gone w false = sym (append_assoc before (w ∷ after) gone)

module _ (wq : WorkerQueue ℕ) (bound : ℕ) {H L T : Type 0} where
  -- A step that moves no worker and no submitter.
  pub quiet-Core :
      {p p' : PoolCore wq.Queue H L T} {h : Held T} {out gone : List ℕ} {asleep awake pending : ℕ}
      → Unmoved p p'
      → Counted wq bound p' (length out)
      → Core wq bound p h out gone asleep awake pending
      → Core wq bound p' h out gone asleep awake pending
  quiet-Core u counted v = record {
    counted = counted;
    read = v.read;
    room = λ t eq. ap (λ r. ltb_ℤ r (pos bound)) u.running ∙ v.room t eq;
    placed = Unmoved-Placed wq u v.placed;
    blocked = Unmoved-Blocked u v.blocked;
    latch = Unmoved-Latch u v.latch;
  }

  pub begin-Core :
      {p : PoolCore wq.Queue H L T} {h : Held T} {out gone : List ℕ} {asleep awake pending : ℕ}
      (w : ℕ)
      → Core wq bound p h out gone asleep awake pending
      → Core wq bound (revert_begin wq w p).1 h out gone asleep awake pending
  begin-Core {p} w v =
      quiet-Core (revert_begin-Unmoved wq w p) (revert_begin-Counted wq bound w v.counted) v

  one_out :
      {p : PoolCore wq.Queue H L T} (before after : List ℕ) (w : ℕ)
      → Counted wq bound p (length (before ++ (w ∷ after)))
      → Counted wq bound p (suc (length (before ++ after)))
  one_out {p} before after w v =
      subst (Counted wq bound p) (sym (length-kept before after w false)) v

  revert_locked-running :
      (w : ℕ) (p : PoolCore wq.Queue H L T) → (revert_locked wq w p).1.running ≡ p.running
  revert_locked-running w p = elim (revert_locked-cases wq w p) [
    | inl (kept, done, eq) ↦ ap (λ x. x.running) eq
    | inr (refused, inl eq) ↦ ap (λ x. x.running) eq
    | inr (refused, inr (e, full, eq)) ↦ ap (λ x. x.running) eq
  ]

  pub return-Core :
      {p : PoolCore wq.Queue H L T} {h : Held T} {gone : List ℕ} {asleep awake pending : ℕ}
      (before after : List ℕ) (w : ℕ)
      → Core wq bound p h (before ++ (w ∷ after)) gone asleep awake pending
      → Core wq bound
          (revert_locked wq w p).1
          h
          (if (revert_locked wq w p).0 then before ++ after else before ++ (w ∷ after))
          gone
          asleep
          awake
          pending
  return-Core {p} {gone = gone} before after w v = record {
    counted =
        subst (Counted wq bound _) (length-kept before after w _)
          (revert_locked-Counted wq bound w (one_out before after w v.counted));
    read = v.read;
    room = λ t eq. ap (λ r. ltb_ℤ r (pos bound)) (revert_locked-running w p) ∙ v.room t eq;
    placed = subst (Placed wq _) (kept-gone before after gone w _) (
        revert_locked-Placed wq before (after ++ gone) w
          (subst (Placed wq p) (append_assoc before (w ∷ after) gone) v.placed));
    blocked = revert_locked-Blocked wq w v.blocked;
    latch = revert_locked-Latch wq w v.latch;
  }

  -- One worker fewer runs, and its thread has still to look at the pool.
  pub uncount-Core :
      {p : PoolCore wq.Queue H L T} {h : Held T} {gone : List ℕ} {asleep awake pending : ℕ}
      (before after : List ℕ) (w : ℕ)
      → Core wq bound p h (before ++ (w ∷ after)) gone asleep awake pending
      → let (count, p') = add_running (negsuc 0) p in
        Core wq bound p' h
          (before ++ after)
          (w ∷ gone)
          asleep
          awake
          (pending + (if eqb_ℤ count (pos 0) then 1 else 0))
  unfolding add_running
  uncount-Core {p} {gone = gone} before after w v =
      let old = one_out before after w v.counted in
      record {
        counted = uncount-Counted wq bound old;
        read = v.read;
        room = λ t eq.
            let below = running_below wq bound old bound (v.room t eq) in
            ap (λ r. ltb_ℤ r (pos bound)) (uncount-running wq bound old)
            ∙ lt→ltb_pos _ bound (omega (arith, below));
        placed = same-Placed wq refl refl refl (
            relisted-Placed wq
              (λ x. omega (
                arith,
                times-append (before ++ after) (w ∷ gone) x,
                times-append (before ++ (w ∷ after)) gone x,
                times-middle before after x w,
              ))
              v.placed);
        blocked = Woken-Blocked refl (inl refl) v.blocked;
        latch = uncount-Latch wq v.latch;
      }

  -- It finds out whether it was the last of a closed pool.
  pub look-Core :
      {p : PoolCore wq.Queue H L T} {h : Held T} {out gone : List ℕ} {asleep awake pending : ℕ}
      (was_last : Bool)
      → (was_last ≡ true → is_closed p ≡ false)
      → Core wq bound p h out gone asleep awake (pending + (if was_last then 1 else 0))
      → Core wq bound p h out gone asleep awake pending
  look-Core was_last live v = record {
    counted = v.counted;
    read = v.read;
    room = v.room;
    placed = v.placed;
    blocked = v.blocked;
    latch = look-Latch wq was_last live v.latch;
  }

  pub shut-Core :
      {p : PoolCore wq.Queue H L T} {h : Held T} {out gone : List ℕ} {asleep awake pending : ℕ}
      → Core wq bound p h out gone asleep awake (suc pending)
      → Core wq bound (record p { all_done = close p.all_done }) h out gone asleep awake pending
  shut-Core v = record {
    counted = same-Counted wq bound refl refl refl v.counted;
    read = v.read;
    room = v.room;
    placed = same-Placed wq refl refl refl v.placed;
    blocked = Woken-Blocked refl (inl refl) v.blocked;
    latch = shut-Latch wq v.latch;
  }

  pub recycle-Core :
      {p : PoolCore wq.Queue H L T} {h : Held T} {out : List ℕ} {asleep awake pending : ℕ}
      (before after : List ℕ) (w : ℕ)
      → Core wq bound p h out (before ++ (w ∷ after)) asleep awake pending
      → Core wq bound (recycle w p) h out (before ++ after) asleep awake pending
  unfolding recycle
  recycle-Core {p} {out = out} before after w v = record {
    counted = same-Counted wq bound refl refl refl v.counted;
    read = v.read;
    room = v.room;
    placed = subst (Placed wq (recycle w p)) (append_assoc out before after) (
        recycle-Placed wq (out ++ before) after w
          (subst (Placed wq p) (sym (append_assoc out before (w ∷ after))) v.placed));
    blocked = Woken-Blocked refl (inl refl) v.blocked;
    latch = same-Latch refl refl refl v.latch;
  }

-- ===== src/PoolCore/Counted/Lifecycle.antt =====
-- The count of running workers under changes of capacity, release, reboot and the background
-- threads.
use ants.Base.{
  ℕ, zero, suc, ◌+◌, ◌≤◌, ◌≡◌, refl, sym, ap, ◌∙◌, subst, ◌≢◌, inl, inr, Bool, true, false, ◌||◌,
  some, List, [], ◌∷◌, arith, Bool-cases, length, length-append, length-Perm,
}
use ants.Base.Int.{ℤ, pos, negsuc, leb_ℤ, ltb_ℤ, eqb_ℤ}
use ants.Base.Word.{sub_i32}
use ants.WorkerQueue.{WorkerQueue}
use ants.PoolCore.{PoolCore, send, finish, is_closed, cap, send_finish}
use ants.PoolCore.Lifecycle.{tune, reset_workers}
use ants.PoolCore.Background.{purge_scan, ticktock_round, purge_round, is_dormant, wake_dormant}
use ants.PoolCore.Counted.{Counted, same-Counted, recount, same_limit}
use ants.PoolCore.Effects.Lifecycle.{Restarted, purged, purge_scan-divides}

module _ (wq : WorkerQueue ℕ) (bound : ℕ) {H L T : Type 0} where
  tuned :
      {p p' : PoolCore wq.Queue H L T} {out : ℕ} (size : ℕ)
      → Counted wq bound p out
      → size ≤ bound
      → size ≢ 0
      → p'.workers ≡ p.workers
      → p'.running ≡ p.running
      → p'.capacity ≡ pos size
      → Counted wq bound p' out
  tuned zero v fits ne w r c = absurd (ne refl)
  tuned (suc n) v fits ne w r c = record {
    idle = v.idle;
    holds = subst (λ q. wq.Idle q v.idle) (sym w) v.holds;
    count = r ∙ v.count;
    limit = v.limit;
    room = n;
    capped = c;
    within = fits;
    small = v.small;
  }

  -- A change of the capacity to a number up to the bound.
  pub tune-Counted :
      {p : PoolCore wq.Queue H L T} {out : ℕ} (size : ℕ)
      → Counted wq bound p out
      → size ≤ bound
      → Counted wq bound (tune (pos size) p) out
  unfolding tune
  tune-Counted {p} size v fits =
      elim (Bool-cases (
        eqb_ℤ (cap p) (negsuc 0)
        || leb_ℤ (pos size) (pos 0)
        || eqb_ℤ (pos size) (cap p)
        || p.options.pre_alloc)) [
          | inl refused ↦ rw refused v
          | inr going ↦ rw going (elim (Bool-cases (ltb_ℤ (cap p) (pos size))) [
            | inr down ↦ rw down (tuned size v fits (ground arith) refl refl refl)
            | inl up ↦ rw up (elim (Bool-cases (eqb_ℤ (sub_i32 (pos size) (cap p)) (pos 1))) [
              | inl one ↦ rw one (tuned size v fits (ground arith) refl refl refl)
              | inr more ↦ rw more (tuned size v fits (ground arith) refl refl refl)
            ])
          ])
        ]

  finished-fields :
      (ws : List ℕ) (p : PoolCore wq.Queue H L T)
      → let p' = send_finish ws p in
        (p'.workers ≡ p.workers) × (p'.running ≡ p.running) × (p'.capacity ≡ p.capacity)
  unfolding send send_finish
  finished-fields [] p = (refl, refl, refl)
  finished-fields (w ∷ ws) p = finished-fields ws (send w finish p)

  -- The idle workers of a queue that is emptied are told to finish; they run until they exit.
  pub reset_workers-Counted :
      {p : PoolCore wq.Queue H L T} {out : ℕ}
      → Counted wq bound p out
      → Counted wq bound (reset_workers wq p) (out + length (wq.q_reset p.workers).0)
  unfolding reset_workers
  reset_workers-Counted {p} {out} v =
      let (all, emptied) = wq.reset_law p.workers v.idle v.holds in
      let (w, r, c) =
        finished-fields (wq.q_reset p.workers).0
          (record p { workers = (wq.q_reset p.workers).1 }) in
      recount wq bound [] v (subst (λ q. wq.Idle q []) (sym w) emptied) c
        (r ∙ v.count ∙ ap pos (omega (arith, ap length all)))
        (omega (arith, ap length all, v.limit))

  -- A part of the end of a reboot.
  pub Restarted-Counted :
      {p p' : PoolCore wq.Queue H L T} {out : ℕ}
      → Restarted p p'
      → Counted wq bound p out
      → Counted wq bound p' out
  Restarted-Counted r v = same-Counted wq bound r.workers r.running r.capacity v

  -- A round of the clock thread.
  pub ticktock_round-Counted :
      {p : PoolCore wq.Queue H L T} {out : ℕ} (fired : Bool) (clock : ℤ)
      → Counted wq bound p out
      → Counted wq bound (ticktock_round fired clock p).1 out
  unfolding ticktock_round
  ticktock_round-Counted {p} fired clock v = elim (Bool-cases (fired || is_closed p)) [
    | inl ends ↦ rw ends (same-Counted wq bound refl refl refl v)
    | inr goes ↦ rw goes (same-Counted wq bound refl refl refl v)
  ]

  woken-fields :
      (p : PoolCore wq.Queue H L T) (d : Bool)
      → let p' = wake_dormant d p in
        (p'.workers ≡ p.workers) × (p'.running ≡ p.running) × (p'.capacity ≡ p.capacity)
  unfolding wake_dormant
  woken-fields p d = (ground arith, ground arith, ground arith)

  -- Where the count is right and the queue fits the search, a round of the thread that purges
  -- does not panic, and the count stays right: the workers that it takes out of the queue run
  -- until they exit.
  pub purge_round-Counted :
      {p : PoolCore wq.Queue H L T} {out : ℕ} (fired : Bool) (clock : ℤ)
      → Counted wq bound p out
      → wq.Fits p.workers
      → (goes_on : Bool) × (p' : PoolCore wq.Queue H L T) × (purge_round wq fired clock p
          ≡ some (goes_on, p'))
        × Counted wq bound p' (out + length (purged wq fired clock p))
  unfolding purge_round purge_scan purged
  purge_round-Counted {p} {out} fired clock v fits = elim (Bool-cases (fired || is_closed p)) [
    | inl ends ↦ (
      false,
      record p { purge_done = pos 1 },
      rw ends refl,
      rw ends (same_limit wq bound (same-Counted wq bound refl refl refl v)),
    )
    | inr goes ↦
        let (gone, left, q, eq, holds, perm) =
          wq.refresh_law p.last_used clock p.workers v.idle p.options.expiry_duration v.holds
            fits in
        let (w, r, c) = finished-fields gone (record p { workers = q }) in
        let (w', r', c') =
          woken-fields (send_finish gone (record p { workers = q })) (is_dormant p gone) in
        let size : length gone + length left ≡ length v.idle =
          sym (length-append gone left) ∙ length-Perm perm in
        (
          true,
          wake_dormant (is_dormant p gone) (send_finish gone (record p { workers = q })),
          rw (goes, eq) refl,
          rw (goes, eq)
              (recount wq bound left v (subst (λ x. wq.Idle x left) (sym (w' ∙ w)) holds) (c' ∙ c)
                (r' ∙ r ∙ v.count ∙ ap pos (omega (arith, size))) (omega (arith, size, v.limit))),
        )
  ]

  -- The workers that a round takes out of the queue run until they exit.
  pub purge_scan-Counted :
      {p p' : PoolCore wq.Queue H L T} {out : ℕ} {gone : List ℕ} {dormant : Bool} (clock : ℤ)
      → Counted wq bound p out
      → wq.Fits p.workers
      → purge_scan wq clock p ≡ some ((gone, dormant), p')
      → Counted wq bound p' (out + length gone)
  purge_scan-Counted {p} {p'} {out} {gone} clock v fits ran =
      let (left, q, same, rest, perm, run) =
        purge_scan-divides wq clock p v.idle v.holds fits ran in
      let size : length gone + length left ≡ length v.idle =
        sym (length-append gone left) ∙ length-Perm perm in
      subst (λ x. Counted wq bound x (out + length gone)) (sym same)
        (recount wq bound left v rest refl (v.count ∙ ap pos (omega (arith, size)))
          (omega (arith, size, v.limit)))

  pub wake_dormant-capacity :
      (d : Bool) (p : PoolCore wq.Queue H L T) → (wake_dormant d p).capacity ≡ p.capacity
  wake_dormant-capacity d p = (woken-fields p d).2

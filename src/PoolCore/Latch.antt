-- ===== src/PoolCore/Latch.antt =====
-- The latch `all_done`, which the waiting half of `release_context` looks at.
use ants.Base.{
  if◌then◌else◌, ◌+◌, Bool, true, false, ℕ, suc, ◌≡◌, refl, sym, ap, ◌∙◌, subst, ◌⊎◌, inl, inr,
  true, arith, Bool-cases,
}
use ants.Base.Int.{pos, negsuc, eqb_ℤ}
use ants.Context.{Event, close}
use ants.WorkerQueue.{WorkerQueue}
use ants.PoolCore.{PoolCore, opened, closed, is_closed, add_running, fetch_cached_worker}
use ants.PoolCore.Workers.{spawn_worker, revert_locked}
use ants.PoolCore.Lifecycle.{begin_close, finish_close, reopen, renew_latch}
use ants.PoolCore.Effects.{Unmoved, revert_locked-cases}
use ants.PoolCore.Effects.Lifecycle.{finish_close-cases}

closes : (e : Event) → (close e).closed ≡ true
unfolding close
closes e = elim (Bool-cases e.closed) [ inl shut ↦ simp shut | inr still ↦ rw still refl ]

module _ {Q H L T : Type 0} where
  -- The pool is open or closed; and where it is closed, no worker runs and no release or last worker
  -- is on its way, the latch is closed.
  pub record Latch (p : PoolCore Q H L T) (pending : ℕ) : Type 0 where
    pub open_or_closed : (p.state ≡ opened) ⊎ (p.state ≡ closed)
    pub latched : p.state ≡ closed → p.running ≡ pos 0 → pending ≡ 0 → p.all_done.closed ≡ true

  pub same-Latch :
      {p p' : PoolCore Q H L T} {pending : ℕ}
      → p'.state ≡ p.state
      → p'.running ≡ p.running
      → p'.all_done ≡ p.all_done
      → Latch p pending
      → Latch p' pending
  same-Latch {p} {p'} s r d v = record {
    open_or_closed = subst (λ x. (x ≡ opened) ⊎ (x ≡ closed)) (sym s) v.open_or_closed;
    latched =
        λ shut quiet over. ap (λ x. x.closed) d ∙ v.latched (sym s ∙ shut) (sym r ∙ quiet) over;
  }

  pub Unmoved-Latch :
      {p p' : PoolCore Q H L T} {pending : ℕ} → Unmoved p p' → Latch p pending → Latch p' pending
  Unmoved-Latch u v = same-Latch u.state u.running u.all_done v

  -- Where a worker runs, the latch may be in either position.
  pub busy-Latch :
      {p p' : PoolCore Q H L T} {pending : ℕ} (n : ℕ)
      → p'.state ≡ p.state
      → p'.running ≡ pos (suc n)
      → Latch p pending
      → Latch p' pending
  busy-Latch {p} {p'} n s r v = record {
    open_or_closed = subst (λ x. (x ≡ opened) ⊎ (x ≡ closed)) (sym s) v.open_or_closed;
    latched = λ shut quiet over. absurd (cc (r, quiet));
  }

  pub reopen-Latch : {pending : ℕ} (p : PoolCore Q H L T) → Latch (reopen p) pending
  reopen-Latch p = record {
    open_or_closed = inl refl;
    latched = λ shut quiet over. absurd (cc shut);
  }

  -- A reboot that puts a new latch into a pool that is closed again has been overtaken.
  pub renew-Latch :
      {p : PoolCore Q H L T} {pending : ℕ}
      → Latch p pending
      → Latch (renew_latch p) (pending + (if is_closed p then 1 else 0))
  renew-Latch {p} {pending} v = record {
    open_or_closed = v.open_or_closed;
    latched = λ shut quiet over.
        let seen = ap {B = ℕ} (λ x. if eqb_ℤ x closed then 1 else 0) shut in
        absurd (omega (arith, over, seen));
  }

module _ (wq : WorkerQueue ℕ) {H L T : Type 0} where
  -- A worker that starts is counted.
  pub spawn-Latch :
      {p : PoolCore wq.Queue H L T} {pending : ℕ} (n : ℕ)
      → (spawn_worker wq p).1.running ≡ pos (suc n)
      → Latch p pending
      → Latch (spawn_worker wq p).1 pending
  unfolding spawn_worker add_running fetch_cached_worker
  spawn-Latch {p} n count v =
      let same : (spawn_worker wq p).1.state ≡ p.state = ground arith in busy-Latch n same count v

  pub revert_locked-Latch :
      {p : PoolCore wq.Queue H L T} {pending : ℕ} (w : ℕ)
      → Latch p pending
      → Latch (revert_locked wq w p).1 pending
  revert_locked-Latch {p} w v = elim (revert_locked-cases wq w p) [
    | inl (kept, done, eq) ↦ rw eq (same-Latch refl refl refl v)
    | inr (refused, inl eq) ↦ rw eq v
    | inr (refused, inr (e, full, eq)) ↦ rw eq (same-Latch refl refl refl v)
  ]

  -- A worker that lowers the count to nothing is counted, until it has looked at the pool.
  pub uncount-Latch :
      {p : PoolCore wq.Queue H L T} {pending : ℕ}
      → Latch p pending
      → Latch
          (add_running (negsuc 0) p).1
          (pending + (if eqb_ℤ (add_running (negsuc 0) p).0 (pos 0) then 1 else 0))
  unfolding add_running
  uncount-Latch {p} {pending} v = record {
    open_or_closed = v.open_or_closed;
    latched = λ shut quiet over. absurd (ground (arith, quiet, over));
  }

  -- The last one of a closed pool closes the latch.
  pub shut-Latch :
      {p : PoolCore wq.Queue H L T} {pending : ℕ}
      → Latch p (suc pending)
      → Latch (record p { all_done = close p.all_done }) pending
  shut-Latch {p} v = record {
    open_or_closed = v.open_or_closed;
    latched = λ shut quiet over. closes p.all_done;
  }

  -- One that was not the last, or finds the pool open, leaves it.
  pub look-Latch :
      {p : PoolCore wq.Queue H L T} {pending : ℕ} (was_last : Bool)
      → (was_last ≡ true → is_closed p ≡ false)
      → Latch p (pending + (if was_last then 1 else 0))
      → Latch p pending
  look-Latch {p} {pending} was_last live v = record {
    open_or_closed = v.open_or_closed;
    latched = λ shut quiet over. elim (Bool-cases was_last) [
      | inl yes_last ↦ absurd (cc (live yes_last, shut))
      | inr no_last ↦
          v.latched shut quiet
            (omega (arith, over, ap {B = ℕ} (λ (b : Bool). if b then 1 else 0) no_last))
    ];
  }

  -- A release that has begun counts until it has looked at the latch.
  pub begin_close-Latch :
      {pending : ℕ} (p : PoolCore wq.Queue H L T) → Latch (begin_close wq p) (suc pending)
  unfolding begin_close
  begin_close-Latch p = record {
    open_or_closed = inr refl;
    latched = λ shut quiet over. absurd (omega (arith, over));
  }

  pub finish_close-Latch :
      {p : PoolCore wq.Queue H L T} {pending : ℕ}
      → Latch p (suc pending)
      → Latch (finish_close wq p) pending
  finish_close-Latch {p} v = elim (finish_close-cases wq p) [
    | inl (quiet, eq) ↦ rw eq (record {
      open_or_closed = v.open_or_closed;
      latched = λ shut still over. closes p.all_done;
    })
    | inr (busy, eq) ↦ rw eq (record {
      open_or_closed = v.open_or_closed;
      latched = λ shut still over. absurd (cc (ap (λ r. eqb_ℤ r (pos 0)) (sym still) ∙ busy));
    })
  ]

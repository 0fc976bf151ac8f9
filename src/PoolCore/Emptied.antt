-- ===== src/PoolCore/Emptied.antt =====
-- The queue of a pool that is closed, and what each operation of src/pool_common.rs leaves in it.
use ants.Base.{
  ℕ, ◌≡◌, refl, sym, ap, ◌∙◌, subst, inl, inr, Bool, some, none, List, [], ◌∷◌, ◌++◌, arith, length,
  length-append, length-Perm,
}
use ants.Base.Int.{ℤ}
use ants.WorkerQueue.{WorkerQueue}
use ants.PoolCore.{PoolCore, opened, closed, add_running, fetch_cached_worker}
use ants.PoolCore.Workers.{look, spawn_worker, revert_locked}
use ants.PoolCore.Lifecycle.{reset_workers, finish_close}
use ants.PoolCore.Background.{purge_scan}
use ants.PoolCore.Effects.{Unmoved, look-found, revert_locked-cases}
use ants.PoolCore.Effects.Lifecycle.{reset_workers-Unmoved, finish_close-cases, purge_scan-divides}

module _ (wq : WorkerQueue ℕ) {H L T : Type 0} where
  -- Where the pool is closed and no release has still to empty the queue, the queue is empty.
  pub record Emptied (p : PoolCore wq.Queue H L T) (closing : ℕ) : Type 0 where
    pub empty : p.state ≡ closed → closing ≡ 0 → wq.Idle p.workers []

  pub same-Emptied :
      {p p' : PoolCore wq.Queue H L T} {closing : ℕ}
      → p'.workers ≡ p.workers
      → p'.state ≡ p.state
      → Emptied p closing
      → Emptied p' closing
  same-Emptied w s v = record {
    empty = λ shut over. subst (λ q. wq.Idle q []) (sym w) (v.empty (sym s ∙ shut) over);
  }

  pub Unmoved-Emptied :
      {p p' : PoolCore wq.Queue H L T} {closing : ℕ}
      → Unmoved p p'
      → Emptied p closing
      → Emptied p' closing
  Unmoved-Emptied u v = same-Emptied u.workers u.state v

  -- A closed pool has no worker to give.
  pub take-Emptied :
      {p p' : PoolCore wq.Queue H L T} {closing w : ℕ}
      → look wq p ≡ (some w, p')
      → Emptied p closing
      → Emptied p' closing
  take-Emptied {p} {w = w} eq v = record {
    empty = λ shut over.
        let (found, same) = look-found wq eq in
        let (before, after, split, rest) =
          wq.detach_some p.workers [] w (v.empty (ap (λ x. x.state) (sym same) ∙ shut) over)
            found in
        absurd (omega (arith, ap length split, length-append before (w ∷ after)));
  }

  pub empty-Emptied :
      {p p' : PoolCore wq.Queue H L T} {closing : ℕ}
      → look wq p ≡ (none, p')
      → Emptied p closing
      → Emptied p' closing
  empty-Emptied {p} eq v = record {
    empty = λ shut over.
        let (found, same) = look-found wq eq in
        let holds = v.empty (ap (λ x. x.state) (sym same) ∙ shut) over in
        let kept = (wq.detach_none p.workers [] holds found).1 in
        subst (λ q. wq.Idle q []) (sym kept ∙ ap (λ x. x.workers) (sym same)) holds;
  }

  pub spawn-Emptied :
      {p : PoolCore wq.Queue H L T} {closing : ℕ}
      → Emptied p closing
      → Emptied (spawn_worker wq p).1 closing
  unfolding spawn_worker add_running fetch_cached_worker
  spawn-Emptied v = same-Emptied (ground arith) (ground arith) v

  -- A worker is put back by an open pool only.
  shut-returned :
      (w : ℕ) (p : PoolCore wq.Queue H L T) → p.state ≡ closed → (revert_locked wq w p).1 ≡ p
  unfolding revert_locked
  shut-returned w p shut = rw (shut, revert_locked) refl

  pub return-Emptied :
      {p : PoolCore wq.Queue H L T} {closing : ℕ} (w : ℕ)
      → Emptied p closing
      → Emptied (revert_locked wq w p).1 closing
  return-Emptied {p} w v = record {
    empty = λ shut over.
        let shut' = sym (returned_state w p) ∙ shut in
        subst (λ x. wq.Idle x.workers []) (sym (shut-returned w p shut')) (v.empty shut' over);
  }
    where
      returned_state :
          (x : ℕ) (q : PoolCore wq.Queue H L T) → (revert_locked wq x q).1.state ≡ q.state
      returned_state x q = elim (revert_locked-cases wq x q) [
        | inl (kept, done, eq) ↦ ap (λ r. r.state) eq
        | inr (refused, inl eq) ↦ ap (λ r. r.state) eq
        | inr (refused, inr (e, full, eq)) ↦ ap (λ r. r.state) eq
      ]

  pub purge-Emptied :
      {p p' : PoolCore wq.Queue H L T} {gone : List ℕ} {dormant : Bool} {closing : ℕ} (clock : ℤ)
      → wq.Fits p.workers
      → (idle : List ℕ) → wq.Idle p.workers idle
      → purge_scan wq clock p ≡ some ((gone, dormant), p')
      → Emptied p closing
      → Emptied p' closing
  purge-Emptied {p} {p'} {gone} clock fits idle holds ran v = record {
    empty = λ shut over.
        let (left, q, same, rest, perm, run) = purge_scan-divides wq clock p idle holds fits ran in
        let none_idle = v.empty (ap (λ x. x.state) (sym same) ∙ shut) over in
        let size : length (gone ++ left) ≡ length idle = length-Perm perm in
        let nothing = no_more left (
          omega (
            arith,
            size,
            length-append gone left,
            wq.len_law p.workers idle holds,
            wq.len_law p.workers [] none_idle,
          )) in
        subst (λ x. wq.Idle x []) (ap (λ x. x.workers) (sym same)) (subst (wq.Idle q) nothing rest);
  }
    where
      no_more : (ws : List ℕ) → length ws ≡ 0 → ws ≡ []
      no_more [] nothing = refl
      no_more (w ∷ ws) some_left = absurd (omega (arith, some_left))

  pub reset-Emptied :
      {closing : ℕ} (p : PoolCore wq.Queue H L T) (idle : List ℕ)
      → wq.Idle p.workers idle
      → Emptied (reset_workers wq p) closing
  reset-Emptied p idle holds = record {
    empty = λ shut over.
        let u = reset_workers-Unmoved wq p in
        subst (λ q. wq.Idle q []) (sym u.workers) (wq.reset_law p.workers idle holds).1;
  }

  pub latch-Emptied :
      {p : PoolCore wq.Queue H L T} {closing : ℕ}
      → Emptied p closing
      → Emptied (finish_close wq p) closing
  latch-Emptied {p} v = elim (finish_close-cases wq p) [
    | inl (quiet, eq) ↦ rw eq (same-Emptied refl refl v)
    | inr (busy, eq) ↦ rw eq (same-Emptied refl refl v)
  ]

  pub open-Emptied :
      {p : PoolCore wq.Queue H L T} {closing : ℕ} → p.state ≡ opened → Emptied p closing
  open-Emptied live = record { empty = λ shut over. absurd (cc (live, shut)) }

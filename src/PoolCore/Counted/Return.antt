-- ===== src/PoolCore/Counted/Return.antt =====
-- The count of running workers where a worker comes back to the queue, or ends.
use ants.Base.{
  ℕ, suc, ◌+◌, ◌≡◌, refl, ap, ◌∙◌, ◌⊎◌, inl, inr, ◌&&◌, ◌||◌, [], ◌∷◌, ◌++◌, arith, if◌then◌else◌,
  Bool-cases, length, length-append,
}
use ants.Base.Int.{pos, negsuc, ltb_ℤ}
use ants.Base.Word.{add_i32, add_i32-pred}
use ants.Error.{Error, ok, err, Result-cases}
use ants.WorkerQueue.{WorkerQueue}
use ants.PoolCore.{PoolCore, is_closed, cap, add_running, set_last_used_time}
use ants.PoolCore.Workers.{revert_begin, revert_locked}
use ants.PoolCore.Counted.{Counted, same-Counted, recount}

module _ (wq : WorkerQueue ℕ) (bound : ℕ) {H L T : Type 0} where
  -- The part of `revert_worker` before the lock.
  pub revert_begin-Counted :
      {p : PoolCore wq.Queue H L T} {out : ℕ} (w : ℕ)
      → Counted wq bound p out
      → Counted wq bound (revert_begin wq w p).1 out
  unfolding revert_begin set_last_used_time
  revert_begin-Counted {p} w v =
      elim (Bool-cases ((ltb_ℤ (pos 0) (cap p) && ltb_ℤ (cap p) p.running) || is_closed p)) [
        | inl refused ↦ rw refused (same-Counted wq bound refl refl refl v)
        | inr going ↦ rw going (same-Counted wq bound refl refl refl v)
      ]

  -- The part of `revert_worker` under the lock: a worker that is kept is idle again.
  pub revert_locked-Counted :
      {p : PoolCore wq.Queue H L T} {out : ℕ} (w : ℕ)
      → Counted wq bound p (suc out)
      → Counted wq bound
          (revert_locked wq w p).1
          (if (revert_locked wq w p).0 then out else suc out)
  unfolding revert_locked
  revert_locked-Counted {p} {out} w v = elim (Bool-cases (is_closed p)) [
    | inl shut ↦ rw shut v
    | inr live ↦ rw live (elim (insert-result p.workers w) [
      | inl done ↦ rw done (
          recount wq bound (v.idle ++ (w ∷ [])) v (wq.insert_ok p.workers v.idle w v.holds done)
            refl (v.count ∙ ap pos (omega (arith, length-append v.idle (w ∷ []))))
            (omega (arith, length-append v.idle (w ∷ []), v.limit)))
      | inr (e, full) ↦
          rw full
            (same-Counted wq bound (wq.insert_err p.workers v.idle w e v.holds full) refl refl v)
    ])
  ]
    where
      insert-result :
          (q : wq.Queue) (x : ℕ)
          → ((wq.q_insert q x).0 ≡ ok tt) ⊎ ((e : Error) × ((wq.q_insert q x).0 ≡ err e))
      insert-result q x = elim (Result-cases (wq.q_insert q x).0) [
        | inl (_, done) ↦ inl done
        | inr (e, full) ↦ inr (e, full)
      ]

  -- The end of a worker's thread: one fewer runs.
  pub uncount-running :
      {p : PoolCore wq.Queue H L T} {out : ℕ}
      → (v : Counted wq bound p (suc out))
      → (add_running (negsuc 0) p).1.running ≡ pos (length v.idle + out)
  unfolding add_running
  uncount-running {p} {out} v =
      ap (λ r. add_i32 r (negsuc 0)) (v.count ∙ ap pos (omega arith))
      ∙ add_i32-pred (length v.idle + out) (omega (arith, v.limit, v.small))

  pub uncount-Counted :
      {p : PoolCore wq.Queue H L T} {out : ℕ}
      → Counted wq bound p (suc out)
      → Counted wq bound (add_running (negsuc 0) p).1 out
  unfolding add_running
  uncount-Counted {p} {out} v =
      recount wq bound v.idle v v.holds refl (uncount-running v) (omega (arith, v.limit))

-- ===== src/PoolCore/Places.antt =====
-- Each worker that was ever made is in one place: idle in the queue, outside it, or recycled.
pub mod Lifecycle
use ants.Base.{
  ℕ, zero, suc, ◌+◌, ◌-◌, ◌*◌, ◌/◌, ◌%◌, ◌^◌, ◌≤◌, ◌<◌, min, ◌≡◌, refl, sym, ap, ap₂, ◌∙◌, subst,
  ◌≢◌, ◌↔◌, ◌⊎◌, inl, inr, Bool, true, false, not, ◌&&◌, ◌||◌, Option, none, some, List, [], ◌∷◌,
  ◌++◌, map, arith, dec_lt, ℕ_discrete, ltb, leb, ◌==◌, if◌then◌else◌, ltb→lt, lt→ltb, leb→le,
  ==_iff, tests, Bool-cases, Option-cases, length, get_elem?, set, get_or, take, drop, replicate,
  length-append, length-Perm, length-set, get_elem?-set_self, get_elem?-set_ne, take-append-drop,
  length-take, length-drop, length-replicate, length-map, get_or-set_self, get_or-set_ne,
  get_elem?-eq-get_or, get_or-replicate, get_elem?-none, get_elem?-append_lt, get_elem?-append_self,
  get_elem?-drop, get_elem?-take,
}
use ants.Base.Int.{
  ℤ, pos, negsuc, pos_part, neg_part, ◌+ℤ◌, ◌-ℤ◌, ◌≤ℤ◌, ◌<ℤ◌, leb_ℤ, ltb_ℤ, eqb_ℤ, +ℤ_parts,
  -ℤ_parts, eq_of_parts, int_laws, eqb_ℤ→eq, leb_ℤ→≤ℤ, ltb_ℤ→<ℤ, ltb_ℤ-false,
}
use ants.Base.Word.{
  i32_half, i64_half, u32_mod, rem_i32, wrap_i32, wrap_i64, add_i32, sub_i32, sub_i64, usize_as_i32,
  i32_as_usize, shr_one, IsI32, wrap_i32-eq, usize_as_i32-eq, add_i32-pos, add_i32-one,
  add_i32-pred, add_i32-over, sub_i32-pos,
}
use ants.Base.Count.{times, times-append, times-middle}
use ants.WorkerStack.{pop_last}
use ants.WorkerStack.Items.{pop_last-cases}
use ants.WorkerQueue.{WorkerQueue}
use ants.PoolCore.{PoolCore, is_closed, add_running, add_waiting, recycle, fetch_cached_worker}
use ants.PoolCore.Workers.{
  look, Retrieved, got, failed, blocked, retrieve_pass, spawn_worker, resume, revert_locked,
  exit_worker,
}
use ants.PoolCore.Effects.{Unmoved, look-found, revert_locked-cases}

module _ (wq : WorkerQueue ℕ) {H L T : Type 0} where
  -- Worker `w` stands once in one of the three places when it has been made, and else in none.
  pub record Placed (p : PoolCore wq.Queue H L T) (out : List ℕ) : Type 0 where
    pub idle : List ℕ
    pub holds : wq.Idle p.workers idle
    pub small : wq.Small p.workers
    pub once :
        (w : ℕ)
        → times w idle + times w out + times w p.worker_cache ≡ (if ltb w p.made then 1 else 0)

  pub moved :
      {p p' : PoolCore wq.Queue H L T} {out out' : List ℕ} (idle : List ℕ)
      → (v : Placed p out) → wq.Idle p'.workers idle
      → wq.Small p'.workers
      → p'.made ≡ p.made
      → ((w : ℕ)
          → times w idle + times w out' + times w p'.worker_cache
            ≡ times w v.idle + times w out + times w p.worker_cache)
      → Placed p' out'
  moved idle v h s m c = record {
    idle = idle;
    holds = h;
    small = s;
    once = λ w. c w ∙ v.once w ∙ ap (λ n. if ltb w n then 1 else 0) (sym m);
  }

  pub Unmoved-Placed :
      {p p' : PoolCore wq.Queue H L T} {out : List ℕ} → Unmoved p p' → Placed p out → Placed p' out
  Unmoved-Placed {p} {p'} {out} u v =
      moved v.idle v (subst (λ q. wq.Idle q v.idle) (sym u.workers) v.holds)
        (subst wq.Small (sym u.workers) v.small) u.made
        (λ w. ap (λ k. times w v.idle + times w out + times w k) u.worker_cache)

  fetch-new :
      (p : PoolCore wq.Queue H L T)
      → pop_last p.worker_cache ≡ (none, [])
      → fetch_cached_worker p ≡ (
        p.made,
        record p {
          made = suc p.made;
          last_used = λ v. if v == p.made then pos 0 else p.last_used v;
        },
      )
  unfolding fetch_cached_worker
  fetch-new p popped = rw (popped, fetch_cached_worker) refl

  fetch-old :
      (p : PoolCore wq.Queue H L T) (w : ℕ) (rest : List ℕ)
      → pop_last p.worker_cache ≡ (some w, rest)
      → fetch_cached_worker p ≡ (w, record p { worker_cache = rest })
  unfolding fetch_cached_worker
  fetch-old p w rest popped =
      rw (ap (λ r. r.0) popped, fetch_cached_worker)
        (ap (λ r. (w, record p { worker_cache = r.1 })) popped)

  -- A new worker, or one out of the cache, is outside the queue.
  pub spawn-Placed :
      {p : PoolCore wq.Queue H L T} {out : List ℕ}
      → Placed p out
      → Placed (spawn_worker wq p).1 ((spawn_worker wq p).0 ∷ out)
  unfolding spawn_worker add_running
  spawn-Placed {p} {out} v = elim (pop_last-cases p.worker_cache) [
    | inl (empty, popped) ↦ rw (fetch-new p popped) (record {
      idle = v.idle;
      holds = v.holds;
      small = v.small;
      once = λ w. ground (arith, v.once w);
    })
    | inr (w, rest, split, popped) ↦ rw (fetch-old p w rest popped) (
        moved v.idle v v.holds v.small refl
          (λ x. omega (arith, ap (times x) split, times-append rest (w ∷ []) x)))
  ]

  -- A worker that is taken out of the queue.
  pub look_found-Placed :
      {p p' : PoolCore wq.Queue H L T} {out : List ℕ} {w : ℕ}
      → Placed p out
      → look wq p ≡ (some w, p')
      → Placed p' (w ∷ out)
  look_found-Placed {p} {p'} {out} {w} v eq =
      let (found, same) = look-found wq eq in
      let (before, after, split, rest) = wq.detach_some p.workers v.idle w v.holds found in
      subst (λ x. Placed x (w ∷ out)) (sym same)
        (moved (before ++ after) v rest (wq.small_detach p.workers v.small) refl
          (λ x. omega (arith, ap (times x) split, times-middle before after x w)))

  pub look_empty-Placed :
      {p p' : PoolCore wq.Queue H L T} {out : List ℕ}
      → Placed p out
      → look wq p ≡ (none, p')
      → Placed p' out
  look_empty-Placed {p} {p'} {out} v eq =
      let (empty, same) = look-found wq eq in
      let kept : (wq.q_detach p.workers).1 ≡ p.workers =
        (wq.detach_none p.workers v.idle v.holds empty).1 in
      subst (λ x. Placed x out) (sym same)
        (moved v.idle v (subst (λ q. wq.Idle q v.idle) (sym kept) v.holds)
          (wq.small_detach p.workers v.small) refl (λ x. refl))

  -- A worker that is kept is idle again.
  pub revert_locked-Placed :
      {p : PoolCore wq.Queue H L T} (before after : List ℕ) (w : ℕ)
      → Placed p (before ++ (w ∷ after))
      → Placed
          (revert_locked wq w p).1
          (if (revert_locked wq w p).0 then before ++ after else before ++ (w ∷ after))
  revert_locked-Placed {p} before after w v = elim (revert_locked-cases wq w p) [
    | inl (kept, done, eq) ↦
        rw (kept, eq)
          (moved (v.idle ++ (w ∷ [])) v (wq.insert_ok p.workers v.idle w v.holds done)
            (wq.small_insert p.workers w v.small) refl
            (λ x. omega (arith, times-append v.idle (w ∷ []) x, times-middle before after x w)))
    | inr (refused, inl eq) ↦ rw (refused, eq) v
    | inr (refused, inr (e, full, eq)) ↦
        rw (refused, eq)
          (moved v.idle v
            (subst (λ q. wq.Idle q v.idle) (sym (wq.insert_err p.workers v.idle w e v.holds full))
              v.holds)
            (wq.small_insert p.workers w v.small) refl (λ x. refl))
  ]

  -- At the end of its thread the worker is recycled.
  pub recycle-Placed :
      {p : PoolCore wq.Queue H L T} (before after : List ℕ) (w : ℕ)
      → Placed p (before ++ (w ∷ after))
      → Placed (recycle w p) (before ++ after)
  unfolding recycle
  recycle-Placed {p} before after w v =
      moved v.idle v v.holds v.small refl
        (λ x. omega (arith, times-append p.worker_cache (w ∷ []) x, times-middle before after x w))

  -- The order in which the workers outside the queue are listed does not matter.
  pub relisted-Placed :
      {p : PoolCore wq.Queue H L T} {out out' : List ℕ}
      → ((w : ℕ) → times w out' ≡ times w out)
      → Placed p out
      → Placed p out'
  relisted-Placed {p} same v = moved v.idle v v.holds v.small refl (λ w. omega (arith, same w))

  -- Fields that do not say where workers are.
  pub same-Placed :
      {p p' : PoolCore wq.Queue H L T} {out : List ℕ}
      → p'.workers ≡ p.workers
      → p'.worker_cache ≡ p.worker_cache
      → p'.made ≡ p.made
      → Placed p out
      → Placed p' out
  same-Placed {p} {p'} {out} q k m v =
      moved v.idle v (subst (λ x. wq.Idle x v.idle) (sym q) v.holds)
        (subst wq.Small (sym q) v.small) m
        (λ w. ap (λ c. times w v.idle + times w out + times w c) k)

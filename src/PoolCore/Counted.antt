-- ===== src/PoolCore/Counted.antt =====
-- How each operation of a pool with a bounded capacity changes the count of running workers.
pub mod Return
pub mod Lifecycle
use ants.Base.{
  ℕ, zero, suc, ◌+◌, ◌-◌, ◌*◌, ◌/◌, ◌%◌, ◌^◌, ◌≤◌, ◌<◌, min, ◌≡◌, refl, sym, ap, ap₂, ◌∙◌, subst,
  ◌≢◌, ◌↔◌, ◌⊎◌, inl, inr, Bool, true, false, not, ◌&&◌, ◌||◌, Option, none, some, List, [], ◌∷◌,
  ◌++◌, map, arith, dec_lt, ℕ_discrete, ltb, leb, ◌==◌, if◌then◌else◌, ltb→lt, lt→ltb, leb→le,
  ==_iff, tests, Bool-cases, Option-cases, length, get_elem?, set, get_or, take, drop, replicate,
  length-append, length-Perm, length-set, get_elem?-set_self, get_elem?-set_ne, take-append-drop,
  length-take, length-drop, length-replicate, length-map, get_or-set_self, get_or-set_ne,
  get_elem?-eq-get_or, get_or-replicate, get_elem?-none, get_elem?-append_lt, get_elem?-append_self,
  get_elem?-drop, get_elem?-take,
}
use ants.Base.Int.{
  ℤ, pos, negsuc, pos_part, neg_part, ◌+ℤ◌, ◌-ℤ◌, ◌≤ℤ◌, ◌<ℤ◌, leb_ℤ, ltb_ℤ, eqb_ℤ, +ℤ_parts,
  -ℤ_parts, eq_of_parts, int_laws, eqb_ℤ→eq, leb_ℤ→≤ℤ, ltb_ℤ→<ℤ, ltb_ℤ-false,
}
use ants.Base.Word.{
  i32_half, i64_half, u32_mod, rem_i32, wrap_i32, wrap_i64, add_i32, sub_i32, sub_i64, usize_as_i32,
  i32_as_usize, shr_one, IsI32, wrap_i32-eq, usize_as_i32-eq, add_i32-pos, add_i32-one,
  add_i32-pred, add_i32-over, sub_i32-pos,
}
use mathlib.Core.Option
use mathlib.Core.List.{Perm, map}
use native.Mathlib.Bridge.{from_ℕ}
use ants.Cond.{Waiters, register, signal, broadcast}
use ants.Error.{Error, Result, ok, err, Result-cases}
use ants.WorkerQueue.{WorkerQueue}
use ants.PoolCore.{
  cancel_taken, closed, PoolCore, send, finish, Message, is_closed, cap, add_running, add_waiting,
  recycle, fetch_cached_worker, set_last_used_time, send_finish, opened,
}
use ants.PoolCore.Effects.{look-found}
use ants.PoolCore.Workers.{
  look, detach-nothing, detach-found, Retrieved, got, failed, blocked, spawn_worker, bails_out,
  retrieve_new, retrieve_pass, resume, revert_begin, revert_locked, exit_worker,
}
use ants.PoolCore.Lifecycle.{
  tune, release, close_pool, reset_workers, reboot, restart, go_purge, go_ticktock,
}
use ants.PoolCore.Background.{ticktock_round, purge_round, is_dormant, wake_dormant}

module _ (wq : WorkerQueue ℕ) (bound : ℕ) {H L T : Type 0} where
  -- `running` counts the idle workers and `out` others; no more than `bound` run; and the capacity
  -- is a number from one to `bound`.
  pub record Counted (p : PoolCore wq.Queue H L T) (out : ℕ) : Type 0 where
    pub idle : List ℕ
    pub holds : wq.Idle p.workers idle
    pub count : p.running ≡ pos (length idle + out)
    pub limit : length idle + out ≤ bound
    pub room : ℕ
    pub capped : p.capacity ≡ pos (suc room)
    pub within : suc room ≤ bound
    pub small : bound < i32_half

  -- The fields that the count depends on.
  pub same-Counted :
      {p p' : PoolCore wq.Queue H L T} {out : ℕ}
      → p'.workers ≡ p.workers
      → p'.running ≡ p.running
      → p'.capacity ≡ p.capacity
      → Counted p out
      → Counted p' out
  same-Counted w r c v = record {
    idle = v.idle;
    holds = subst (λ q. wq.Idle q v.idle) (sym w) v.holds;
    count = r ∙ v.count;
    limit = v.limit;
    room = v.room;
    capped = c ∙ v.capped;
    within = v.within;
    small = v.small;
  }

  fetch-fields :
      (p : PoolCore wq.Queue H L T)
      → let p' = (fetch_cached_worker p).1 in
        (p'.workers ≡ p.workers) × (p'.running ≡ p.running) × (p'.capacity ≡ p.capacity)
  unfolding fetch_cached_worker
  fetch-fields p = (ground arith, ground arith, ground arith)

  pub recount :
      {p p' : PoolCore wq.Queue H L T} {out out' : ℕ} (idle : List ℕ)
      → Counted p out
      → wq.Idle p'.workers idle
      → p'.capacity ≡ p.capacity
      → p'.running ≡ pos (length idle + out')
      → length idle + out' ≤ bound
      → Counted p' out'
  recount idle v h c r l = record {
    idle = idle;
    holds = h;
    count = r;
    limit = l;
    room = v.room;
    capped = c ∙ v.capped;
    within = v.within;
    small = v.small;
  }

  -- `running` is below a number exactly where the workers are.
  pub running_below :
      {p : PoolCore wq.Queue H L T} {out : ℕ} (v : Counted p out) (limit : ℕ)
      → ltb_ℤ p.running (pos limit) ≡ true
      → length v.idle + out < limit
  running_below {p} {out} v limit free =
      let below =
        ltb_ℤ→<ℤ (pos (length v.idle + out)) (pos limit)
          (ap (λ r. ltb_ℤ r (pos limit)) (sym v.count) ∙ free) in
      omega (arith, below)

  -- A new worker, or one out of the cache, is outside the queue.
  pub spawn-Counted :
      {p : PoolCore wq.Queue H L T} {out : ℕ}
      → Counted p out
      → ltb_ℤ p.running (pos bound) ≡ true
      → Counted (spawn_worker wq p).1 (suc out)
  unfolding spawn_worker add_running
  spawn-Counted {p} {out} v free =
      let (w, r, c) = fetch-fields p in
      let below = running_below v bound free in
      recount v.idle v (subst (λ q. wq.Idle q v.idle) (sym w) v.holds) c
        (ap (λ x. add_i32 x (pos 1)) (r ∙ v.count)
          ∙ add_i32-pos (length v.idle + out) 1 (omega (arith, below, v.small))
          ∙ ap pos (omega arith))
        (omega (arith, below))

  -- A worker that is taken out of the queue.
  pub look_found-Counted :
      {p p' : PoolCore wq.Queue H L T} {out w : ℕ}
      → Counted p out
      → look wq p ≡ (some w, p')
      → Counted p' (suc out)
  look_found-Counted {p} {p'} {out} {w} v eq =
      let (found, same) = look-found wq eq in
      let (before, after, split, rest) = wq.detach_some p.workers v.idle w v.holds found in
      let size : length v.idle ≡ suc (length (before ++ after)) =
        ap length split
        ∙ length-append before (w ∷ after)
        ∙ omega (arith, length-append before after) in
      subst (λ x. Counted x (suc out)) (sym same)
        (recount (before ++ after) v rest refl (v.count ∙ ap pos (omega (arith, size)))
          (omega (arith, size, v.limit)))

  pub look_empty-Counted :
      {p p' : PoolCore wq.Queue H L T} {out : ℕ}
      → Counted p out
      → look wq p ≡ (none, p')
      → Counted p' out
  look_empty-Counted {p} {p'} {out} v eq =
      let (empty, same) = look-found wq eq in
      subst (λ x. Counted x out) (sym same)
        (same-Counted (wq.detach_none p.workers v.idle v.holds empty).1 refl refl v)

  pub same_limit : {p : PoolCore wq.Queue H L T} {out : ℕ} → Counted p out → Counted p (out + 0)
  same_limit v = subst (Counted _) (omega arith) v

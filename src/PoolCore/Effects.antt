-- ===== src/PoolCore/Effects.antt =====
-- What each operation of a pool does to the fields that its invariants are about.
pub mod Lifecycle
use ants.Base.{
  ℕ, zero, suc, ◌+◌, ◌-◌, ◌*◌, ◌/◌, ◌%◌, ◌^◌, ◌≤◌, ◌<◌, min, ◌≡◌, refl, sym, ap, ap₂, ◌∙◌, subst,
  ◌≢◌, ◌↔◌, ◌⊎◌, inl, inr, Bool, true, false, not, ◌&&◌, ◌||◌, Option, none, some, List, [], ◌∷◌,
  ◌++◌, map, arith, dec_lt, ℕ_discrete, ltb, leb, ◌==◌, if◌then◌else◌, ltb→lt, lt→ltb, leb→le,
  ==_iff, tests, Bool-cases, Option-cases, length, get_elem?, set, get_or, take, drop, replicate,
  length-append, length-Perm, length-set, get_elem?-set_self, get_elem?-set_ne, take-append-drop,
  length-take, length-drop, length-replicate, length-map, get_or-set_self, get_or-set_ne,
  get_elem?-eq-get_or, get_or-replicate, get_elem?-none, get_elem?-append_lt, get_elem?-append_self,
  get_elem?-drop, get_elem?-take,
}
use ants.Base.Int.{
  ℤ, pos, negsuc, pos_part, neg_part, ◌+ℤ◌, ◌-ℤ◌, ◌≤ℤ◌, ◌<ℤ◌, leb_ℤ, ltb_ℤ, eqb_ℤ, +ℤ_parts,
  -ℤ_parts, eq_of_parts, int_laws, eqb_ℤ→eq, leb_ℤ→≤ℤ, ltb_ℤ→<ℤ, ltb_ℤ-false,
}
use ants.Base.Word.{
  i32_half, i64_half, u32_mod, rem_i32, wrap_i32, wrap_i64, add_i32, sub_i32, sub_i64, usize_as_i32,
  i32_as_usize, shr_one, IsI32, wrap_i32-eq, usize_as_i32-eq, add_i32-pos, add_i32-one,
  add_i32-pred, add_i32-over, sub_i32-pos,
}
use ants.Cond.{Waiters, register, signal, broadcast}
use ants.Error.{Error, ok, err, Result-cases, pool_overload}
use ants.WorkerQueue.{WorkerQueue}
use ants.PoolCore.{
  PoolCore, finish, Message, send, send_finish, cap, is_closed, add_waiting, set_last_used_time,
}
use ants.PoolCore.Workers.{
  failed, blocked, look, wait_or_fail, bails_out, revert_begin, revert_locked,
}
use ants.PoolCore.Lifecycle.{tune}
use ants.PoolCore.Background.{ticktock_round, wake_dormant}

-- The condition variable is as it was, but for a wake-up.
abbrev pub Woken : Waiters → Waiters → Type 0
Woken c c' = (c' ≡ c) ⊎ ((c' ≡ signal c) ⊎ (c' ≡ broadcast c))

-- Nothing that the invariants are about has changed, wake-ups aside.
pub record Unmoved {Q H L T : Type 0} (p p' : PoolCore Q H L T) : Type 0 where
  pub workers : p'.workers ≡ p.workers
  pub worker_cache : p'.worker_cache ≡ p.worker_cache
  pub made : p'.made ≡ p.made
  pub running : p'.running ≡ p.running
  pub waiting : p'.waiting ≡ p.waiting
  pub state : p'.state ≡ p.state
  pub all_done : p'.all_done ≡ p.all_done
  pub cond : Woken p.cond p'.cond

module _ {Q H L T : Type 0} where
  pub unmoved :
      {p p' : PoolCore Q H L T}
      → p'.workers ≡ p.workers
      → p'.worker_cache ≡ p.worker_cache
      → p'.made ≡ p.made
      → p'.running ≡ p.running
      → p'.waiting ≡ p.waiting
      → p'.state ≡ p.state
      → p'.all_done ≡ p.all_done
      → Woken p.cond p'.cond
      → Unmoved p p'
  unmoved w k m r a s d c = record {
    workers = w;
    worker_cache = k;
    made = m;
    running = r;
    waiting = a;
    state = s;
    all_done = d;
    cond = c;
  }

  pub same-Unmoved : (p : PoolCore Q H L T) → Unmoved p p
  same-Unmoved p = unmoved refl refl refl refl refl refl refl (inl refl)

  -- The operations that move no worker and no submitter.
  pub set_last_used_time-Unmoved :
      (w : ℕ) (t : ℤ) (p : PoolCore Q H L T) → Unmoved p (set_last_used_time w t p)
  unfolding set_last_used_time
  set_last_used_time-Unmoved w t p = unmoved refl refl refl refl refl refl refl (inl refl)

  pub send-Unmoved : (w : ℕ) (m : Message T) (p : PoolCore Q H L T) → Unmoved p (send w m p)
  unfolding send
  send-Unmoved w m p = unmoved refl refl refl refl refl refl refl (inl refl)

  pub tune-Unmoved : (size : ℤ) (p : PoolCore Q H L T) → Unmoved p (tune size p)
  unfolding tune
  tune-Unmoved size p =
      elim (Bool-cases (
        eqb_ℤ (cap p) (negsuc 0)
        || leb_ℤ size (pos 0)
        || eqb_ℤ size (cap p)
        || p.options.pre_alloc)) [
          | inl refused ↦ rw refused (same-Unmoved p)
          | inr going ↦ rw going (elim (Bool-cases (ltb_ℤ (cap p) size)) [
            | inr down ↦ rw down (unmoved refl refl refl refl refl refl refl (inl refl))
            | inl up ↦ rw up (elim (Bool-cases (eqb_ℤ (sub_i32 size (cap p)) (pos 1))) [
              | inl one ↦ rw one (unmoved refl refl refl refl refl refl refl (inr (inl refl)))
              | inr more ↦ rw more (unmoved refl refl refl refl refl refl refl (inr (inr refl)))
            ])
          ])
        ]

  pub ticktock_round-Unmoved :
      (fired : Bool) (clock : ℤ) (p : PoolCore Q H L T) → Unmoved p (ticktock_round fired clock p).1
  unfolding ticktock_round
  ticktock_round-Unmoved fired clock p = elim (Bool-cases (fired || is_closed p)) [
    | inl ends ↦ rw ends (unmoved refl refl refl refl refl refl refl (inl refl))
    | inr goes ↦ rw goes (unmoved refl refl refl refl refl refl refl (inl refl))
  ]

  pub wake_dormant-Unmoved :
      (dormant : Bool) (p : PoolCore Q H L T) → Unmoved p (wake_dormant dormant p)
  unfolding wake_dormant
  wake_dormant-Unmoved dormant p = elim (Bool-cases (dormant && ltb_ℤ (pos 0) p.waiting)) [
    | inl wakes ↦ rw wakes (unmoved refl refl refl refl refl refl refl (inr (inr refl)))
    | inr rests ↦ rw rests (same-Unmoved p)
  ]

  -- What a list of workers is sent leaves the other fields alone, the condition variable too.
  pub send_finish-Unmoved :
      (ws : List ℕ) (p : PoolCore Q H L T)
      → Unmoved p (send_finish ws p) × ((send_finish ws p).cond ≡ p.cond)
  unfolding send send_finish
  send_finish-Unmoved [] p = (same-Unmoved p, refl)
  send_finish-Unmoved (w ∷ ws) p =
      let (u, c) = send_finish-Unmoved ws (send w finish p) in
      (unmoved u.workers u.worker_cache u.made u.running u.waiting u.state u.all_done (inl c), c)

module _ (wq : WorkerQueue ℕ) {H L T : Type 0} where
  pub revert_begin-Unmoved :
      (w : ℕ) (p : PoolCore wq.Queue H L T) → Unmoved p (revert_begin wq w p).1
  unfolding revert_begin
  revert_begin-Unmoved w p =
      elim (Bool-cases ((ltb_ℤ (pos 0) (cap p) && ltb_ℤ (cap p) p.running) || is_closed p)) [
        | inl refused ↦ rw refused (unmoved refl refl refl refl refl refl refl (inr (inr refl)))
        | inr going ↦ rw going (set_last_used_time-Unmoved w p.now p)
      ]

  -- Whether `revert_worker` keeps the worker or not.
  pub revert_locked-cases :
      (w : ℕ) (p : PoolCore wq.Queue H L T)
      → (((revert_locked wq w p).0 ≡ true)
          × ((wq.q_insert p.workers w).0 ≡ ok tt)
          × ((revert_locked wq w p).1
              ≡ record p { workers = (wq.q_insert p.workers w).1; cond = signal p.cond }))
        ⊎ (((revert_locked wq w p).0 ≡ false)
            × (((revert_locked wq w p).1 ≡ p)
                ⊎ ((e : Error) × ((wq.q_insert p.workers w).0 ≡ err e)
                    × ((revert_locked wq w p).1
                        ≡ record p { workers = (wq.q_insert p.workers w).1 }))))
  unfolding revert_locked
  revert_locked-cases w p = elim (Bool-cases (is_closed p)) [
    | inl shut ↦ inr (rw shut refl, inl (rw shut refl))
    | inr live ↦ elim (insert-result p.workers w) [
      | inl done ↦ inl (rw (live, done) refl, done, rw (live, done) refl)
      | inr (e, full) ↦ inr (rw (live, full) refl, inr (e, full, rw (live, full) refl))
    ]
  ]
    where
      insert-result :
          (q : wq.Queue) (x : ℕ)
          → ((wq.q_insert q x).0 ≡ ok tt) ⊎ ((e : Error) × ((wq.q_insert q x).0 ≡ err e))
      insert-result q x = elim (Result-cases (wq.q_insert q x).0) [
        | inl (_, done) ↦ inl done
        | inr (e, full) ↦ inr (e, full)
      ]

  -- The queue is all that the first step of a pass changes.
  pub look-found :
      {p p' : PoolCore wq.Queue H L T} {found : Option ℕ}
      → look wq p ≡ (found, p')
      → ((wq.q_detach p.workers).0 ≡ found)
        × (p' ≡ record p { workers = (wq.q_detach p.workers).1 })
  unfolding look
  look-found eq = (ap (λ r. r.0) eq, sym (ap (λ r. r.1) eq))

  -- The end of a pass that makes no worker: an error and nothing done, or a wait.
  pub wait_or_fail-failed :
      {p' : PoolCore wq.Queue H L T} {e : Error} (p : PoolCore wq.Queue H L T)
      → wait_or_fail wq p ≡ (failed e, p')
      → (p' ≡ p) × (e ≡ pool_overload)
  wait_or_fail-failed {p'} {e} p eq = elim (Bool-cases (bails_out wq p)) [
    | inl bails ↦
        let same : (failed pool_overload, p) ≡ (failed e, p') = rw bails at eq in
        (sym (ap (λ r. r.1) same), cc same)
    | inr waits ↦ absurd (cc (rw waits at eq))
  ]

  pub wait_or_fail-blocked :
      {p' : PoolCore wq.Queue H L T} {g : ℕ} (p : PoolCore wq.Queue H L T)
      → wait_or_fail wq p ≡ (blocked g, p')
      → (p' ≡ record (add_waiting (pos 1) p) { cond = (register p.cond).1 })
        × (g ≡ (register p.cond).0)
  wait_or_fail-blocked {p'} {g} p eq = elim (Bool-cases (bails_out wq p)) [
    | inl bails ↦ absurd (cc (rw bails at eq))
    | inr waits ↦
        let same : (
          blocked (register p.cond).0,
          record (add_waiting (pos 1) p) { cond = (register p.cond).1 },
        )
            ≡ (blocked g, p') =
          rw waits at eq in
        (sym (ap (λ r. r.1) same), cc same)
  ]

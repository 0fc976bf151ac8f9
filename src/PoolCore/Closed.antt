-- ===== src/PoolCore/Closed.antt =====
-- What callers can rely on: when `retrieve_worker` waits, what `tune` does to the capacity, and a
-- pool that is released and rebooted.
use ants.Base.{
  ℕ, ◌≡◌, refl, sym, ap, ◌∙◌, ◌⊎◌, inl, inr, true, false, ◌||◌, none, some, List, [], ◌∷◌, arith,
  if◌then◌else◌, Bool-cases, Option-cases,
}
use ants.Base.Int.{ℤ, pos, negsuc, leb_ℤ, ltb_ℤ, eqb_ℤ, eqb_ℤ→eq}
use ants.Base.Word.{sub_i32}
use ants.Context.{new_event}
use ants.Error.{pool_closed}
use ants.WorkerQueue.{WorkerQueue}
use ants.PoolCore.{
  PoolCore, cancel_taken, finish, send, send_finish, opened, closed, cap, is_closed,
}
use ants.PoolCore.Workers.{
  detach-nothing, detach-found, blocked, retrieve_pass, retrieve_new, bails_out, try_submit,
  refused,
}
use ants.PoolCore.Lifecycle.{
  tune, release, close_pool, begin_close, finish_close, reset_workers, reboot, restart,
  ready_to_reboot, go_purge, go_ticktock,
}

module _ {Q H L T : Type 0} where
  -- A new capacity is taken exactly where the pool is limited and not preallocated and the size is
  -- positive; `tune` changes neither the queue nor the count of running workers.
  pub tune_lem :
      (size : ℤ) (p : PoolCore Q H L T)
      → ((tune size p).capacity ≡ (
          if eqb_ℤ (cap p) (negsuc 0) || leb_ℤ size (pos 0) || p.options.pre_alloc
          then cap p
          else size))
        × ((tune size p).workers ≡ p.workers)
        × ((tune size p).running ≡ p.running)
  unfolding tune
  tune_lem size p = (
    elim (Bool-cases (eqb_ℤ (cap p) (negsuc 0))) [
      | inl unlimited ↦ simp unlimited refl
      | inr limited ↦ elim (Bool-cases (leb_ℤ size (pos 0))) [
        | inl negative ↦ simp (limited, negative) refl
        | inr positive ↦ elim (Bool-cases (eqb_ℤ size (cap p))) [
          | inl same ↦ elim (Bool-cases p.options.pre_alloc) [
            | inl ahead ↦ simp (limited, positive, same, ahead) refl
            | inr later ↦ simp (limited, positive, same, later) (sym (eqb_ℤ→eq size (cap p) same))
          ]
          | inr other ↦ elim (Bool-cases p.options.pre_alloc) [
            | inl ahead ↦ simp (limited, positive, other, ahead) refl
            | inr later ↦ elim (Bool-cases (ltb_ℤ (cap p) size)) [
              | inr down ↦ simp (limited, positive, other, later, down) refl
              | inl up ↦ elim (Bool-cases (eqb_ℤ (sub_i32 size (cap p)) (pos 1))) [
                | inl one ↦ simp (limited, positive, other, later, up, one) refl
                | inr more ↦ simp (limited, positive, other, later, up, more) refl
              ]
            ]
          ]
        ]
      ]
    ],
    ground arith,
    ground arith,
  )

  sent-state : (ws : List ℕ) (p : PoolCore Q H L T) → (send_finish ws p).state ≡ p.state
  unfolding send send_finish
  sent-state [] p = refl
  sent-state (w ∷ ws) p = sent-state ws (send w finish p)

  restarted :
      (now : ℤ) (p : PoolCore Q H L T)
      → ((restart now p).state ≡ opened)
        × ((restart now p).all_done ≡ new_event)
        × ((restart now p).ticktock_done ≡ pos 0)
        × ((restart now p).purge_done ≡ pos 0)
        × ((restart now p).now ≡ now)
        × ((restart now p).workers ≡ p.workers)
  unfolding restart go_purge go_ticktock
  restarted now p =
      (ground arith, ground arith, ground arith, ground arith, ground arith, ground arith)

  -- `reboot` does nothing to an open pool. A closed one it opens only when its latch is closed and
  -- the two background threads have ended, purging left aside where it is off; the latch is then
  -- open again. In every other case it waits.
  pub reboot_lem :
      (now : ℤ) (p : PoolCore Q H L T)
      → (is_closed p ≡ false → reboot now p ≡ some p)
        × (is_closed p ≡ true → ready_to_reboot p ≡ false → reboot now p ≡ none)
        × (is_closed p ≡ true
            → ready_to_reboot p ≡ true
            → (p' : PoolCore Q H L T) × (reboot now p ≡ some p')
              × (p'.state ≡ opened)
              × (p'.all_done ≡ new_event)
              × (p'.ticktock_done ≡ pos 0)
              × (p'.purge_done ≡ pos 0)
              × (p'.now ≡ now)
              × (p'.workers ≡ p.workers))
  unfolding reboot
  reboot_lem now p = (
    λ live. rw live refl,
    λ shut early. rw (shut, early) refl,
    λ shut ready. (
      restart now p,
      rw (shut, ready) refl,
      (restarted now p).0,
      (restarted now p).1,
      (restarted now p).2,
      (restarted now p).3,
      (restarted now p).4,
      (restarted now p).5,
    ),
  )

module _ (wq : WorkerQueue ℕ) {H L T : Type 0} where
  closed-state : (p : PoolCore wq.Queue H L T) → (close_pool wq p).state ≡ closed
  unfolding close_pool begin_close finish_close reset_workers
  closed-state p =
      let p1 = record p {
        state = closed;
        stop_purge = none;
        stop_ticktock = none;
        contexts = cancel_taken p.stop_ticktock (cancel_taken p.stop_purge p.contexts);
      } in
      let kept =
        sent-state (wq.q_reset p.workers).0 (record p1 { workers = (wq.q_reset p.workers).1 }) in
      elim (Bool-cases (eqb_ℤ (reset_workers wq p1).running (pos 0))) [
        | inl last ↦ rw last kept
        | inr more ↦ rw more kept
      ]

  is_shut : (p : PoolCore wq.Queue H L T) → p.state ≡ closed → is_closed p ≡ true
  is_shut p shut = ap (λ z. eqb_ℤ z closed) shut ∙ ground arith

  release-again : (p : PoolCore wq.Queue H L T) → p.state ≡ closed → release wq p ≡ p
  unfolding release
  release-again p shut =
      let other : eqb_ℤ p.state opened ≡ false = ap (λ z. eqb_ℤ z opened) shut ∙ ground arith in
      rw other refl

  submit-refused :
      (p : PoolCore wq.Queue H L T) (task : T)
      → p.state ≡ closed
      → try_submit wq task p ≡ (refused pool_closed task, p)
  unfolding try_submit
  submit-refused p task shut = rw (is_shut p shut) refl

  release-live : (p : PoolCore wq.Queue H L T) → p.state ≡ opened → release wq p ≡ close_pool wq p
  unfolding release
  release-live p live =
      let same : eqb_ℤ p.state opened ≡ true = ap (λ z. eqb_ℤ z opened) live ∙ ground arith in
      rw same refl

  -- After `release` an open pool is closed: another `release` does nothing, and a task is refused
  -- with the queue and the workers left alone.
  pub release-closes :
      (p : PoolCore wq.Queue H L T) (task : T)
      → p.state ≡ opened
      → let p' = release wq p in
        (p'.state ≡ closed)
        × (release wq p' ≡ p')
        × (try_submit wq task p' ≡ (refused pool_closed task, p'))
  release-closes p task live =
      let shut = closed-state p in
      rw (release-live p live)
        (shut, release-again (close_pool wq p) shut, submit-refused (close_pool wq p) task shut)

  stays-cases :
      (p : PoolCore wq.Queue H L T)
      → bails_out wq p ≡ false
      → (p.options.nonblocking ≡ false)
        × ((p.options.max_blocking_tasks ≡ pos 0)
            ⊎ (leb_ℤ p.options.max_blocking_tasks p.waiting ≡ false))
  unfolding bails_out
  stays-cases p stays = elim (Bool-cases p.options.nonblocking) [
    | inl nonblocking ↦ absurd (cc (nonblocking, stays))
    | inr blocking ↦ elim (Bool-cases (eqb_ℤ p.options.max_blocking_tasks (pos 0))) [
      | inl off ↦ (blocking, inl (eqb_ℤ→eq p.options.max_blocking_tasks (pos 0) off))
      | inr limited ↦ (blocking, inr (cc (blocking, limited, stays)))
    ]
  ]

  retrieve_new-blocked :
      (p : PoolCore wq.Queue H L T) (g : ℕ)
      → (retrieve_new wq p).0 ≡ blocked g
      → (eqb_ℤ (cap p) (negsuc 0) ≡ false)
        × (ltb_ℤ p.running (cap p) ≡ false)
        × (bails_out wq p ≡ false)
  unfolding retrieve_new
  retrieve_new-blocked p g waits = elim (Bool-cases (eqb_ℤ (cap p) (negsuc 0))) [
    | inl unlimited ↦ absurd (cc (unlimited, waits))
    | inr limited ↦ elim (Bool-cases (ltb_ℤ p.running (cap p))) [
      | inl room ↦ absurd (cc (limited, room, waits))
      | inr full ↦ elim (Bool-cases (bails_out wq p)) [
        | inl bails ↦ absurd (cc (limited, full, bails, waits))
        | inr stays ↦ (limited, full, stays)
      ]
    ]
  ]

  -- A pass of `retrieve_worker` ends in a wait only where the pool is limited and full, the queue
  -- has given no worker, the pool is not nonblocking, and the limit on blocked submitters is off
  -- or not reached.
  pub retrieve_pass-blocked :
      (p : PoolCore wq.Queue H L T) (g : ℕ)
      → (retrieve_pass wq p).0 ≡ blocked g
      → ((wq.q_detach p.workers).0 ≡ none)
        × (ltb_ℤ p.running (cap p) ≡ false)
        × (eqb_ℤ (cap p) (negsuc 0) ≡ false)
        × (p.options.nonblocking ≡ false)
        × ((p.options.max_blocking_tasks ≡ pos 0)
            ⊎ (leb_ℤ p.options.max_blocking_tasks p.waiting ≡ false))
  retrieve_pass-blocked p g waits = elim (Option-cases (wq.q_detach p.workers).0) [
    | inr (w, found) ↦ absurd (cc (detach-found wq p w found, waits))
    | inl empty ↦
        let (limited, full, stays) =
          retrieve_new-blocked (record p { workers = (wq.q_detach p.workers).1 }) g
            (sym (ap (λ r. r.0) (detach-nothing wq p empty)) ∙ waits) in
        let (blocking, below) =
          stays-cases (record p { workers = (wq.q_detach p.workers).1 }) stays in
        (empty, full, limited, blocking, below)
  ]

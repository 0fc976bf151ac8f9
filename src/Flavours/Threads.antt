-- ===== src/Flavours/Threads.antt =====
-- The payloads of a pool under another name: changes of the pool, and its background threads.
use ants.Base.{
  ℕ, ◌≡◌, refl, ap, ◌∙◌, inl, inr, Bool, true, ◌||◌, ◌&&◌, Option, none, some, List, [], ◌∷◌,
  Bool-cases, Option-cases,
}
use ants.Base.Int.{ℤ, pos, negsuc, ltb_ℤ, eqb_ℤ, leb_ℤ}
use ants.Base.Word.{sub_i32}
use ants.WorkerQueue.{WorkerQueue}
use ants.PoolCore.{
  PoolCore, finish, is_closed, cap, send, send_finish, opened, closed, cancel_taken,
}
use ants.PoolCore.Lifecycle.{
  tune, release, close_pool, begin_close, finish_close, reset_workers, reboot, restart,
  ready_to_reboot, go_purge, go_ticktock,
}
use ants.PoolCore.Background.{purge_scan, ticktock_round, purge_round, is_dormant, wake_dormant}
use ants.Flavours.Relabel.{relabel}

module _ {Q H L T U : Type 0} (g : T → U) where
  pub tune-relabel :
      (size : ℤ) (p : PoolCore Q H L T) → tune size (relabel g p) ≡ relabel g (tune size p)
  unfolding tune
  tune-relabel size p =
      elim (Bool-cases (
        eqb_ℤ (cap p) (negsuc 0)
        || leb_ℤ size (pos 0)
        || eqb_ℤ size (cap p)
        || p.options.pre_alloc)) [
          | inl kept ↦ rw kept refl
          | inr going ↦ elim (Bool-cases (ltb_ℤ (cap p) size)) [
            | inr down ↦ rw (going, down) refl
            | inl up ↦ elim (Bool-cases (eqb_ℤ (sub_i32 size (cap p)) (pos 1))) [
              | inl one ↦ rw (going, up, one) refl
              | inr more ↦ rw (going, up, more) refl
            ]
          ]
        ]

  pub send_finish-relabel :
      (ws : List ℕ) (p : PoolCore Q H L T)
      → send_finish ws (relabel g p) ≡ relabel g (send_finish ws p)
  unfolding send_finish send
  send_finish-relabel [] p = refl
  send_finish-relabel (w ∷ ws) p = send_finish-relabel ws (send w finish p)

  pub restart-relabel :
      (now : ℤ) (p : PoolCore Q H L T) → restart now (relabel g p) ≡ relabel g (restart now p)
  unfolding restart go_purge go_ticktock
  restart-relabel now p = elim (Bool-cases p.options.disable_purge) [
    | inl off ↦ rw off refl
    | inr on ↦ rw on refl
  ]

  pub ticktock_round-relabel :
      (fired : Bool) (clock : ℤ) (p : PoolCore Q H L T)
      → ticktock_round fired clock (relabel g p)
        ≡ ((ticktock_round fired clock p).0, relabel g (ticktock_round fired clock p).1)
  unfolding ticktock_round
  ticktock_round-relabel fired clock p = elim (Bool-cases (fired || is_closed p)) [
    | inl ends ↦ rw ends refl
    | inr goes ↦ rw goes refl
  ]

  wake_dormant-relabel :
      (dormant : Bool) (p : PoolCore Q H L T)
      → wake_dormant dormant (relabel g p) ≡ relabel g (wake_dormant dormant p)
  unfolding wake_dormant
  wake_dormant-relabel dormant p = elim (Bool-cases (dormant && ltb_ℤ (pos 0) p.waiting)) [
    | inl wakes ↦ rw wakes refl
    | inr rests ↦ rw rests refl
  ]

  -- What a caller of `reboot` finds afterwards.
  abbrev pub relabel_reboot : Option (PoolCore Q H L T) → Option (PoolCore Q H L U)
  relabel_reboot none = none
  relabel_reboot (some p) = some (relabel g p)

  pub reboot-relabel :
      (now : ℤ) (p : PoolCore Q H L T) → reboot now (relabel g p) ≡ relabel_reboot (reboot now p)
  unfolding reboot ready_to_reboot
  reboot-relabel now p = elim (Bool-cases (is_closed p)) [
    | inr live ↦ rw live refl
    | inl shut ↦ elim (Bool-cases (ready_to_reboot p)) [
      | inl ready ↦ rw (shut, ready) (ap some (restart-relabel now p))
      | inr early ↦ rw (shut, early) refl
    ]
  ]

module _ (wq : WorkerQueue ℕ) {H L T U : Type 0} (g : T → U) where
  close_pool-relabel :
      (p : PoolCore wq.Queue H L T) → close_pool wq (relabel g p) ≡ relabel g (close_pool wq p)
  unfolding close_pool begin_close finish_close reset_workers
  close_pool-relabel p =
      let p1 : PoolCore wq.Queue H L T = record p {
        workers = (wq.q_reset p.workers).1;
        state = closed;
        stop_purge = none;
        stop_ticktock = none;
        contexts = cancel_taken p.stop_ticktock (cancel_taken p.stop_purge p.contexts);
      } in
      let ws = (wq.q_reset p.workers).0 in
      elim (Bool-cases (eqb_ℤ (send_finish ws p1).running (pos 0))) [
        | inl last ↦ rw (send_finish-relabel g ws p1, last) refl
        | inr more ↦ rw (send_finish-relabel g ws p1, more) refl
      ]

  pub release-relabel :
      (p : PoolCore wq.Queue H L T) → release wq (relabel g p) ≡ relabel g (release wq p)
  unfolding release
  release-relabel p = elim (Bool-cases (eqb_ℤ p.state opened)) [
    | inl live ↦ rw live (close_pool-relabel p)
    | inr shut ↦ rw shut refl
  ]

  abbrev pub relabel_round :
      Option (Bool × PoolCore wq.Queue H L T) → Option (Bool × PoolCore wq.Queue H L U)
  relabel_round none = none
  relabel_round (some r) = some (r.0, relabel g r.1)

  pub purge_round-relabel :
      (fired : Bool) (clock : ℤ) (p : PoolCore wq.Queue H L T)
      → purge_round wq fired clock (relabel g p) ≡ relabel_round (purge_round wq fired clock p)
  unfolding purge_round purge_scan is_dormant
  purge_round-relabel fired clock p = elim (Bool-cases (fired || is_closed p)) [
    | inl ends ↦ rw ends refl
    | inr goes ↦
        elim (Option-cases (wq.q_refresh p.last_used clock p.workers p.options.expiry_duration)) [
          | inl stuck ↦ rw (goes, stuck) refl
          | inr (r, found) ↦
              rw (goes, found)
                (ap (λ q. some (true, wake_dormant (is_dormant p r.0) q))
                    (send_finish-relabel g r.0 (record p { workers = r.1 }))
                  ∙ ap (λ q. some (true, q))
                      (wake_dormant-relabel g (is_dormant p r.0)
                        (send_finish r.0 (record p { workers = r.1 }))))
        ]
  ]

-- ===== src/Flavours/Relabel.antt =====
-- The payloads of a pool under another name: no operation of a pool looks into a payload.
use ants.Base.{
  ℕ, ◌≡◌, refl, sym, ap, ◌∙◌, inl, inr, false, ◌||◌, ◌&&◌, map, if◌then◌else◌, ◌==◌, Bool-cases,
  Option-cases,
}
use ants.Base.Int.{pos, negsuc, ltb_ℤ, eqb_ℤ}
use ants.Base.Word.{add_i32}
use ants.Error.{pool_closed, Result-cases}
use ants.WorkerStack.{pop_last}
use ants.WorkerQueue.{WorkerQueue}
use ants.PoolCore.{
  PoolCore, Message, payload, finish, is_closed, cap, add_running, add_waiting, recycle,
  fetch_cached_worker, set_last_used_time, send,
}
use ants.PoolCore.Workers.{
  Retrieved, got, failed, blocked, Outcome, stopped, ran, panicked, Submitted, delivered, refused,
  waits, detach-nothing, detach-found, spawn_worker, bails_out, retrieve_new, retrieve_pass, resume,
  revert_begin, revert_locked, revert_worker, exit_worker, work_round, deliver, try_submit,
  resume_submit,
}

abbrev pub relabel_message : {T U : Type 0} → (T → U) → Message T → Message U
relabel_message g (payload t) = payload (g t)
relabel_message g finish = finish

abbrev pub relabel_sent : {T U : Type 0} → (T → U) → ℕ × Message T → ℕ × Message U
relabel_sent g sent = (sent.0, relabel_message g sent.1)

abbrev pub relabel : {Q H L T U : Type 0} → (T → U) → PoolCore Q H L T → PoolCore Q H L U
relabel g p = record {
  capacity = p.capacity;
  running = p.running;
  workers = p.workers;
  state = p.state;
  cond = p.cond;
  all_done = p.all_done;
  worker_cache = p.worker_cache;
  waiting = p.waiting;
  purge_done = p.purge_done;
  purge_ctx = p.purge_ctx;
  stop_purge = p.stop_purge;
  ticktock_done = p.ticktock_done;
  ticktock_ctx = p.ticktock_ctx;
  stop_ticktock = p.stop_ticktock;
  now = p.now;
  options = p.options;
  contexts = p.contexts;
  made = p.made;
  last_used = p.last_used;
  sent = map (relabel_sent g) p.sent;
}

abbrev pub relabel_submitted : {T U : Type 0} → (T → U) → Submitted T → Submitted U
relabel_submitted g (delivered w) = delivered w
relabel_submitted g (refused e t) = refused e (g t)
relabel_submitted g (waits n) = waits n

module _ (wq : WorkerQueue ℕ) {H L T U : Type 0} (g : T → U) where
  fetch-relabel :
      (p : PoolCore wq.Queue H L T)
      → fetch_cached_worker (relabel g p)
        ≡ ((fetch_cached_worker p).0, relabel g (fetch_cached_worker p).1)
  unfolding fetch_cached_worker
  fetch-relabel p = elim (Option-cases (pop_last p.worker_cache).0) [
    | inl empty ↦ rw (empty, fetch_cached_worker) refl
    | inr (w, found) ↦ rw (found, fetch_cached_worker) refl
  ]

  spawn-relabel :
      (p : PoolCore wq.Queue H L T)
      → spawn_worker wq (relabel g p) ≡ ((spawn_worker wq p).0, relabel g (spawn_worker wq p).1)
  unfolding spawn_worker add_running
  spawn-relabel p = ap (λ r. (r.0, (add_running (pos 1) r.1).1)) (fetch-relabel p)

  retrieve_new-relabel :
      (p : PoolCore wq.Queue H L T)
      → retrieve_new wq (relabel g p) ≡ ((retrieve_new wq p).0, relabel g (retrieve_new wq p).1)
  unfolding retrieve_new bails_out add_waiting
  retrieve_new-relabel p = elim (Bool-cases (eqb_ℤ (cap p) (negsuc 0) || ltb_ℤ p.running (cap p))) [
    | inl room ↦ rw room (ap (λ r. (got r.0, r.1)) (spawn-relabel p))
    | inr full ↦ elim (Bool-cases (bails_out wq p)) [
      | inl bails ↦ rw (full, bails) refl
      | inr waits_on ↦ rw (full, waits_on) refl
    ]
  ]

  retrieve_pass-relabel :
      (p : PoolCore wq.Queue H L T)
      → retrieve_pass wq (relabel g p) ≡ ((retrieve_pass wq p).0, relabel g (retrieve_pass wq p).1)
  retrieve_pass-relabel p = elim (Option-cases (wq.q_detach p.workers).0) [
    | inl empty ↦
        let p' : PoolCore wq.Queue H L T = record p { workers = (wq.q_detach p.workers).1 } in
        detach-nothing wq (relabel g p) empty
        ∙ retrieve_new-relabel p'
        ∙ ap (λ r. (r.0, relabel g r.1)) (sym (detach-nothing wq p empty))
    | inr (w, found) ↦
        detach-found wq (relabel g p) w found
        ∙ ap (λ r. (r.0, relabel g r.1)) (sym (detach-found wq p w found))
  ]

  deliver-relabel :
      (t : T) (r : Retrieved × PoolCore wq.Queue H L T)
      → deliver wq (g t) (r.0, relabel g r.1)
        ≡ (relabel_submitted g (deliver wq t r).0, relabel g (deliver wq t r).1)
  unfolding deliver send
  deliver-relabel t (got w, p) = refl
  deliver-relabel t (failed e, p) = refl
  deliver-relabel t (blocked n, p) = refl

  pub try_submit-relabel :
      (t : T) (p : PoolCore wq.Queue H L T)
      → try_submit wq (g t) (relabel g p)
        ≡ (relabel_submitted g (try_submit wq t p).0, relabel g (try_submit wq t p).1)
  unfolding try_submit
  try_submit-relabel t p = elim (Bool-cases (is_closed p)) [
    | inl shut ↦ rw shut refl
    | inr live ↦
        rw live
          (ap (deliver wq (g t)) (retrieve_pass-relabel p) ∙ deliver-relabel t (retrieve_pass wq p))
  ]

  pub resume_submit-relabel :
      (t : T) (p : PoolCore wq.Queue H L T)
      → resume_submit wq (g t) (relabel g p)
        ≡ (relabel_submitted g (resume_submit wq t p).0, relabel g (resume_submit wq t p).1)
  unfolding resume_submit resume add_waiting
  resume_submit-relabel t p = elim (Bool-cases (is_closed p)) [
    | inl shut ↦ rw shut (
        deliver-relabel t (failed pool_closed, record p { waiting = add_i32 p.waiting (negsuc 0) }))
    | inr live ↦
        let p' : PoolCore wq.Queue H L T = record p { waiting = add_i32 p.waiting (negsuc 0) } in
        rw live (
          ap (deliver wq (g t)) (retrieve_pass-relabel p')
          ∙ deliver-relabel t (retrieve_pass wq p'))
  ]

  exit_worker-relabel :
      (w : ℕ) (p : PoolCore wq.Queue H L T)
      → exit_worker wq w (relabel g p) ≡ relabel g (exit_worker wq w p)
  unfolding exit_worker add_running recycle
  exit_worker-relabel w p =
      elim (Bool-cases (eqb_ℤ (add_i32 p.running (negsuc 0)) (pos 0) && is_closed p)) [
        | inl last ↦ rw last refl
        | inr more ↦ rw more refl
      ]

  revert_locked-relabel :
      (w : ℕ) (p : PoolCore wq.Queue H L T)
      → revert_locked wq w (relabel g p)
        ≡ ((revert_locked wq w p).0, relabel g (revert_locked wq w p).1)
  unfolding revert_locked
  revert_locked-relabel w p = elim (Bool-cases (is_closed p)) [
    | inl shut ↦ rw shut refl
    | inr live ↦ elim (Result-cases (wq.q_insert p.workers w).0) [
      | inl (u, done) ↦ rw (live, done) refl
      | inr (e, full) ↦ rw (live, full) refl
    ]
  ]

  revert_worker-relabel :
      (w : ℕ) (p : PoolCore wq.Queue H L T)
      → revert_worker wq w (relabel g p)
        ≡ ((revert_worker wq w p).0, relabel g (revert_worker wq w p).1)
  unfolding revert_worker revert_begin set_last_used_time
  revert_worker-relabel w p =
      elim (Bool-cases ((ltb_ℤ (pos 0) (cap p) && ltb_ℤ (cap p) p.running) || is_closed p)) [
        | inl refused_now ↦ rw refused_now refl
        | inr going ↦ rw going (
            revert_locked-relabel w
              (record p { last_used = λ v. if v == w then p.now else p.last_used v }))
      ]

  pub work_round-relabel :
      (w : ℕ) (m : Message T) (outcome : Outcome) (p : PoolCore wq.Queue H L T)
      → work_round wq w (relabel_message g m) outcome (relabel g p)
        ≡ ((work_round wq w m outcome p).0, relabel g (work_round wq w m outcome p).1)
  unfolding work_round
  work_round-relabel w finish outcome p = ap (λ q. (false, q)) (exit_worker-relabel w p)
  work_round-relabel w (payload t) stopped p = ap (λ q. (false, q)) (exit_worker-relabel w p)
  work_round-relabel w (payload t) panicked p = ap (λ q. (false, q)) (exit_worker-relabel w p)
  work_round-relabel w (payload t) ran p = elim (Bool-cases (revert_worker wq w p).0) [
    | inl kept ↦ rw (revert_worker-relabel w p, kept) refl
    | inr refused_now ↦
        rw (revert_worker-relabel w p, refused_now)
          (ap (λ q. (false, q)) (exit_worker-relabel w (revert_worker wq w p).1))
  ]

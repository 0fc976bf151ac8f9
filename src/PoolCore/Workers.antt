-- ===== src/PoolCore/Workers.antt =====
-- How submitters get a worker and how workers come back: `retrieve_worker` and `revert_worker` of
-- src/pool_common.rs, `run` and `work` of src/worker.rs.
-- Each function is what one thread does without waiting. Where the code waits on the condition
-- variable, the function ends with `blocked`, and `resume` goes on after the wake-up.
use ants.Base.{
  Option, ℕ, ◌≡◌, refl, Option, Bool, true, false, not, ◌&&◌, ◌||◌, none, some, if◌then◌else◌,
}
use ants.Base.Int.{ℤ, pos, negsuc, leb_ℤ, ltb_ℤ, eqb_ℤ}
use ants.Cond.{register, signal, broadcast}
use ants.Context.{close}
use ants.Error.{Error, ok, err, pool_closed, pool_overload}
use ants.WorkerQueue.{WorkerQueue}
use ants.PoolCore.{
  PoolCore, Message, payload, finish, is_closed, cap, add_running, add_waiting, recycle,
  fetch_cached_worker, set_last_used_time, send,
}

-- Where a pass through the loop of `retrieve_worker` ends.
pub data Retrieved : Type 0 where
  got : ℕ → Retrieved
  failed : Error → Retrieved
  blocked : ℕ → Retrieved

-- What running a payload came to, `CallResult`: it was the stop sentinel, it ran, or it panicked.
pub data Outcome : Type 0 where
  stopped ran panicked : Outcome

-- Where a submission ends: with the worker that was sent the payload, with an error and the payload
-- back, or in the wait of `retrieve_worker`.
pub data Submitted (T : Type 0) : Type 0 where
  delivered : ℕ → Submitted T
  refused : Error → T → Submitted T
  waits : ℕ → Submitted T

-- `map_err(|(err, _)| err)`.
abbrev pub answer : {T : Type 0} → Submitted T → Retrieved
answer (delivered w) = got w
answer (refused e task) = failed e
answer (waits g) = blocked g

module _ (wq : WorkerQueue ℕ) {H L T : Type 0} where
  -- `worker::run`: the new thread is counted. That it can be made is taken for granted.
  unfoldable pub spawn_worker : PoolCore wq.Queue H L T → ℕ × PoolCore wq.Queue H L T
  spawn_worker p = let (w, p') = fetch_cached_worker p in (w, (add_running (pos 1) p').1)

  -- The bail-out test of `retrieve_worker`.
  unfoldable pub bails_out : PoolCore wq.Queue H L T → Bool
  bails_out p =
      p.options.nonblocking
      || (not (eqb_ℤ p.options.max_blocking_tasks (pos 0))
          && leb_ℤ p.options.max_blocking_tasks p.waiting)

  -- The first thing that a pass does.
  unfoldable pub look : PoolCore wq.Queue H L T → Option ℕ × PoolCore wq.Queue H L T
  look p =
      let (detached, workers) = wq.q_detach p.workers in (detached, record p { workers = workers })

  -- The test for a new worker, with the capacity that was read before.
  abbrev pub has_room : ℤ → PoolCore wq.Queue H L T → Bool
  has_room capacity p = eqb_ℤ capacity (negsuc 0) || ltb_ℤ p.running capacity

  -- The end of a pass that may make no worker.
  abbrev pub wait_or_fail : PoolCore wq.Queue H L T → Retrieved × PoolCore wq.Queue H L T
  wait_or_fail p =
      if bails_out p
      then (failed pool_overload, p)
      else let (generation, cond) = register p.cond in
        (blocked generation, record (add_waiting (pos 1) p) { cond = cond })

  -- The rest of a pass, where the queue had no worker.
  unfoldable pub retrieve_new : PoolCore wq.Queue H L T → Retrieved × PoolCore wq.Queue H L T
  retrieve_new p =
      if has_room (cap p) p then (let (w, p') = spawn_worker p in (got w, p')) else wait_or_fail p

  -- One pass through the loop of `retrieve_worker`, under the lock.
  unfoldable pub retrieve_pass : PoolCore wq.Queue H L T → Retrieved × PoolCore wq.Queue H L T
  retrieve_pass p =
      let (detached, p') = look p in elim detached [ some w ↦ (got w, p') | none ↦ retrieve_new p' ]

  -- The two ways a pass can go.
  pub detach-nothing :
      (p : PoolCore wq.Queue H L T)
      → (wq.q_detach p.workers).0 ≡ none
      → retrieve_pass p ≡ retrieve_new (record p { workers = (wq.q_detach p.workers).1 })
  unfolding retrieve_pass retrieve_new look
  detach-nothing p empty = rw (empty, retrieve_pass) refl

  pub detach-found :
      (p : PoolCore wq.Queue H L T) (w : ℕ)
      → (wq.q_detach p.workers).0 ≡ some w
      → retrieve_pass p ≡ (got w, record p { workers = (wq.q_detach p.workers).1 })
  unfolding retrieve_pass look
  detach-found p w found = rw (found, retrieve_pass) refl

  -- After `self.cond.wait(workers)` has returned with the lock.
  unfoldable pub resume : PoolCore wq.Queue H L T → Retrieved × PoolCore wq.Queue H L T
  resume p =
      let p' = add_waiting (negsuc 0) p in
      if is_closed p' then (failed pool_closed, p') else retrieve_pass p'

  -- `revert_worker` up to the lock: `false` where the worker is not to come back.
  unfoldable pub revert_begin : ℕ → PoolCore wq.Queue H L T → Bool × PoolCore wq.Queue H L T
  revert_begin w p =
      if (ltb_ℤ (pos 0) (cap p) && ltb_ℤ (cap p) p.running) || is_closed p
      then (false, record p { cond = broadcast p.cond })
      else (true, set_last_used_time w p.now p)

  -- `revert_worker` under the lock.
  unfoldable pub revert_locked : ℕ → PoolCore wq.Queue H L T → Bool × PoolCore wq.Queue H L T
  revert_locked w p = if is_closed p then (false, p) else elim (wq.q_insert p.workers w).0 [
    | err e ↦ (false, record p { workers = (wq.q_insert p.workers w).1 })
    | ok _ ↦ (true, record p { workers = (wq.q_insert p.workers w).1; cond = signal p.cond })
  ]

  unfoldable pub revert_worker : ℕ → PoolCore wq.Queue H L T → Bool × PoolCore wq.Queue H L T
  revert_worker w p =
      let (kept, p') = revert_begin w p in if kept then revert_locked w p' else (false, p')

  -- The epilogue of `work`, the report of a panic left out.
  unfoldable pub exit_worker : ℕ → PoolCore wq.Queue H L T → PoolCore wq.Queue H L T
  exit_worker w p =
      let (count, p1) = add_running (negsuc 0) p in
      let p2 =
        if eqb_ℤ count (pos 0) && is_closed p1
        then record p1 { all_done = close p1.all_done }
        else p1 in
      let p3 = recycle w p2 in record p3 { cond = signal p3.cond }

  -- One round of the loop of `work`, from a message received to the next receive or to the end of
  -- the thread: `true` where the thread goes on. `outcome` is what a payload came to.
  unfoldable pub work_round :
      ℕ → Message T → Outcome → PoolCore wq.Queue H L T → Bool × PoolCore wq.Queue H L T
  work_round w finish outcome p = (false, exit_worker w p)
  work_round w (payload _) stopped p = (false, exit_worker w p)
  work_round w (payload _) panicked p = (false, exit_worker w p)
  work_round w (payload _) ran p =
      let (kept, p') = revert_worker w p in if kept then (true, p') else (false, exit_worker w p')

  -- What a submission makes of the result of `retrieve_worker`.
  unfoldable pub deliver :
      T → Retrieved × PoolCore wq.Queue H L T → Submitted T × PoolCore wq.Queue H L T
  deliver task (got w, p) = (delivered w, send w (payload task) p)
  deliver task (failed e, p) = (refused e task, p)
  deliver task (blocked g, p) = (waits g, p)

  -- `try_submit` of src/pool.rs up to its end, or to the wait in `retrieve_worker`.
  unfoldable pub try_submit : T → PoolCore wq.Queue H L T → Submitted T × PoolCore wq.Queue H L T
  try_submit task p =
      if is_closed p then (refused pool_closed task, p) else deliver task (retrieve_pass p)

  -- The rest of it, after the wake-up.
  unfoldable pub resume_submit : T → PoolCore wq.Queue H L T → Submitted T × PoolCore wq.Queue H L T
  resume_submit task p = deliver task (resume p)

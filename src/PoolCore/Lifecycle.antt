-- ===== src/PoolCore/Lifecycle.antt =====
-- A pool is made, tuned, released and rebooted: src/pool_common.rs. A wait is a test whether it is
-- over; the wall clock is an argument.
use ants.Base.{
  ℕ, Bool, true, false, not, ◌&&◌, ◌||◌, Option, none, some, [], ◌∷◌, ◌++◌, if◌then◌else◌, length,
}
use ants.Base.Int.{ℤ, pos, negsuc, leb_ℤ, ltb_ℤ, eqb_ℤ}
use ants.Base.Word.{sub_i32}
use ants.Cond.{signal, broadcast}
use ants.Context.{new_event, with_cancel, close}
use ants.Duration.{second}
use ants.Error.{Error, Result, ok, err, pool_closed, timeout, deadline_exceeded}
use ants.WorkerQueue.{WorkerQueue}
use ants.PoolCore.{PoolCore, opened, closed, is_closed, cap, send_finish, cancel_taken}

module _ {Q H L T : Type 0} where
  -- The new thread is made: the panic of `expect` where the system has none to give is left out, here
  -- and in `go_ticktock`.
  unfoldable pub go_purge : PoolCore Q H L T → PoolCore Q H L T
  go_purge p = if p.options.disable_purge then p else record p {
    contexts = p.contexts ++ (with_cancel ∷ []);
    purge_ctx = some (length p.contexts);
    stop_purge = some (length p.contexts);
  }

  unfoldable pub go_ticktock : ℤ → PoolCore Q H L T → PoolCore Q H L T
  go_ticktock now p = record p {
    now = now;
    contexts = p.contexts ++ (with_cancel ∷ []);
    ticktock_ctx = some (length p.contexts);
    stop_ticktock = some (length p.contexts);
  }

  -- A change of the capacity, and the wake-ups that a larger one calls for.
  unfoldable pub tune : ℤ → PoolCore Q H L T → PoolCore Q H L T
  tune size p =
      if eqb_ℤ (cap p) (negsuc 0) || leb_ℤ size (pos 0) || eqb_ℤ size (cap p) || p.options.pre_alloc
      then p
      else if ltb_ℤ (cap p) size
      then if eqb_ℤ (sub_i32 size (cap p)) (pos 1)
        then record p { capacity = size; cond = signal p.cond }
        else record p { capacity = size; cond = broadcast p.cond }
      else record p { capacity = size }

  -- The guard of `release_context`.
  unfoldable pub already_released : PoolCore Q H L T → Bool
  already_released p =
      is_closed p
      || (not p.options.disable_purge && is_none p.stop_purge)
      || is_none p.stop_ticktock
    where
      is_none : Option ℕ → Bool
      is_none none = true
      is_none (some i) = false

  -- All that `release_context` waits for at the end of a round.
  unfoldable pub all_stopped : PoolCore Q H L T → Bool
  all_stopped p =
      eqb_ℤ p.running (pos 0)
      && (p.options.disable_purge || eqb_ℤ p.purge_done (pos 1))
      && eqb_ℤ p.ticktock_done (pos 1)

  -- What `reboot` waits for, before its compare-exchange.
  unfoldable pub ready_to_reboot : PoolCore Q H L T → Bool
  ready_to_reboot p =
      p.all_done.closed
      && (p.options.disable_purge || eqb_ℤ p.purge_done (pos 1))
      && eqb_ℤ p.ticktock_done (pos 1)

  -- The end of `reboot`, part by part: its compare-exchange, the threads, and the new latch.
  abbrev pub reopen : PoolCore Q H L T → PoolCore Q H L T
  reopen p = record p { state = opened }

  abbrev pub restart_purge : PoolCore Q H L T → PoolCore Q H L T
  restart_purge p = go_purge (record p { purge_done = pos 0 })

  abbrev pub restart_clock : ℤ → PoolCore Q H L T → PoolCore Q H L T
  restart_clock now p = go_ticktock now (record p { ticktock_done = pos 0 })

  abbrev pub renew_latch : PoolCore Q H L T → PoolCore Q H L T
  renew_latch p = record p { all_done = new_event }

  -- All of it, where nothing comes between.
  unfoldable pub restart : ℤ → PoolCore Q H L T → PoolCore Q H L T
  restart now p = renew_latch (restart_clock now (restart_purge (reopen p)))

  -- `none` where it would wait.
  unfoldable pub reboot : ℤ → PoolCore Q H L T → Option (PoolCore Q H L T)
  reboot now p =
      if not (is_closed p) then some p else if ready_to_reboot p then some (restart now p) else none

-- One round of the waiting loop of `release_context`.
pub data Poll : Type 0 where
  again : Poll
  done : Result (Unit {0}) → Poll

module _ {Q H L T : Type 0} where
  -- The end of a round, after its waits; `second` is what `ctx.err()` answers there.
  unfoldable pub finish_round : Option Error → PoolCore Q H L T → Poll
  finish_round second p =
      if all_stopped p then done (ok tt) else elim second [ some e ↦ done (err e) | none ↦ again ]

  -- `first` is what `ctx.err()` answers at its first place; `latched` is whether the latch is
  -- seen closed during its timed wait. Then the round waits for the contexts of the two background
  -- threads.
  unfoldable pub release_round : Option Error → Bool → Option Error → PoolCore Q H L T → Poll
  release_round first latched second p =
      if not p.all_done.closed
      then elim first [
        | some e ↦ done (err e)
        | none ↦ if latched then finish_round second p else again
      ]
      else finish_round second p

-- What `release_timeout` makes of the result.
unfoldable pub map_timeout : Result (Unit {0}) → Result (Unit {0})
map_timeout (err deadline_exceeded) = err timeout
map_timeout other = other

module _ (wq : WorkerQueue ℕ) {H L T : Type 0} where
  unfoldable pub reset_workers : PoolCore wq.Queue H L T → PoolCore wq.Queue H L T
  reset_workers p =
      let (finished, workers) = wq.q_reset p.workers in
      send_finish finished (record p { workers = workers })

  -- `release` from its compare-exchange to the lock.
  unfoldable pub begin_close : PoolCore wq.Queue H L T → PoolCore wq.Queue H L T
  begin_close p = record p {
    state = closed;
    stop_purge = none;
    stop_ticktock = none;
    contexts = cancel_taken p.stop_ticktock (cancel_taken p.stop_purge p.contexts);
  }

  -- `release` after the lock.
  unfoldable pub finish_close : PoolCore wq.Queue H L T → PoolCore wq.Queue H L T
  finish_close p =
      let p' = record p { cond = broadcast p.cond } in
      if eqb_ℤ p'.running (pos 0) then record p' { all_done = close p'.all_done } else p'

  -- `release` after its compare-exchange.
  unfoldable pub close_pool : PoolCore wq.Queue H L T → PoolCore wq.Queue H L T
  close_pool p = finish_close (reset_workers (begin_close p))

  -- `release`: only the call that finds the pool open does anything.
  unfoldable pub release : PoolCore wq.Queue H L T → PoolCore wq.Queue H L T
  release p = if eqb_ℤ p.state opened then close_pool p else p

  -- `release_context` up to its waiting loop; with no context, all of it.
  unfoldable pub release_context :
      PoolCore wq.Queue H L T → Result (Unit {0}) × PoolCore wq.Queue H L T
  release_context p = if already_released p then (err pool_closed, p) else (ok tt, release p)

-- ===== src/PoolCore/Background.antt =====
-- The two background threads of a pool: `purge_stale_workers` and `ticktock` of
-- src/pool_common.rs. A round is what the thread does after a tick; `fired` is whether its context
-- was cancelled instead. A round ends with `true` where the thread goes on.
use ants.Base.{
  ℕ, Bool, true, false, ◌&&◌, ◌||◌, Option, none, some, List, ◌==◌, if◌then◌else◌, length,
}
use ants.Base.Int.{ℤ, pos, ltb_ℤ, eqb_ℤ}
use ants.Base.Word.{i32_as_usize}
use ants.Cond.{broadcast}
use ants.WorkerQueue.{WorkerQueue}
use ants.PoolCore.{PoolCore, is_closed, send_finish}

module _ {Q H L T : Type 0} where
  unfoldable pub ticktock_round : Bool → ℤ → PoolCore Q H L T → Bool × PoolCore Q H L T
  ticktock_round fired clock p =
      if fired || is_closed p
      then (false, record p { ticktock_done = pos 1 })
      else (true, record p { now = clock })

  -- No worker runs, or all that run are stale.
  unfoldable pub is_dormant : PoolCore Q H L T → List ℕ → Bool
  is_dormant p stale = eqb_ℤ p.running (pos 0) || (i32_as_usize p.running == length stale)

  -- The wake-up at the end of a round.
  unfoldable pub wake_dormant : Bool → PoolCore Q H L T → PoolCore Q H L T
  wake_dormant dormant p =
      if dormant && ltb_ℤ (pos 0) p.waiting then record p { cond = broadcast p.cond } else p

module _ (wq : WorkerQueue ℕ) {H L T : Type 0} where
  -- What a round does under the lock: the stale workers, and whether the pool is dormant. `none` is
  -- a panic of `refresh`.
  unfoldable pub purge_scan :
      ℤ → PoolCore wq.Queue H L T → Option ((List ℕ × Bool) × PoolCore wq.Queue H L T)
  purge_scan clock p = elim (wq.q_refresh p.last_used clock p.workers p.options.expiry_duration) [
    | none ↦ none
    | some r ↦ some ((r.0, is_dormant p r.0), record p { workers = r.1 })
  ]

  unfoldable pub purge_round :
      Bool → ℤ → PoolCore wq.Queue H L T → Option (Bool × PoolCore wq.Queue H L T)
  purge_round fired clock p =
      if fired || is_closed p
      then some (false, record p { purge_done = pos 1 })
      else elim (purge_scan clock p) [
        | none ↦ none
        | some ((gone, dormant), p1) ↦ some (true, wake_dormant dormant (send_finish gone p1))
      ]

-- ===== src/PoolCore/System/Drained.antt =====
-- A closed pool winds down: the releases that have begun end, the workers and their threads come to
-- their end, and the last one closes the latch that `release_timeout` of src/pool_common.rs waits
-- for.
use ants.Base.{ℕ, ◌≡◌, List}
use ants.WorkerQueue.{WorkerQueue}
use ants.PoolCore.{PoolCore}
use ants.PoolCore.System.{System, Ending, Reach}
use ants.PoolCore.System.Mail.{Mail}
use ants.PoolCore.System.Drain.{Calm}

module _ (wq : WorkerQueue ℕ) (bound : ℕ) {H L T : Type 0} where
  -- A way on to a calm state with these threads at their end, and the same workers outside.
  abbrev Ended : System wq.Queue H L T → List (ℕ × Ending) → Type 0
  Ended s rest =
      (u : System wq.Queue H L T) × Reach wq bound s u
      × Calm wq bound u
      × (u.out ≡ s.out)
      × (u.ending ≡ rest)

  -- A way on to a calm state.
  abbrev Calmed : System wq.Queue H L T → Type 0
  Calmed s = (u : System wq.Queue H L T) × Reach wq bound s u × Calm wq bound u

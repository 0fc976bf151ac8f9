-- ===== src/PoolCore/Create.antt =====
-- A pool is made: `PoolCore::new` of src/pool_common.rs.
use ants.Base.{ℕ, Option, none, some, List, [], if◌then◌else◌}
use ants.Base.Int.{ℤ, pos, negsuc, leb_ℤ, eqb_ℤ}
use ants.Cond.{no_waiters}
use ants.Context.{new_event}
use ants.Duration.{zero_duration, second, lt_duration, eq_duration}
use ants.Error.{Result, ok, err, invalid_pool_expiry, invalid_pre_alloc_size}
use ants.Options.{Options, Opt, load_options, logger_or}
use ants.WorkerQueue.{BoxedQueue, new_worker_queue, stack_type, loop_queue_type}
use ants.PoolCore.{PoolCore, opened}
use ants.PoolCore.Lifecycle.{go_purge, go_ticktock}

abbrev pub normal_size : ℤ → ℤ
normal_size size = if leb_ℤ size (pos 0) then negsuc 0 else size

module _ {H L : Type 0} where
  -- The expiry is checked unless purging is off; zero stands for the default.
  unfoldable pub check_expiry : Options H L → Result (Options H L)
  check_expiry opts =
      if opts.disable_purge
      then ok opts
      else if lt_duration opts.expiry_duration zero_duration
      then err invalid_pool_expiry
      else if eq_duration opts.expiry_duration zero_duration
      then ok (record opts { expiry_duration = second })
      else ok opts

  unfoldable pub with_default_logger : L → Options H L → Options H L
  with_default_logger default_logger opts = record opts {
    logger = some (logger_or default_logger opts);
  }

module _ {H L T : Type 0} where
  unfoldable pub fresh_pool : ℤ → Options H L → BoxedQueue ℕ → PoolCore (BoxedQueue ℕ) H L T
  fresh_pool size opts workers = record {
    capacity = size;
    running = pos 0;
    workers = workers;
    state = opened;
    cond = no_waiters;
    all_done = new_event;
    worker_cache = [];
    waiting = pos 0;
    purge_done = pos 0;
    purge_ctx = none;
    stop_purge = none;
    ticktock_done = pos 0;
    ticktock_ctx = none;
    stop_ticktock = none;
    now = pos 0;
    options = opts;
    contexts = [];
    made = 0;
    last_used = λ w. pos 0;
    sent = [];
  }

  -- The end of `PoolCore::new`, from the queue on; a queue that is not made is a panic.
  unfoldable pub start_pool :
      ℤ → ℤ → Options H L → Option (BoxedQueue ℕ) → Option (Result (PoolCore (BoxedQueue ℕ) H L T))
  start_pool now size opts queue = elim queue [
    | none ↦ none
    | some workers ↦ some (ok (go_ticktock now (go_purge (fresh_pool size opts workers))))
  ]

  -- `PoolCore::new` after the options are loaded and checked.
  unfoldable pub build : ℤ → ℤ → Options H L → Option (Result (PoolCore (BoxedQueue ℕ) H L T))
  build now size opts =
      if opts.pre_alloc
      then if eqb_ℤ size (negsuc 0)
        then some (err invalid_pre_alloc_size)
        else start_pool now size opts (new_worker_queue loop_queue_type size)
      else start_pool now size opts (new_worker_queue stack_type (pos 0))

  unfoldable pub new : L → ℤ → ℤ → List (Opt H L) → Option (Result (PoolCore (BoxedQueue ℕ) H L T))
  new default_logger now size options = elim (check_expiry (load_options options)) [
    | err e ↦ some (err e)
    | ok opts ↦ build now (normal_size size) (with_default_logger default_logger opts)
  ]

-- ===== src/PoolCore/Created.antt =====
-- What `PoolCore::new` makes of its arguments.
use ants.Base.{
  ℕ, suc, ◌*◌, ◌≤◌, ◌<◌, ◌≡◌, refl, sym, subst, ◌⊎◌, inl, inr, true, false, some, List, [], arith,
  Bool-cases,
}
use ants.Base.Int.{ℤ, pos, negsuc, eqb_ℤ, ◌<ℤ◌, ◌≤ℤ◌, ltb_ℤ→<ℤ, ltb_ℤ-false}
use ants.Base.Word.{i32_half}
use ants.Cond.{no_waiters}
use ants.Duration.{zero_duration, second, lt_duration, eq_duration}
use ants.Error.{ok, err, invalid_pool_expiry}
use ants.Options.{Options, Opt, load_options}
use ants.WorkerQueue.{BoxedQueue}
use ants.WorkerQueue.Laws.{new_ring-Idle, new_stack-Idle, boxed_queue, Idle}
use ants.WorkerQueue.Small.{Small, new_ring-Small, new_stack-Small}
use ants.PoolCore.{PoolCore, opened}
use ants.PoolCore.Lifecycle.{go_purge, go_ticktock}
use ants.PoolCore.Create.{
  normal_size, check_expiry, with_default_logger, fresh_pool, start_pool, build, new,
}
use ants.PoolCore.Counted.{Counted}

-- The expiry gives one error, where purging is on and the expiry is negative.
check_expiry_lem :
    {H L : Type 0} (opts : Options H L)
    → ((check_expiry opts ≡ err invalid_pool_expiry)
        × (opts.disable_purge ≡ false)
        × (opts.expiry_duration.nanos <ℤ pos 0))
      ⊎ (((opts' : Options H L) × (check_expiry opts ≡ ok opts')
            × (opts'.pre_alloc ≡ opts.pre_alloc))
          × ((opts.disable_purge ≡ true) ⊎ (pos 0 ≤ℤ opts.expiry_duration.nanos)))
unfolding check_expiry
check_expiry_lem opts = elim (Bool-cases opts.disable_purge) [
  | inl off ↦ inr ((opts, rw off refl, refl), inl off)
  | inr on ↦ elim (Bool-cases (lt_duration opts.expiry_duration zero_duration)) [
    | inl below ↦ inl (rw (on, below) refl, on, ltb_ℤ→<ℤ opts.expiry_duration.nanos (pos 0) below)
    | inr least ↦
        let positive = ltb_ℤ-false opts.expiry_duration.nanos (pos 0) least in
        elim (Bool-cases (eq_duration opts.expiry_duration zero_duration)) [
          | inl default ↦ inr (
            (record opts { expiry_duration = second }, rw (on, least, default) refl, refl),
            inr positive,
          )
          | inr given ↦ inr ((opts, rw (on, least, given) refl, refl), inr positive)
        ]
  ]
]

pub check_expiry-cases :
    {H L : Type 0} (opts : Options H L)
    → (check_expiry opts ≡ err invalid_pool_expiry)
      ⊎ ((opts' : Options H L) × (check_expiry opts ≡ ok opts')
          × (opts'.pre_alloc ≡ opts.pre_alloc))
check_expiry-cases opts = elim (check_expiry_lem opts) [
  | inl (bad, on, below) ↦ inl bad
  | inr (good, why) ↦ inr good
]

pub limited : (n : ℕ) → eqb_ℤ (pos (suc n)) (negsuc 0) ≡ false
limited n = ground arith

pub normal_size-pos : (n : ℕ) → normal_size (pos (suc n)) ≡ pos (suc n)
normal_size-pos n = ground arith

module _ {H L T : Type 0} where
  -- A pool as `start_pool` leaves it.
  pub record Started (size : ℤ) (q : BoxedQueue ℕ) (p : PoolCore (BoxedQueue ℕ) H L T)
      : Type 0 where
    pub sized : p.capacity ≡ size
    pub queue : p.workers ≡ q
    pub idle : p.running ≡ pos 0
    pub live : p.state ≡ opened
    pub nobody : p.waiting ≡ pos 0
    pub quiet : p.cond ≡ no_waiters
    pub no_cache : p.worker_cache ≡ []
    pub none_made : p.made ≡ 0

  pub start-Started :
      (now size : ℤ) (opts : Options H L) (q : BoxedQueue ℕ)
      → (p : PoolCore (BoxedQueue ℕ) H L T) × (start_pool now size opts (some q) ≡ some (ok p))
        × Started size q p
  unfolding start_pool go_ticktock go_purge fresh_pool
  start-Started now size opts q = elim (Bool-cases opts.disable_purge) [
    | inl off ↦ (
      go_ticktock now (go_purge (fresh_pool size opts q)),
      refl,
      rw off (record {
        sized = refl;
        queue = refl;
        idle = refl;
        live = refl;
        nobody = refl;
        quiet = refl;
        no_cache = refl;
        none_made = refl;
      }),
    )
    | inr on ↦ (
      go_ticktock now (go_purge (fresh_pool size opts q)),
      refl,
      rw on (record {
        sized = refl;
        queue = refl;
        idle = refl;
        live = refl;
        nobody = refl;
        quiet = refl;
        no_cache = refl;
        none_made = refl;
      }),
    )
  ]

  -- Without preallocation the queue is an empty stack; with it, an empty ring of a positive size.
  pub build-Started :
      (now : ℤ) (n : ℕ) (opts : Options H L)
      → (q : BoxedQueue ℕ) × (p : PoolCore (BoxedQueue ℕ) H L T) × (build now (pos (suc n)) opts
          ≡ some (ok p))
        × Started (pos (suc n)) q p
        × Idle q []
        × (3 * suc n ≤ i32_half → Small q)
  unfolding build
  build-Started now n opts = elim (Bool-cases opts.pre_alloc) [
    | inl ahead ↦
        let (q, made, holds) = new_ring-Idle {W = ℕ} (suc n) (omega arith) in
        let (p, eq, st) = start-Started now (pos (suc n)) opts q in
        (q, p, simp (ahead, made, limited n) eq, st, holds, λ h. new_ring-Small n q h made)
    | inr later ↦
        let (q, made, holds) = new_stack-Idle {W = ℕ} (pos 0) in
        let (p, eq, st) = start-Started now (pos (suc n)) opts q in
        (q, p, simp (later, made) eq, st, holds, λ h. new_stack-Small q made)
  ]

  -- For a positive size up to a bound below 2 ^ 31, and where its two background threads can be
  -- made, `new` does not panic. Where purging is on and the expiry is negative, it refuses; in every
  -- other case it makes an open pool of that capacity whose count of running workers is right with
  -- none outside the queue.
  pub new-Counted :
      (default_logger : L) (now : ℤ) (n bound : ℕ) (options : List (Opt H L))
      → suc n ≤ bound
      → bound < i32_half
      → let opts = load_options options in
        ((opts.disable_purge ≡ false)
          × (opts.expiry_duration.nanos <ℤ pos 0)
          × (new {T = T} default_logger now (pos (suc n)) options ≡ some (err invalid_pool_expiry)))
        ⊎ (((opts.disable_purge ≡ true) ⊎ (pos 0 ≤ℤ opts.expiry_duration.nanos))
            × ((p : PoolCore (BoxedQueue ℕ) H L T) × (new default_logger now (pos (suc n)) options
                  ≡ some (ok p))
                × (p.state ≡ opened)
                × (p.capacity ≡ pos (suc n))
                × Counted boxed_queue bound p 0))
  unfolding new with_default_logger
  new-Counted default_logger now n bound options within small =
      elim (check_expiry_lem (load_options options)) [
        | inl (bad, on, below) ↦ inl (on, below, rw (bad, new) refl)
        | inr ((opts, good, _), why) ↦
            let (q, p, eq, st, holds, _) =
              build-Started now n (with_default_logger default_logger opts) in
            inr (
              why,
              (
                p,
                rw (good, new, normal_size-pos n) eq,
                st.live,
                st.sized,
                record {
                  idle = [];
                  holds = subst (λ x. Idle x []) (sym st.queue) holds;
                  count = st.idle;
                  limit = omega arith;
                  room = n;
                  capped = st.sized;
                  within = within;
                  small = small;
                },
              ),
            )
      ]

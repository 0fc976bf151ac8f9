-- ===== src/PoolCore/System/Made.antt =====
-- A pool that `PoolCore::new` of src/pool_common.rs has made satisfies the invariants.
use ants.Base.{ℕ, suc, ◌*◌, ◌≤◌, ◌<◌, ◌≡◌, sym, ap, ◌∙◌, subst, inl, inr, some, List, [], arith}
use ants.Base.Int.{ℤ, pos}
use ants.Base.Word.{i32_half, wrap_i32-eq}
use ants.Error.{ok}
use ants.Options.{Opt, load_options}
use ants.WorkerQueue.{BoxedQueue}
use ants.WorkerQueue.Laws.{boxed_queue, Idle}
use ants.WorkerQueue.Small.{Small}
use ants.PoolCore.{PoolCore}
use ants.PoolCore.Create.{with_default_logger, new}
use ants.PoolCore.Created.{Started, check_expiry-cases, normal_size-pos, build-Started}
use ants.PoolCore.System.{alone}
use ants.PoolCore.System.Invariant.{Valid}

module _ {H L T : Type 0} where
  Started-Valid :
      {p : PoolCore (BoxedQueue ℕ) H L T} (n bound : ℕ) (q : BoxedQueue ℕ)
      → suc n ≤ bound
      → bound < i32_half
      → Idle q []
      → Small q
      → Started (pos (suc n)) q p
      → Valid boxed_queue bound (alone p)
  Started-Valid {p} n bound q within below holds small st = record {
    counted = record {
      idle = [];
      holds = subst (λ x. Idle x []) (sym st.queue) holds;
      count = st.idle;
      limit = omega arith;
      room = n;
      capped = st.sized;
      within = within;
      small = below;
    };
    read = λ t c eq. absurd (cc eq);
    room = λ t eq. absurd (cc eq);
    placed = record {
      idle = [];
      holds = subst (λ x. Idle x []) (sym st.queue) holds;
      small = subst Small (sym st.queue) small;
      once = λ w. rw (st.no_cache, st.none_made) (ground arith);
    };
    blocked = record {
      waiting = st.nobody ∙ sym (wrap_i32-eq (pos 0) (omega arith));
      parked = ap (λ c. c.parked) st.quiet;
      covered = rw st.quiet (omega arith);
    };
    latch = record {
      open_or_closed = inl st.live;
      latched = λ shut quiet over. absurd (cc (st.live, shut));
    };
  }

  -- For a positive size of at most a third of 2 ^ 31, up to a bound below 2 ^ 31, a pool that
  -- `new` returns satisfies all the invariants with nobody around it.
  pub new-Valid :
      {p : PoolCore (BoxedQueue ℕ) H L T} (default_logger : L) (now : ℤ) (n bound : ℕ)
      (options : List (Opt H L))
      → suc n ≤ bound
      → bound < i32_half
      → 3 * suc n ≤ i32_half
      → new default_logger now (pos (suc n)) options ≡ some (ok p)
      → Valid boxed_queue bound (alone p)
  unfolding new with_default_logger
  new-Valid {p} default_logger now n bound options within below third made =
      elim (check_expiry-cases (load_options options)) [
        | inl bad ↦ absurd (cc (rw (bad, new) at made))
        | inr (opts, good, _) ↦
            let (q, p', eq, st, holds, small) =
              build-Started now n (with_default_logger default_logger opts) in
            let same : p' ≡ p = cc (eq, rw (good, new, normal_size-pos n) at made) in
            subst (λ x. Valid boxed_queue bound (alone x)) same
              (Started-Valid n bound q within below holds (small third) st)
      ]

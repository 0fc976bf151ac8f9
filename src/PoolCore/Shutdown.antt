-- ===== src/PoolCore/Shutdown.antt =====
-- `release_timeout` of src/pool_common.rs: the guard of `release_context`, and the rounds of its loop
-- under a context with a timeout.
use mathlib.Core.Option
use ants.WorkerQueue.{WorkerQueue}
use ants.Base.{
  sym, Bool, true, false, not, if◌then◌else◌, subst, ℕ, ◌+◌, ◌≤◌, ◌≡◌, refl, ap, ◌⊎◌, inl, inr,
  Bool, true, Option, none, some, List, [], ◌∷◌, ◌++◌, arith, leb, leb→le, Bool-cases, Option-cases,
}
use ants.Duration.{Duration, to_std}
use ants.Error.{Error, Result, ok, err, timeout, deadline_exceeded, pool_closed}
use ants.Context.{with_timeout, ctx_err}
use ants.PoolCore.{PoolCore}
use ants.PoolCore.Lifecycle.{
  Poll, again, done, release_round, finish_round, all_stopped, map_timeout, already_released,
  release, release_context,
}

-- What a round sees: the time at the two places where it asks the context, whether the latch was
-- closed in its timed wait, and the pool. The latch of that pool is the one that the call took after
-- its release.
pub record Glance (Q H L T : Type 0) : Type 0 where
  pub early : ℕ
  pub latched : Bool
  pub late : ℕ
  pub pool : PoolCore Q H L T

-- A context with a timeout that nobody cancels gives one error, from its deadline on.
timeout_error :
    (start now : ℕ) (limit : Duration) (e : Error)
    → ctx_err now (with_timeout start limit) ≡ some e
    → (e ≡ deadline_exceeded) × (start + to_std limit ≤ now)
unfolding ctx_err with_timeout
timeout_error start now limit e over = elim (Bool-cases (leb (start + to_std limit) now)) [
  | inl past ↦
      let same : some deadline_exceeded ≡ some e = rw past at over in
      (cc same, leb→le (start + to_std limit) now past)
  | inr early ↦ absurd (cc (rw early at over))
]

late_error :
    (start now : ℕ) (limit : Duration)
    → start + to_std limit ≤ now
    → ctx_err now (with_timeout start limit) ≡ some deadline_exceeded
unfolding ctx_err with_timeout
late_error start now limit past = ground (arith, past)

poll-cases : (poll : Poll) → (poll ≡ again) ⊎ ((r : Result (Unit {0})) × (poll ≡ done r))
poll-cases again = inl refl
poll-cases (done r) = inr (r, refl)

-- A round, by what follows the wait for the latch.
gate : Option Error → Bool → Poll → Bool → Poll
gate first latched rest closed =
    if not closed
    then elim first [ some e ↦ done (err e) | none ↦ if latched then rest else again ]
    else rest

gate-done :
    (e : Error) (latched closed : Bool) (rest : Poll)
    → ((r : Result (Unit {0})) × (rest ≡ done r))
    → (r : Result (Unit {0})) × (gate (some e) latched rest closed ≡ done r)
unfolding gate
gate-done e latched true rest h = h
gate-done e latched false rest h = (err e, refl)

module _ {Q H L T : Type 0} where
  -- A round of a call with the timeout `limit` that began at the time `start`.
  abbrev pub timed_round : ℕ → Duration → Glance Q H L T → Poll
  timed_round start limit g =
      release_round (ctx_err g.early (with_timeout start limit)) g.latched
        (ctx_err g.late (with_timeout start limit)) g.pool

  -- The rounds; `none` where the call has not come back after these.
  unfoldable pub await_rounds : ℕ → Duration → List (Glance Q H L T) → Option (Result (Unit {0}))
  await_rounds start limit [] = none
  await_rounds start limit (g ∷ gs) =
      let rest = await_rounds start limit gs in
      elim (timed_round start limit g) [ again ↦ rest | done r ↦ some r ]

  -- What comes after the guard of `release_context` and its call of `release`.
  abbrev pub after_guard :
      ℕ → Duration → List (Glance Q H L T) → Result (Unit {0}) → Option (Result (Unit {0}))
  after_guard start limit gs (err e) = some (err e)
  after_guard start limit gs (ok _) = await_rounds start limit gs

  -- How a round can end, when it gets past the latch and in all.
  Ends : Option Error → Option Error → PoolCore Q H L T → Poll → Type 0
  Ends first second p poll =
      (poll ≡ again)
      ⊎ (((poll ≡ done (ok tt)) × (all_stopped p ≡ true))
          ⊎ ((e : Error) × (poll ≡ done (err e)) × ((first ≡ some e) ⊎ (second ≡ some e))))

  finish_round-Ends :
      (first second : Option Error) (p : PoolCore Q H L T)
      → Ends first second p (finish_round second p)
  unfolding finish_round Ends
  finish_round-Ends first second p = elim (Bool-cases (all_stopped p)) [
    | inl stopped ↦ inr (inl (rw stopped refl, stopped))
    | inr running ↦ elim (Option-cases second) [
      | inl live ↦ inl (rw (running, live) refl)
      | inr (e, over) ↦ inr (inr (e, rw (running, over) refl, inr over))
    ]
  ]

  gate-Ends :
      (first second : Option Error) (p : PoolCore Q H L T) (latched closed : Bool) (rest : Poll)
      → Ends first second p rest
      → Ends first second p (gate first latched rest closed)
  unfolding Ends gate
  gate-Ends first second p latched true rest h = h
  gate-Ends (some e) second p latched false rest h = inr (inr (e, refl, inl refl))
  gate-Ends none second p true false rest h = h
  gate-Ends none second p false false rest h = inl refl

  release_round-Ends :
      (first second : Option Error) (latched : Bool) (p : PoolCore Q H L T)
      → Ends first second p (release_round first latched second p)
  unfolding release_round gate
  release_round-Ends first second latched p =
      gate-Ends first second p latched p.all_done.closed (finish_round second p)
        (finish_round-Ends first second p)

  -- What one of the rounds has seen when the call comes back with the answer `r`: the pool has
  -- stopped, or the deadline has passed.
  abbrev pub Justified : ℕ → Duration → Result (Unit {0}) → Glance Q H L T → Type 0
  Justified start limit r g =
      ((r ≡ ok tt) × (all_stopped g.pool ≡ true))
      ⊎ ((r ≡ err timeout) × ((start + to_std limit ≤ g.early) ⊎ (start + to_std limit ≤ g.late)))

  round-Justified :
      (start : ℕ) (limit : Duration) (g : Glance Q H L T) (r : Result (Unit {0}))
      → timed_round start limit g ≡ done r
      → Justified start limit (map_timeout r) g
  unfolding Ends map_timeout
  round-Justified start limit g r ended =
      elim (release_round-Ends (ctx_err g.early (with_timeout start limit))
        (ctx_err g.late (with_timeout start limit)) g.latched g.pool) [
          | inl goes ↦ absurd (cc (goes, ended))
          | inr (inl (fine, stopped)) ↦
              let same : r ≡ ok tt = cc (fine, ended) in rw same (inl (refl, stopped))
          | inr (inr (e, bad, inl first)) ↦
              let same : r ≡ err e = cc (bad, ended) in
              let (which, past) = timeout_error start g.early limit e first in
              rw (same, which) (inr (refl, inl past))
          | inr (inr (e, bad, inr second)) ↦
              let same : r ≡ err e = cc (bad, ended) in
              let (which, past) = timeout_error start g.late limit e second in
              rw (same, which) (inr (refl, inr past))
        ]

  rounds-Justified :
      (start : ℕ) (limit : Duration) (gs : List (Glance Q H L T)) (r : Result (Unit {0}))
      → await_rounds start limit gs ≡ some r
      → (before after : List (Glance Q H L T)) × (g : Glance Q H L T) × (gs ≡ before ++ (g ∷ after))
        × Justified start limit (map_timeout r) g
  unfolding await_rounds
  rounds-Justified start limit [] r ended = absurd (cc ended)
  rounds-Justified start limit (g ∷ gs) r ended = elim (poll-cases (timed_round start limit g)) [
    | inl goes ↦
        let (before, after, h, split, right) =
          rounds-Justified start limit gs r (rw (goes, await_rounds) at ended) in
        (g ∷ before, after, h, ap (λ rest. g ∷ rest) split, right)
    | inr (r', stops) ↦
        let same : r' ≡ r = cc (rw (stops, await_rounds) at ended) in
        (
          [],
          gs,
          g,
          refl,
          subst (λ x. Justified start limit (map_timeout x) g) same
              (round-Justified start limit g r' stops),
        )
  ]

  finished_late :
      (p : PoolCore Q H L T) (e : Error)
      → (r : Result (Unit {0})) × (finish_round (some e) p ≡ done r)
  unfolding finish_round
  finished_late p e = elim (Bool-cases (all_stopped p)) [
    | inl stopped ↦ (ok tt, rw (stopped, finish_round) refl)
    | inr running ↦ (err e, rw (running, finish_round) refl)
  ]

  -- A round whose both questions come after the deadline is the last.
  pub late_round-ends :
      (start : ℕ) (limit : Duration) (g : Glance Q H L T)
      → start + to_std limit ≤ g.early
      → g.early ≤ g.late
      → (r : Result (Unit {0})) × (timed_round start limit g ≡ done r)
  unfolding release_round gate
  late_round-ends start limit g past later =
      rw
        (
          late_error start g.early limit past,
          late_error start g.late limit (omega (arith, past, later)),
        )
        (gate-done deadline_exceeded g.latched g.pool.all_done.closed
          (finish_round (some deadline_exceeded) g.pool) (finished_late g.pool deadline_exceeded))

mapped :
    (x : Option (Result (Unit {0}))) (r : Result (Unit {0}))
    → Option.map map_timeout x ≡ some r
    → (r' : Result (Unit {0})) × (x ≡ some r') × (map_timeout r' ≡ r)
mapped none r ended = absurd (cc ended)
mapped (some r') r ended = (r', refl, cc ended)

module _ (wq : WorkerQueue ℕ) {H L T : Type 0} where
  -- The call, from its guard on, and the pool as it leaves the guard and `release`.
  unfoldable pub release_timeout :
      ℕ
      → Duration
      → PoolCore wq.Queue H L T
      → List (Glance wq.Queue H L T)
      → Option (Result (Unit {0})) × PoolCore wq.Queue H L T
  release_timeout start limit p gs =
      let (r, p') = release_context wq p in
      (Option.map map_timeout (after_guard start limit gs r), p')

  -- Where `release_timeout` comes back, it is right. On a pool that was released before it changes
  -- nothing and answers that the pool is closed. Else it has called `release`, and answers with
  -- success where one of the rounds found that no worker runs and both background threads have
  -- stopped, and with the error of a timeout only where the deadline had passed.
  pub release_timeout-Justified :
      (start : ℕ) (limit : Duration) (p : PoolCore wq.Queue H L T)
      (gs : List (Glance wq.Queue H L T)) (r : Result (Unit {0}))
      → (release_timeout start limit p gs).0 ≡ some r
      → let p' = (release_timeout start limit p gs).1 in
        ((already_released p ≡ true) × (r ≡ err pool_closed) × (p' ≡ p))
        ⊎ ((already_released p ≡ false)
            × (p' ≡ release wq p)
            × ((before after : List (Glance wq.Queue H L T)) × (g : Glance wq.Queue H L T) × (gs
                  ≡ before ++ (g ∷ after))
                × Justified start limit r g))
  unfolding release_timeout release_context map_timeout
  release_timeout-Justified start limit p gs r ended = elim (Bool-cases (already_released p)) [
    | inl shut ↦ inl (shut, cc (sym (rw (shut, release_timeout) at ended)), rw shut refl)
    | inr live ↦
        let (r', came, same) =
          mapped (await_rounds start limit gs) r (rw (live, release_timeout) at ended) in
        let (before, after, g, split, right) = rounds-Justified start limit gs r' came in
        inr (
          live,
          rw live refl,
          (before, after, g, split, subst (λ x. Justified start limit x g) same right),
        )
  ]

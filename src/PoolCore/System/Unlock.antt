-- ===== src/PoolCore/System/Unlock.antt =====
-- The holder of the lock lets go of it: a pass of `retrieve_worker` of src/pool_common.rs comes to
-- its end, with a worker, an error or a wait, whatever the other threads have done.
use ants.Base.{ℕ, ◌≡◌, refl, ap, ◌∙◌, ◌⊎◌, inl, inr, none, some, Bool-cases, Option-cases, arith}
use ants.Base.Int.{ℤ, pos}
use ants.Cond.{register}
use ants.Error.{pool_overload}
use ants.WorkerQueue.{WorkerQueue}
use ants.PoolCore.{PoolCore, cap, add_waiting, add_running, fetch_cached_worker}
use ants.PoolCore.Workers.{failed, blocked, look, spawn_worker, has_room, bails_out, wait_or_fail}
use ants.PoolCore.System.{
  System, Held, free, starting, searched, comparing, spawning, full, Step, takes, finds_empty,
  reads, finds_room, finds_none, spawns, fails, parks, Reach, start, next,
}

module _ (wq : WorkerQueue ℕ) (bound : ℕ) {H L T : Type 0} where
  -- Runs follow one another.
  pub after_step :
      {s t u : System wq.Queue H L T} → Step wq bound s t → Reach wq bound t u → Reach wq bound s u
  after_step st start = next start st
  after_step st (next r last) = next (after_step st r) last

  pub runs_on :
      {s t u : System wq.Queue H L T} → Reach wq bound s t → Reach wq bound t u → Reach wq bound s u
  runs_on first start = first
  runs_on first (next r last) = next (runs_on first r) last

  -- A way on to a state where the lock is free, with the pool as closed or open as before.
  abbrev pub Freed : System wq.Queue H L T → Type 0
  Freed s =
      (t : System wq.Queue H L T) × Reach wq bound s t
      × (t.held ≡ free)
      × (t.pool.state ≡ s.pool.state)
      × (t.overtaken ≡ s.overtaken)

  also :
      (s t : System wq.Queue H L T)
      → Step wq bound s t
      → t.pool.state ≡ s.pool.state
      → t.overtaken ≡ s.overtaken
      → Freed t
      → Freed s
  also s t st same kept (u, r, unheld, same', kept') =
      (u, after_step st r, unheld, same' ∙ same, kept' ∙ kept)

  look-cases :
      (p : PoolCore wq.Queue H L T)
      → let p' : PoolCore wq.Queue H L T = record p { workers = (wq.q_detach p.workers).1 } in
        ((w : ℕ) × (look wq p ≡ (some w, p'))) ⊎ (look wq p ≡ (none, p'))
  unfolding look
  look-cases p =
      let p' : PoolCore wq.Queue H L T = record p { workers = (wq.q_detach p.workers).1 } in
      elim (Option-cases (wq.q_detach p.workers).0) [
        | inr (w, found) ↦ inl (w, ap (λ d. (d, p')) found)
        | inl empty ↦ inr (ap (λ d. (d, p')) empty)
      ]

  wait-cases :
      (p : PoolCore wq.Queue H L T)
      → (wait_or_fail wq p ≡ (failed pool_overload, p))
        ⊎ (wait_or_fail wq p ≡ (
          blocked (register p.cond).0,
          record (add_waiting (pos 1) p) { cond = (register p.cond).1 },
        ))
  wait-cases p = elim (Bool-cases (bails_out wq p)) [
    | inl bails ↦ inl (rw bails refl)
    | inr stays ↦ inr (rw stays refl)
  ]

  spawned_state : (p : PoolCore wq.Queue H L T) → (spawn_worker wq p).1.state ≡ p.state
  unfolding spawn_worker add_running fetch_cached_worker
  spawned_state p = ground arith

  full-Freed : (s : System wq.Queue H L T) (t : T) → s.held ≡ full t → Freed s
  unfolding add_waiting
  full-Freed s t h = elim (wait-cases s.pool) [
    | inl eq ↦ (_, next start (fails t pool_overload s.pool h eq), refl, refl, refl)
    | inr eq ↦ (_, next start (parks t (register s.pool.cond).0 _ h eq), refl, refl, refl)
  ]

  spawning-Freed : (s : System wq.Queue H L T) (t : T) → s.held ≡ spawning t → Freed s
  spawning-Freed s t h = (_, next start (spawns t h), refl, spawned_state s.pool, refl)

  comparing-Freed : (s : System wq.Queue H L T) (t : T) (c : ℤ) → s.held ≡ comparing t c → Freed s
  comparing-Freed s t c h = elim (Bool-cases (has_room wq c s.pool)) [
    | inl room ↦ also s _ (finds_room t c h room) refl refl (spawning-Freed _ t refl)
    | inr none_left ↦ also s _ (finds_none t c h none_left) refl refl (full-Freed _ t refl)
  ]

  searched-Freed : (s : System wq.Queue H L T) (t : T) → s.held ≡ searched t → Freed s
  searched-Freed s t h = also s _ (reads t h) refl refl (comparing-Freed _ t (cap s.pool) refl)

  starting-Freed : (s : System wq.Queue H L T) (t : T) → s.held ≡ starting t → Freed s
  starting-Freed s t h = elim (look-cases s.pool) [
    | inl (w, eq) ↦ (_, next start (takes t w _ h eq), refl, refl, refl)
    | inr eq ↦ also s _ (finds_empty t _ h eq) refl refl (searched-Freed _ t refl)
  ]

  at-Freed : (s : System wq.Queue H L T) (h : Held T) → s.held ≡ h → Freed s
  at-Freed s free h = (s, start, h, refl, refl)
  at-Freed s (starting t) h = starting-Freed s t h
  at-Freed s (searched t) h = searched-Freed s t h
  at-Freed s (comparing t c) h = comparing-Freed s t c h
  at-Freed s (spawning t) h = spawning-Freed s t h
  at-Freed s (full t) h = full-Freed s t h

  -- From any state the holder of the lock, if there is one, can go on alone until it lets go.
  pub unlocks : (s : System wq.Queue H L T) → Freed s
  unlocks s = at-Freed s s.held refl

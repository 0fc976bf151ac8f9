-- ===== src/PoolCore/System/Tasks.antt =====
-- The payloads of the submissions: where each one is, from the call that submits it to the worker
-- that has run it or the error that gives it back.
use ants.Base.{
  ℕ, ◌+◌, ◌≡◌, refl, ap, Bool, true, false, List, [], ◌∷◌, ◌++◌, map, arith, if◌then◌else◌,
}
use ants.Base.Count.{total, total-append, total-middle}
use ants.WorkerQueue.{WorkerQueue}
use ants.PoolCore.{Message, payload, finish}
use ants.PoolCore.Workers.{revert_begin, revert_locked}
use ants.PoolCore.System.{
  System, Held, free, starting, searched, comparing, spawning, full, Stage, granted, told, working,
  reverting, reinserting, leaving, tell, Step, rejects, enters, takes, finds_empty, reads,
  finds_room, finds_none, spawns, fails, parks, wakes, resumes, gives_up, sends, receives_task,
  receives_finish, runs, breaks, begins, returns, tunes, uncounts, looks, shuts, recycles, signals,
  stops_purging, scans, finishes, rouses, stale, closes, empties, latches, reopens, restarts_purge,
  restarts_clock, renews, ticks, Reach, start, next,
}

module _ {T : Type 0} (weight : T → ℕ) where
  -- The weight of the payload that the holder of the lock submits.
  abbrev pub held_weight : Held T → ℕ
  held_weight free = 0
  held_weight (starting t) = weight t
  held_weight (searched t) = weight t
  held_weight (comparing t c) = weight t
  held_weight (spawning t) = weight t
  held_weight (full t) = weight t

  -- Of the payload that a worker outside the queue is for, or runs.
  abbrev pub stage_weight : ℕ × Stage T → ℕ
  stage_weight (w, granted t) = weight t
  stage_weight (w, told) = 0
  stage_weight (w, stale) = 0
  stage_weight (w, working t) = weight t
  stage_weight (w, reverting) = 0
  stage_weight (w, reinserting) = 0
  stage_weight (w, leaving) = 0

  -- Of the payload in a message.
  abbrev pub message_weight : ℕ × Message T → ℕ
  message_weight (w, payload t) = weight t
  message_weight (w, finish) = 0

  -- Of the payload of a submitter that waits.
  abbrev pub sleeper_weight : ℕ × T → ℕ
  sleeper_weight sleeper = weight sleeper.1

module _ {T : Type 0} where
  told_all :
      (weight : T → ℕ) (gone : List ℕ)
      → (total (stage_weight weight) (map (λ w. (w, told)) gone) ≡ 0)
        × (total (message_weight weight) (map (λ w. (w, finish)) gone) ≡ 0)
  told_all weight [] = (refl, refl)
  told_all weight (w ∷ gone) =
      let rest = told_all weight gone in (omega (arith, rest.0), omega (arith, rest.1))

  none_stale :
      (weight : T → ℕ) (gone : List ℕ)
      → total (stage_weight weight) (map (λ w. (w, stale)) gone) ≡ 0
  none_stale weight [] = refl
  none_stale weight (w ∷ gone) = omega (arith, none_stale weight gone)

  returned_weight :
      (weight : T → ℕ) (before after : List (ℕ × Stage T)) (w : ℕ) (kept : Bool)
      → total
          (stage_weight weight)
          (if kept then before ++ after else before ++ ((w, leaving) ∷ after))
        ≡ total (stage_weight weight) (before ++ after)
  returned_weight weight before after w true = refl
  returned_weight weight before after w false =
      omega (arith, total-middle (stage_weight weight) before after (w, leaving))

  begun_weight :
      (weight : T → ℕ) (w : ℕ) (kept : Bool)
      → stage_weight weight (w, if kept then reinserting else leaving) ≡ 0
  begun_weight weight w true = refl
  begun_weight weight w false = refl

  -- The stages of a worker, before and after a step of it.
  out_weights :
      (weight : T → ℕ) {out : List (ℕ × Stage T)} (before after : List (ℕ × Stage T)) (w : ℕ)
      (a b : Stage T)
      → out ≡ before ++ ((w, a) ∷ after)
      → total (stage_weight weight) out + stage_weight weight (w, b)
        ≡ total (stage_weight weight) (before ++ ((w, b) ∷ after)) + stage_weight weight (w, a)
  out_weights weight before after w a b split = omega (
    arith,
    ap (total (stage_weight weight)) split,
    total-middle (stage_weight weight) before after (w, a),
    total-middle (stage_weight weight) before after (w, b),
  )

module _ {Q H L T : Type 0} where
  -- What has been submitted is with a submitter in `retrieve_worker` (at the lock, asleep or
  -- woken), with a worker, in a channel, refused or done.
  abbrev pub Tasks : (T → ℕ) → System Q H L T → Type 0
  Tasks weight s =
      total weight s.entered
      ≡ held_weight weight s.held
        + total (sleeper_weight weight) s.asleep
        + total weight s.awake
        + total (stage_weight weight) s.out
        + total (message_weight weight) s.inbox
        + total weight s.refused
        + total weight s.done

  tell-Tasks :
      (weight : T → ℕ) (s : System Q H L T) (gone : List ℕ)
      → Tasks weight s
      → Tasks weight (tell gone s)
  tell-Tasks weight s gone v =
      let (none_out, none_in) = told_all weight gone in
      omega (
        arith,
        v,
        none_out,
        none_in,
        total-append (stage_weight weight) (map (λ w. (w, told)) gone) s.out,
        total-append (message_weight weight) s.inbox (map (λ w. (w, finish)) gone),
      )

module _ (wq : WorkerQueue ℕ) (bound : ℕ) {H L T : Type 0} (weight : T → ℕ) where
  Step-Tasks : {s t : System wq.Queue H L T} → Step wq bound s t → Tasks weight s → Tasks weight t
  Step-Tasks (rejects t shut) v = omega (arith, v)
  Step-Tasks (enters t h) v = omega (arith, v, ap (held_weight weight) h)
  Step-Tasks (takes t w p' h eq) v = omega (arith, v, ap (held_weight weight) h)
  Step-Tasks (finds_empty t p' h eq) v = omega (arith, v, ap (held_weight weight) h)
  Step-Tasks (reads t h) v = omega (arith, v, ap (held_weight weight) h)
  Step-Tasks (finds_room t c h room) v = omega (arith, v, ap (held_weight weight) h)
  Step-Tasks (finds_none t c h none_left) v = omega (arith, v, ap (held_weight weight) h)
  Step-Tasks (spawns t h) v = omega (arith, v, ap (held_weight weight) h)
  Step-Tasks (fails t e p' h eq) v = omega (arith, v, ap (held_weight weight) h)
  Step-Tasks (parks t g p' h eq) v = omega (arith, v, ap (held_weight weight) h)
  Step-Tasks (wakes before after g t c split leaves) v = omega (
    arith,
    v,
    ap (total (sleeper_weight weight)) split,
    total-middle (sleeper_weight weight) before after (g, t),
  )
  Step-Tasks (resumes before after t split h live) v = omega (
    arith,
    v,
    ap (held_weight weight) h,
    ap (total weight) split,
    total-middle weight before after t,
  )
  Step-Tasks (gives_up before after t split h shut) v =
      omega (arith, v, ap (total weight) split, total-middle weight before after t)
  Step-Tasks {s} (sends before after w t split) v = omega (
    arith,
    v,
    out_weights weight before after w (granted t) told split,
    total-append (message_weight weight) s.inbox ((w, payload t) ∷ []),
  )
  Step-Tasks (receives_task before after early late w t split first oldest) v = omega (
    arith,
    v,
    out_weights weight before after w told (working t) split,
    ap (total (message_weight weight)) first,
    total-middle (message_weight weight) early late (w, payload t),
  )
  Step-Tasks (receives_finish before after early late w split first oldest) v = omega (
    arith,
    v,
    out_weights weight before after w told leaving split,
    ap (total (message_weight weight)) first,
    total-middle (message_weight weight) early late (w, finish),
  )
  Step-Tasks (runs before after w t split) v =
      omega (arith, v, out_weights weight before after w (working t) reverting split)
  Step-Tasks (breaks before after w t split) v =
      omega (arith, v, out_weights weight before after w (working t) leaving split)
  Step-Tasks {s} (begins before after w split) v = omega (
    arith,
    v,
    begun_weight weight w (revert_begin wq w s.pool).0,
    out_weights weight before after w reverting
        (if (revert_begin wq w s.pool).0 then reinserting else leaving) split,
  )
  Step-Tasks {s} (returns before after w split h) v = omega (
    arith,
    v,
    returned_weight weight before after w (revert_locked wq w s.pool).0,
    ap (total (stage_weight weight)) split,
    total-middle (stage_weight weight) before after (w, reinserting),
  )
  Step-Tasks (uncounts before after w split) v = omega (
    arith,
    v,
    ap (total (stage_weight weight)) split,
    total-middle (stage_weight weight) before after (w, leaving),
  )
  Step-Tasks (looks before after w count split) v = v
  Step-Tasks (shuts before after w split) v = v
  Step-Tasks (recycles before after w split) v = v
  Step-Tasks (signals n some_left) v = v
  Step-Tasks (tunes size fits) v = v
  Step-Tasks (closes live) v = v
  Step-Tasks {s} (empties n h some_closing) v = tell-Tasks weight s (wq.q_reset s.pool.workers).0 v
  Step-Tasks (latches n some_emptied) v = v
  Step-Tasks (reopens shut) v = v
  Step-Tasks (restarts_purge n some_left) v = v
  Step-Tasks (restarts_clock now n some_left) v = v
  Step-Tasks (renews n some_left) v = v
  Step-Tasks (ticks fired clock) v = v
  Step-Tasks stops_purging v = v
  Step-Tasks {s} (scans clock gone dormant p' h ran) v = omega (
    arith,
    v,
    none_stale weight gone,
    total-append (stage_weight weight) (map (λ w. (w, stale)) gone) s.out,
  )
  Step-Tasks {s} (finishes before after w split) v = omega (
    arith,
    v,
    out_weights weight before after w stale told split,
    total-append (message_weight weight) s.inbox ((w, finish) ∷ []),
  )
  Step-Tasks (rouses before after dormant split) v = v

  pub keeps-Tasks :
      {s t : System wq.Queue H L T} → Tasks weight s → Reach wq bound s t → Tasks weight t
  keeps-Tasks v start = v
  keeps-Tasks v (next r st) = Step-Tasks st (keeps-Tasks v r)

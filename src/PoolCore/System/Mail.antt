-- ===== src/PoolCore/System/Mail.antt =====
-- The channels of the workers: every message in them is to a worker that is outside the queue and
-- has yet to receive.
use ants.Base.{
  ℕ, ◌+◌, ◌≡◌, refl, ap, Bool, true, false, List, [], ◌∷◌, ◌++◌, map, ◌==◌, arith, if◌then◌else◌,
}
use ants.Base.Count.{total, total-append, total-middle}
use ants.WorkerQueue.{WorkerQueue}
use ants.PoolCore.{Message, payload, finish}
use ants.PoolCore.Workers.{revert_locked}
use ants.PoolCore.System.{
  System, Stage, granted, told, working, reverting, reinserting, leaving, mail, tell, Step, rejects,
  enters, takes, finds_empty, reads, finds_room, finds_none, spawns, fails, parks, wakes, resumes,
  gives_up, sends, receives_task, receives_finish, runs, breaks, begins, returns, tunes, uncounts,
  looks, shuts, recycles, signals, stops_purging, scans, finishes, rouses, stale, closes, empties,
  latches, reopens, restarts_purge, restarts_clock, renews, ticks, Reach, start, next,
}

-- Whether a worker outside the queue is `w` and has a message in its channel.
abbrev pub told_in : {T : Type 0} → ℕ → ℕ × Stage T → ℕ
told_in w (v, told) = if v == w then 1 else 0
told_in w (v, granted t) = 0
told_in w (v, stale) = 0
told_in w (v, working t) = 0
told_in w (v, reverting) = 0
told_in w (v, reinserting) = 0
told_in w (v, leaving) = 0

module _ (T : Type 0) where
  told_all :
      (gone : List ℕ) (x : ℕ)
      → mail {T = T} x (map (λ w. (w, finish)) gone)
        ≡ total (told_in {T = T} x) (map (λ w. (w, told)) gone)
  told_all [] x = refl
  told_all (w ∷ gone) x = ap (λ n. (if w == x then 1 else 0) + n) (told_all gone x)

  none_stale : (gone : List ℕ) (x : ℕ) → total (told_in {T = T} x) (map (λ w. (w, stale)) gone) ≡ 0
  none_stale [] x = refl
  none_stale (w ∷ gone) x = omega (arith, none_stale gone x)

  begun_mail :
      (w x : ℕ) (kept : Bool)
      → told_in {T = T} x (w, if kept then reinserting else leaving)
        ≡ told_in {T = T} x (w, reverting)
  begun_mail w x true = refl
  begun_mail w x false = refl

module _ {T : Type 0} where
  returned_mail :
      (before after : List (ℕ × Stage T)) (w x : ℕ) (kept : Bool)
      → total (told_in x) (if kept then before ++ after else before ++ ((w, leaving) ∷ after))
        ≡ total (told_in x) (before ++ after)
  returned_mail before after w x true = refl
  returned_mail before after w x false =
      omega (arith, total-middle (told_in x) before after (w, leaving))

module _ {Q H L T : Type 0} where
  -- A worker has as many messages in its channel as it stands outside the queue to receive.
  abbrev pub Mail : System Q H L T → Type 0
  Mail s = (x : ℕ) → mail x s.inbox ≡ total (told_in x) s.out

  restage-Mail :
      (s : System Q H L T) (before after : List (ℕ × Stage T)) (w : ℕ) (a b : Stage T)
      → s.out ≡ before ++ ((w, a) ∷ after)
      → ((x : ℕ) → told_in x (w, b) ≡ told_in x (w, a))
      → Mail s
      → Mail (record s { out = before ++ ((w, b) ∷ after) })
  restage-Mail s before after w a b split same v x = omega (
    arith,
    v x,
    same x,
    ap (total (told_in x)) split,
    total-middle (told_in x) before after (w, a),
    total-middle (told_in x) before after (w, b),
  )

  receive-Mail :
      (s : System Q H L T) (before after : List (ℕ × Stage T)) (early late : List (ℕ × Message T))
      (w : ℕ) (m : Message T) (b : Stage T)
      → s.out ≡ before ++ ((w, told) ∷ after)
      → s.inbox ≡ early ++ ((w, m) ∷ late)
      → ((x : ℕ) → told_in x (w, b) ≡ 0)
      → Mail s
      → Mail (record s { out = before ++ ((w, b) ∷ after); inbox = early ++ late })
  receive-Mail s before after early late w m b split first none v x = omega (
    arith,
    v x,
    none x,
    ap (total (told_in x)) split,
    ap (mail x) first,
    total-middle (told_in x) before after (w, told),
    total-middle (told_in x) before after (w, b),
    total-middle (λ r. if r.0 == x then 1 else 0) early late (w, m),
  )

  send-Mail :
      (s : System Q H L T) (before after : List (ℕ × Stage T)) (w : ℕ) (m : Message T) (a : Stage T)
      → s.out ≡ before ++ ((w, a) ∷ after)
      → ((x : ℕ) → told_in x (w, a) ≡ 0)
      → Mail s
      → Mail (record s { out = before ++ ((w, told) ∷ after); inbox = s.inbox ++ ((w, m) ∷ []) })
  send-Mail s before after w m a split none v x = omega (
    arith,
    v x,
    none x,
    ap (total (told_in x)) split,
    total-middle (told_in x) before after (w, a),
    total-middle (told_in x) before after (w, told),
    total-append (λ r. if r.0 == x then 1 else 0) s.inbox ((w, m) ∷ []),
  )

  tell-Mail : (s : System Q H L T) (gone : List ℕ) → Mail s → Mail (tell gone s)
  tell-Mail s gone v x = omega (
    arith,
    v x,
    told_all T gone x,
    total-append (told_in x) (map (λ w. (w, told)) gone) s.out,
    total-append (λ r. if r.0 == x then 1 else 0) s.inbox (map (λ w. (w, finish)) gone),
  )

module _ (wq : WorkerQueue ℕ) (bound : ℕ) {H L T : Type 0} where
  Step-Mail : {s t : System wq.Queue H L T} → Step wq bound s t → Mail s → Mail t
  Step-Mail (rejects t shut) v = v
  Step-Mail (enters t unheld) v = v
  Step-Mail (takes t w p' h eq) v = λ x. omega (arith, v x)
  Step-Mail (finds_empty t p' h eq) v = v
  Step-Mail (reads t h) v = v
  Step-Mail (finds_room t c h room) v = v
  Step-Mail (finds_none t c h none_left) v = v
  Step-Mail (spawns t h) v = λ x. omega (arith, v x)
  Step-Mail (fails t e p' h eq) v = v
  Step-Mail (parks t g p' h eq) v = v
  Step-Mail (wakes before after g t c split leaves) v = v
  Step-Mail (resumes before after t split unheld live) v = v
  Step-Mail (gives_up before after t split unheld shut) v = v
  Step-Mail {s} (sends before after w t split) v =
      send-Mail s before after w (payload t) (granted t) split (λ x. refl) v
  Step-Mail {s} (receives_task before after early late w t split first oldest) v =
      receive-Mail s before after early late w (payload t) (working t) split first (λ x. refl) v
  Step-Mail {s} (receives_finish before after early late w split first oldest) v =
      receive-Mail s before after early late w finish leaving split first (λ x. refl) v
  Step-Mail {s} (runs before after w t split) v =
      restage-Mail s before after w (working t) reverting split (λ x. refl) v
  Step-Mail {s} (breaks before after w t split) v =
      restage-Mail s before after w (working t) leaving split (λ x. refl) v
  Step-Mail {s} (begins before after w split) v =
      restage-Mail s before after w reverting _ split (λ x. begun_mail T w x _) v
  Step-Mail {s} (returns before after w split unheld) v = λ x. omega (
    arith,
    v x,
    returned_mail before after w x (revert_locked wq w s.pool).0,
    ap (total (told_in x)) split,
    total-middle (told_in x) before after (w, reinserting),
  )
  Step-Mail (uncounts before after w split) v = λ x.
      omega (
        arith,
        v x,
        ap (total (told_in x)) split,
        total-middle (told_in x) before after (w, leaving),
      )
  Step-Mail (looks before after w count split) v = v
  Step-Mail (shuts before after w split) v = v
  Step-Mail (recycles before after w split) v = v
  Step-Mail (signals n some_left) v = v
  Step-Mail (tunes size fits) v = v
  Step-Mail (closes live) v = v
  Step-Mail {s} (empties n unheld some_closing) v = tell-Mail s (wq.q_reset s.pool.workers).0 v
  Step-Mail (latches n some_emptied) v = v
  Step-Mail (reopens shut) v = v
  Step-Mail (restarts_purge n some_left) v = v
  Step-Mail (restarts_clock now n some_left) v = v
  Step-Mail (renews n some_left) v = v
  Step-Mail (ticks fired clock) v = v
  Step-Mail stops_purging v = v
  Step-Mail {s} (scans clock gone dormant p' unheld ran) v = λ x.
      omega (
        arith,
        v x,
        none_stale T gone x,
        total-append (told_in x) (map (λ w. (w, stale)) gone) s.out,
      )
  Step-Mail {s} (finishes before after w split) v =
      send-Mail s before after w finish stale split (λ x. refl) v
  Step-Mail (rouses before after dormant split) v = v

  pub Reach-Mail : {s t : System wq.Queue H L T} → Mail s → Reach wq bound s t → Mail t
  Reach-Mail v start = v
  Reach-Mail v (next r st) = Step-Mail st (Reach-Mail v r)

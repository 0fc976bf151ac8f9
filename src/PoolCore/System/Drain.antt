-- ===== src/PoolCore/System/Drain.antt =====
-- The workers of a closed pool: each one that is outside the queue comes to the end of its loop in
-- `work` of src/worker.rs.
use ants.Base.{
  ℕ, ◌≤◌, ◌==◌, ◌||◌, ◌&&◌, ◌≡◌, refl, ap, ◌∙◌, inl, inr, Bool, true, false, List, [], ◌∷◌, ◌++◌,
  arith, Bool-cases, if◌then◌else◌,
}
use ants.Base.Count.{total}
use ants.Base.Int.{pos, ltb_ℤ}
use ants.WorkerQueue.{WorkerQueue}
use ants.PoolCore.{PoolCore, Message, payload, finish, closed, is_closed, add_running, cap}
use ants.PoolCore.Workers.{revert_begin, revert_locked}
use ants.PoolCore.Effects.{revert_begin-Unmoved, send-Unmoved}
use ants.PoolCore.System.{
  System, free, Stage, granted, stale, told, working, reverting, reinserting, leaving, mail, Step,
  sends, receives_task, receives_finish, breaks, begins, returns, finishes, uncounts, Reach, start,
  next,
}
use ants.PoolCore.System.Mail.{told_in, Mail, Reach-Mail}
use ants.PoolCore.System.Unlock.{after_step, runs_on}

-- The oldest message to a worker that has one.
message_for :
    {T : Type 0} (w : ℕ) (inbox : List (ℕ × Message T))
    → 1 ≤ mail w inbox
    → (early late : List (ℕ × Message T)) × (m : Message T) × (inbox ≡ early ++ ((w, m) ∷ late))
      × (mail w early ≡ 0)
message_for w [] some_mail = absurd (omega (arith, some_mail))
message_for w ((v, m) ∷ inbox) some_mail = elim (Bool-cases (v == w)) [
  | inl same ↦
      let at_w : v ≡ w = ground arith in ([], inbox, m, ap (λ x. (x, m) ∷ inbox) at_w, refl)
  | inr other ↦
      let (early, late, n, split, none_first) = message_for w inbox (ground arith) in
      ((v, m) ∷ early, late, n, ap (λ l. (v, m) ∷ l) split, ground arith)
]

module _ (wq : WorkerQueue ℕ) (bound : ℕ) {H L T : Type 0} where
  -- A closed pool where the lock is free, no release is on its way and no reboot was overtaken.
  pub record Calm (s : System wq.Queue H L T) : Type 0 where
    pub shut : s.pool.state ≡ closed
    pub unheld : s.held ≡ free
    pub none_begun : s.closing ≡ 0
    pub none_emptied : s.emptied ≡ 0
    pub never : s.overtaken ≡ 0
    pub posted : Mail s

  pub still :
      {s t : System wq.Queue H L T}
      → Step wq bound s t
      → t.pool.state ≡ s.pool.state
      → t.held ≡ s.held
      → t.closing ≡ s.closing
      → t.emptied ≡ s.emptied
      → t.overtaken ≡ s.overtaken
      → Calm s
      → Calm t
  still st same_state same_held same_closing same_emptied same_overtaken c = record {
    shut = same_state ∙ c.shut;
    unheld = same_held ∙ c.unheld;
    none_begun = same_closing ∙ c.none_begun;
    none_emptied = same_emptied ∙ c.none_emptied;
    never = same_overtaken ∙ c.never;
    posted = Reach-Mail wq bound c.posted (next start st);
  }

  -- A way on to a calm state with these workers outside the queue.
  abbrev pub Left : System wq.Queue H L T → List (ℕ × Stage T) → Type 0
  Left s rest = (u : System wq.Queue H L T) × Reach wq bound s u × Calm u × (u.out ≡ rest)

  afterwards :
      (s t : System wq.Queue H L T) (rest : List (ℕ × Stage T))
      → Step wq bound s t
      → Left t rest
      → Left s rest
  afterwards s t rest st (u, r, c, out) = (u, after_step wq bound st r, c, out)

  -- From each stage the first worker outside the queue gets on to its end.
  leaving-Left :
      (s : System wq.Queue H L T) (w : ℕ) (rest : List (ℕ × Stage T))
      → s.out ≡ (w, leaving) ∷ rest
      → Calm s
      → Left s rest
  unfolding add_running
  leaving-Left s w rest split c =
      let st = uncounts [] rest w split in
      (_, next start st, still st refl refl refl refl refl c, refl)

  working-Left :
      (s : System wq.Queue H L T) (w : ℕ) (t : T) (rest : List (ℕ × Stage T))
      → s.out ≡ (w, working t) ∷ rest
      → Calm s
      → Left s rest
  working-Left s w t rest split c =
      let st = breaks [] rest w t split in
      afterwards s _ rest st (leaving-Left _ w rest refl (still st refl refl refl refl refl c))

  received-Left :
      (s : System wq.Queue H L T) (w : ℕ) (rest : List (ℕ × Stage T)) (m : Message T)
      (early late : List (ℕ × Message T))
      → s.out ≡ (w, told) ∷ rest
      → s.inbox ≡ early ++ ((w, m) ∷ late)
      → mail w early ≡ 0
      → Calm s
      → Left s rest
  received-Left s w rest (payload t) early late split first oldest c =
      let st = receives_task [] rest early late w t split first oldest in
      afterwards s _ rest st (working-Left _ w t rest refl (still st refl refl refl refl refl c))
  received-Left s w rest finish early late split first oldest c =
      let st = receives_finish [] rest early late w split first oldest in
      afterwards s _ rest st (leaving-Left _ w rest refl (still st refl refl refl refl refl c))

  told-Left :
      (s : System wq.Queue H L T) (w : ℕ) (rest : List (ℕ × Stage T))
      → s.out ≡ (w, told) ∷ rest
      → Calm s
      → Left s rest
  told-Left s w rest split c =
      let here : total (told_in w) s.out ≡ total (told_in w) ((w, told) ∷ rest) =
        ap (total (told_in w)) split in
      let posted = c.posted w in
      let (early, late, m, first, oldest) = message_for w s.inbox (ground (arith, here, posted)) in
      received-Left s w rest m early late split first oldest c

  -- A closed pool takes no worker back, before the lock or under it.
  shut-begun :
      (w : ℕ) (p : PoolCore wq.Queue H L T) → p.state ≡ closed → (revert_begin wq w p).0 ≡ false
  unfolding revert_begin
  shut-begun w p shut =
      rw
        (
          refused (ltb_ℤ (pos 0) (cap p) && ltb_ℤ (cap p) p.running) (is_closed p) (rw shut refl),
          revert_begin,
        )
        refl
    where
      refused : (a b : Bool) → b ≡ true → (a || b) ≡ true
      refused a b is_true = ground arith

  shut-returned :
      (w : ℕ) (p : PoolCore wq.Queue H L T)
      → p.state ≡ closed
      → ((revert_locked wq w p).0 ≡ false) × ((revert_locked wq w p).1 ≡ p)
  unfolding revert_locked
  shut-returned w p shut = (rw (shut, revert_locked) refl, rw (shut, revert_locked) refl)

  reinserting-Left :
      (s : System wq.Queue H L T) (w : ℕ) (rest : List (ℕ × Stage T))
      → s.out ≡ (w, reinserting) ∷ rest
      → Calm s
      → Left s rest
  reinserting-Left s w rest split c =
      let st = returns [] rest w split c.unheld in
      let (out, same) = shut-returned w s.pool c.shut in
      afterwards s _ rest st (
        leaving-Left _ w rest (ap (λ b. if b then rest else (w, leaving) ∷ rest) out)
          (still st (ap (λ p. p.state) same) refl refl refl refl c))

  reverting-Left :
      (s : System wq.Queue H L T) (w : ℕ) (rest : List (ℕ × Stage T))
      → s.out ≡ (w, reverting) ∷ rest
      → Calm s
      → Left s rest
  reverting-Left s w rest split c =
      let st = begins [] rest w split in
      let u = revert_begin-Unmoved wq w s.pool in
      afterwards s _ rest st (
        leaving-Left _ w rest
          (ap (λ (b : Bool). (w, if b then reinserting else leaving) ∷ rest)
            (shut-begun w s.pool c.shut))
          (still st u.state refl refl refl refl c))

  stage-Left :
      (s : System wq.Queue H L T) (w : ℕ) (a : Stage T) (rest : List (ℕ × Stage T))
      → s.out ≡ (w, a) ∷ rest
      → Calm s
      → Left s rest
  stage-Left s w (granted t) rest split c =
      let st = sends [] rest w t split in
      let u = send-Unmoved w (payload t) s.pool in
      afterwards s _ rest st (told-Left _ w rest refl (still st u.state refl refl refl refl c))
  stage-Left s w stale rest split c =
      let st = finishes [] rest w split in
      let u = send-Unmoved w finish s.pool in
      afterwards s _ rest st (told-Left _ w rest refl (still st u.state refl refl refl refl c))
  stage-Left s w told rest split c = told-Left s w rest split c
  stage-Left s w (working t) rest split c = working-Left s w t rest split c
  stage-Left s w reverting rest split c = reverting-Left s w rest split c
  stage-Left s w reinserting rest split c = reinserting-Left s w rest split c
  stage-Left s w leaving rest split c = leaving-Left s w rest split c

  pub workers-Left :
      (out : List (ℕ × Stage T)) (s : System wq.Queue H L T) → s.out ≡ out → Calm s → Left s []
  workers-Left [] s none_out c = (s, start, c, none_out)
  workers-Left ((w, a) ∷ rest) s split c =
      let (t, r, c', out) = stage-Left s w a rest split c in
      let (u, r', c'', none_out) = workers-Left rest t out c' in
      (u, runs_on wq bound r r', c'', none_out)

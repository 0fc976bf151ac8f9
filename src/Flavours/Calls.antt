-- ===== src/Flavours/Calls.antt =====
-- The calls on the core of a pool, src/pool_common.rs and src/worker.rs, in any order, and the same
-- calls where the payloads have another name.
use ants.Base.{ℕ, ◌≡◌, refl, ap, ◌∙◌, Bool, Option, none, some, List, [], ◌∷◌, map}
use ants.Base.Int.{ℤ}
use ants.WorkerQueue.{WorkerQueue}
use ants.PoolCore.{PoolCore, Message, payload, finish}
use ants.PoolCore.Workers.{Outcome, Submitted, work_round, try_submit, resume_submit, stopped}
use ants.PoolCore.Lifecycle.{tune, release, reboot}
use ants.PoolCore.Background.{ticktock_round, purge_round}
use ants.Flavours.Relabel.{
  relabel, relabel_message, relabel_submitted, try_submit-relabel, resume_submit-relabel,
  work_round-relabel,
}
use ants.Flavours.Threads.{
  tune-relabel, release-relabel, reboot-relabel, ticktock_round-relabel, purge_round-relabel,
  relabel_reboot, relabel_round,
}

-- What can be done to a pool; a worker does a round with a message it has received.
pub data Call (T : Type 0) : Type 0 where
  submits resumes : T → Call T
  works : ℕ → Message T → Call T
  tunes : ℤ → Call T
  releases : Call T
  reboots : ℤ → Call T
  ticks purges : Bool → ℤ → Call T

-- What it answers; `stuck` where it waits or panics.
pub data Reply (T : Type 0) : Type 0 where
  submitted : Submitted T → Reply T
  goes_on : Bool → Reply T
  done stuck : Reply T

abbrev pub relabel_call : {T U : Type 0} → (T → U) → Call T → Call U
relabel_call g (submits t) = submits (g t)
relabel_call g (resumes t) = resumes (g t)
relabel_call g (works w m) = works w (relabel_message g m)
relabel_call g (tunes size) = tunes size
relabel_call g releases = releases
relabel_call g (reboots now) = reboots now
relabel_call g (ticks fired clock) = ticks fired clock
relabel_call g (purges fired clock) = purges fired clock

abbrev pub relabel_reply : {T U : Type 0} → (T → U) → Reply T → Reply U
relabel_reply g (submitted s) = submitted (relabel_submitted g s)
relabel_reply g (goes_on b) = goes_on b
relabel_reply g done = done
relabel_reply g stuck = stuck

-- What a worker makes of a message.
abbrev pub outcome_of : {T : Type 0} → (T → Outcome) → Message T → Outcome
outcome_of runs (payload t) = runs t
outcome_of runs finish = stopped

module _ (wq : WorkerQueue ℕ) {H L T : Type 0} where
  abbrev pub rebooted :
      PoolCore wq.Queue H L T → Option (PoolCore wq.Queue H L T) → Reply T × PoolCore wq.Queue H L T
  rebooted p none = (stuck, p)
  rebooted p (some p') = (done, p')

  abbrev pub round_ended :
      PoolCore wq.Queue H L T
      → Option (Bool × PoolCore wq.Queue H L T)
      → Reply T × PoolCore wq.Queue H L T
  round_ended p none = (stuck, p)
  round_ended p (some r) = (goes_on r.0, r.1)

  -- One call; `runs` is what a worker makes of a payload.
  unfoldable pub perform :
      (T → Outcome) → Call T → PoolCore wq.Queue H L T → Reply T × PoolCore wq.Queue H L T
  perform runs (submits t) p = let (s, p') = try_submit wq t p in (submitted s, p')
  perform runs (resumes t) p = let (s, p') = resume_submit wq t p in (submitted s, p')
  perform runs (works w m) p =
      let (b, p') = work_round wq w m (outcome_of runs m) p in (goes_on b, p')
  perform runs (tunes size) p = (done, tune size p)
  perform runs releases p = (done, release wq p)
  perform runs (reboots now) p = rebooted p (reboot now p)
  perform runs (ticks fired clock) p = let (b, p') = ticktock_round fired clock p in (goes_on b, p')
  perform runs (purges fired clock) p = round_ended p (purge_round wq fired clock p)

  -- Calls in order, with their answers.
  unfoldable pub perform_all :
      (T → Outcome)
      → List (Call T)
      → PoolCore wq.Queue H L T
      → List (Reply T) × PoolCore wq.Queue H L T
  perform_all runs [] p = ([], p)
  perform_all runs (c ∷ cs) p =
      let (r, p') = perform runs c p in let (rs, end) = perform_all runs cs p' in (r ∷ rs, end)

module _ (wq : WorkerQueue ℕ) {H L T U : Type 0} (g : T → U) (runs : T → Outcome)
    (runs' : U → Outcome) (same : (t : T) → runs' (g t) ≡ runs t) where
  perform-relabel :
      (c : Call T) (p : PoolCore wq.Queue H L T)
      → perform wq runs' (relabel_call g c) (relabel g p)
        ≡ (relabel_reply g (perform wq runs c p).0, relabel g (perform wq runs c p).1)
  unfolding perform
  perform-relabel (submits t) p = ap (λ r. (submitted r.0, r.1)) (try_submit-relabel wq g t p)
  perform-relabel (resumes t) p = ap (λ r. (submitted r.0, r.1)) (resume_submit-relabel wq g t p)
  perform-relabel (works w (payload t)) p =
      ap (λ o. let r = work_round wq w (payload (g t)) o (relabel g p) in (goes_on r.0, r.1))
        (same t)
      ∙ ap (λ r. (goes_on r.0, r.1)) (work_round-relabel wq g w (payload t) (runs t) p)
  perform-relabel (works w finish) p =
      ap (λ r. (goes_on r.0, r.1)) (work_round-relabel wq g w finish stopped p)
  perform-relabel (tunes size) p = ap (λ q. (done, q)) (tune-relabel g size p)
  perform-relabel releases p = ap (λ q. (done, q)) (release-relabel wq g p)
  perform-relabel (reboots now) p =
      ap (rebooted wq (relabel g p)) (reboot-relabel g now p) ∙ through (reboot now p)
    where
      through :
          (r : Option (PoolCore wq.Queue H L T))
          → rebooted wq (relabel g p) (relabel_reboot g r)
            ≡ (relabel_reply g (rebooted wq p r).0, relabel g (rebooted wq p r).1)
      through none = refl
      through (some q) = refl
  perform-relabel (ticks fired clock) p =
      ap (λ r. (goes_on r.0, r.1)) (ticktock_round-relabel g fired clock p)
  perform-relabel (purges fired clock) p =
      ap (round_ended wq (relabel g p)) (purge_round-relabel wq g fired clock p)
      ∙ through (purge_round wq fired clock p)
    where
      through :
          (r : Option (Bool × PoolCore wq.Queue H L T))
          → round_ended wq (relabel g p) (relabel_round wq g r)
            ≡ (relabel_reply g (round_ended wq p r).0, relabel g (round_ended wq p r).1)
      through none = refl
      through (some q) = refl

  pub perform_all-relabel :
      (cs : List (Call T)) (p : PoolCore wq.Queue H L T)
      → perform_all wq runs' (map (relabel_call g) cs) (relabel g p) ≡ (
        map (relabel_reply g) (perform_all wq runs cs p).0,
        relabel g (perform_all wq runs cs p).1,
      )
  unfolding perform_all
  perform_all-relabel [] p = refl
  perform_all-relabel (c ∷ cs) p =
      let (r, p') = perform wq runs c p in
      ap (λ x. let e = perform_all wq runs' (map (relabel_call g) cs) x.1 in (x.0 ∷ e.0, e.1))
        (perform-relabel c p)
      ∙ ap (λ e. (relabel_reply g r ∷ e.0, e.1)) (perform_all-relabel cs p')

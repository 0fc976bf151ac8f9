-- ===== src/PoolCore/System/Invariant.antt =====
-- All the invariants of a pool among its threads, together, and what follows for the lists of
-- workers and threads that a step changes.
use ants.Base.{
  ◌&&◌, ◌&&◌, ℕ, ◌+◌, ◌≡◌, refl, sym, ap, ◌∙◌, subst, Bool, true, false, List, [], ◌∷◌, ◌++◌, map,
  arith, if◌then◌else◌, length, length-middle,
}
use ants.Base.Count.{total}
use mathlib.Core.List.{map-append}
use ants.Base.Int.{eqb_ℤ, pos, negsuc}
use ants.WorkerQueue.{WorkerQueue}
use ants.PoolCore.{is_closed, PoolCore, add_waiting}
use ants.PoolCore.System.{Ending, uncounted, last, uncached, System, Held, Stage, leaving}
use ants.PoolCore.System.Core.{Core, resume-Core}
use ants.PoolCore.System.Workers.{workers_of, restaged, look-Core}

-- Workers that are taken out of the queue are outside it.
pub workers_of-taken :
    {T : Type 0} (a : Stage T) (gone : List ℕ) (out : List (ℕ × Stage T))
    → gone ++ workers_of out ≡ workers_of (map (λ w. (w, a)) gone ++ out)
workers_of-taken a [] out = refl
workers_of-taken a (w ∷ gone) out = ap (λ rest. w ∷ rest) (workers_of-taken a gone out)

-- The workers of the threads that end.
abbrev pub threads_of : List (ℕ × Ending) → List ℕ
threads_of ending = map (λ r. r.0) ending

-- What a thread that has lowered the count does next.
abbrev pub verdict : Bool → Bool → Ending
verdict none_left shut = if none_left && shut then last else uncached

abbrev pub last_weight : ℕ × Ending → ℕ
last_weight (w, uncounted count) = if eqb_ℤ count (pos 0) then 1 else 0
last_weight (w, last) = 1
last_weight (w, uncached) = 0

pub joined :
    {A : Type 0} (before after : List (ℕ × A))
    → map (λ r. r.0) before ++ map (λ r. r.0) after ≡ map (λ r. r.0) (before ++ after)
joined before after = sym (map-append (λ r. r.0) before after)

module _ {T : Type 0} where
  pub returned :
      (before after : List (ℕ × Stage T)) (w : ℕ) (kept : Bool)
      → (if kept
          then workers_of before ++ workers_of after
          else workers_of before ++ (w ∷ workers_of after))
        ≡ workers_of (if kept then before ++ after else before ++ ((w, leaving) ∷ after))
  returned before after w true = joined before after
  returned before after w false = sym (map-append (λ r. r.0) before ((w, leaving) ∷ after))

-- The releases that have begun, the workers that may have to close the latch, and the reboots that
-- were overtaken.
abbrev pub pending : {Q H L T : Type 0} → System Q H L T → ℕ
pending s = s.closing + s.emptied + s.overtaken + total last_weight s.ending

module _ (wq : WorkerQueue ℕ) (bound : ℕ) {H L T : Type 0} where
  -- All the invariants of a pool among its threads.
  abbrev pub Valid : System wq.Queue H L T → Type 0
  Valid s =
      Core wq bound s.pool s.held (workers_of s.out) (threads_of s.ending) (length s.asleep)
        (length s.awake) (pending s)

  pub at_held :
      (s : System wq.Queue H L T) {h : Held T}
      → s.held ≡ h
      → Valid s
      → Core wq bound s.pool h
          (workers_of s.out)
          (threads_of s.ending)
          (length s.asleep)
          (length s.awake)
          (pending s)
  at_held s eq v =
      subst
        (λ h.
          Core wq bound s.pool h (workers_of s.out) (threads_of s.ending) (length s.asleep)
            (length s.awake) (pending s))
        eq v

  -- The workers outside the queue, listed anew.
  pub listed :
      {p : PoolCore wq.Queue H L T} {h : Held T} {out out' gone : List ℕ} {asleep awake pending : ℕ}
      → out ≡ out'
      → Core wq bound p h out gone asleep awake pending
      → Core wq bound p h out' gone asleep awake pending
  listed {p} {h} {gone = gone} {asleep} {awake} {pending} eq v =
      subst (λ o. Core wq bound p h o gone asleep awake pending) eq v

  pub threaded :
      {p : PoolCore wq.Queue H L T} {h : Held T} {out gone gone' : List ℕ}
      {asleep awake pending : ℕ}
      → gone ≡ gone'
      → Core wq bound p h out gone asleep awake pending
      → Core wq bound p h out gone' asleep awake pending
  threaded {p} {h} {out} {asleep = asleep} {awake} {pending} eq v =
      subst (λ g. Core wq bound p h out g asleep awake pending) eq v

  pub pended :
      {p : PoolCore wq.Queue H L T} {h : Held T} {out gone : List ℕ} {asleep awake m n : ℕ}
      → m ≡ n
      → Core wq bound p h out gone asleep awake m
      → Core wq bound p h out gone asleep awake n
  pended {p} {h} {out} {gone} {asleep} {awake} eq v =
      subst (Core wq bound p h out gone asleep awake) eq v

  -- A worker that finds out whether it was the last of a closed pool.
  pub looked :
      {p : PoolCore wq.Queue H L T} {h : Held T} {out gone : List ℕ} {asleep awake : ℕ}
      (none_left shut : Bool) (n : ℕ)
      → is_closed p ≡ shut
      → Core wq bound p h out gone asleep awake (n + (if none_left then 1 else 0))
      → Core wq bound p h out gone asleep awake (n + last_weight (0, verdict none_left shut))
  looked true true n seen v = v
  looked true false n seen v = pended (omega arith) (look-Core wq bound true (λ yes. seen) v)
  looked false shut n seen v = v

  pub split_out :
      (s : System wq.Queue H L T) (before after : List (ℕ × Stage T)) (w : ℕ) (a : Stage T)
      → s.out ≡ before ++ ((w, a) ∷ after)
      → workers_of s.out ≡ workers_of before ++ (w ∷ workers_of after)
  split_out s before after w a eq = ap workers_of eq ∙ map-append (λ r. r.0) before ((w, a) ∷ after)

  -- A worker outside the queue goes on to another stage.
  pub restage :
      (s : System wq.Queue H L T) (before after : List (ℕ × Stage T)) (w : ℕ) (a b : Stage T)
      → s.out ≡ before ++ ((w, a) ∷ after)
      → Valid s
      → Valid (record s { out = before ++ ((w, b) ∷ after) })
  restage s before after w a b eq v = listed (ap workers_of eq ∙ restaged before after w a b) v

  -- A submitter that was woken has the lock.
  pub woken :
      (s : System wq.Queue H L T) (before after : List T) (t : T)
      → s.awake ≡ before ++ (t ∷ after)
      → Valid s
      → Valid (record s { pool = add_waiting (negsuc 0) s.pool; awake = before ++ after })
  woken s before after t split v = resume-Core wq bound (
      subst
        (λ n.
          Core wq bound s.pool s.held (workers_of s.out) (threads_of s.ending) (length s.asleep) n
            (pending s))
        (ap length split ∙ length-middle before after t) v)

-- ===== src/PoolCore/System/State.antt =====
-- The state of a pool and of all that acts on it: who holds the spin lock, where each worker is,
-- what is in the channels, and where each submitter is.
use ants.Base.{Bool, ℕ, List, [], ◌++◌, map, ◌==◌, if◌then◌else◌}
use ants.Base.Count.{total}
use ants.Base.Int.{ℤ}
use ants.PoolCore.{PoolCore, Message, finish}

-- Who holds the spin lock in `retrieve_worker`, and where: at the top of a pass, after an empty
-- queue, after the capacity has been read, before a new worker, before the wait.
pub data Held (T : Type 0) : Type 0 where
  free : Held T
  starting : T → Held T
  searched : T → Held T
  comparing : T → ℤ → Held T
  spawning : T → Held T
  full : T → Held T

-- What a worker outside the queue is for: a submitter has got it, the purging thread has taken it
-- out, a message is in its channel, it runs a payload, it is in `revert_worker` before or at the
-- lock, or its loop has ended.
pub data Stage (T : Type 0) : Type 0 where
  granted : T → Stage T
  stale : Stage T
  told : Stage T
  working : T → Stage T
  reverting : Stage T
  reinserting : Stage T
  leaving : Stage T

-- How far the end of a worker's thread has come: it has lowered the count, to what it remembers; it
-- was the last one of a closed pool; it has still to recycle its worker.
pub data Ending : Type 0 where
  uncounted : ℤ → Ending
  last : Ending
  uncached : Ending

-- The pool; the lock; the counted workers outside the queue; those of the threads that end, and how
-- many such threads have still to give their signal; what the purging threads that have left the
-- lock saw of the pool; the messages in the workers'
-- channels, the oldest first; the submitters that wait, by what they remember of the condition
-- variable, and those woken. Then the payloads of all submissions so far, of those refused and of
-- those that a worker has run; and the releases before and after they have emptied the queue. Last the
-- reboots: those that have opened the pool again, then restarted the purging thread, then the
-- clock; and how many have put a new latch into a pool that was closed again meanwhile.
pub record System (Q H L T : Type 0) : Type 0 where
  pub pool : PoolCore Q H L T
  pub held : Held T
  pub out : List (ℕ × Stage T)
  pub ending : List (ℕ × Ending)
  pub signalling : ℕ
  pub scanned : List Bool
  pub inbox : List (ℕ × Message T)
  pub asleep : List (ℕ × T)
  pub awake : List T
  pub entered : List T
  pub refused : List T
  pub done : List T
  pub closing : ℕ
  pub emptied : ℕ
  pub reopened : ℕ
  pub purge_restarted : ℕ
  pub clock_restarted : ℕ
  pub overtaken : ℕ

-- The messages to a worker among those in the channels.
abbrev pub mail : {T : Type 0} → ℕ → List (ℕ × Message T) → ℕ
mail w inbox = total (λ m. if m.0 == w then 1 else 0) inbox

module _ {Q H L T : Type 0} where
  -- Before anything has happened.
  abbrev pub alone : PoolCore Q H L T → System Q H L T
  alone p = record {
    pool = p;
    held = free;
    out = [];
    ending = [];
    signalling = 0;
    scanned = [];
    inbox = [];
    asleep = [];
    awake = [];
    entered = [];
    refused = [];
    done = [];
    closing = 0;
    emptied = 0;
    reopened = 0;
    purge_restarted = 0;
    clock_restarted = 0;
    overtaken = 0;
  }

  -- Idle workers are told to finish: they are outside the queue, with the message in the channel.
  abbrev pub tell : List ℕ → System Q H L T → System Q H L T
  tell gone s = record s {
    out = map (λ w. (w, told)) gone ++ s.out;
    inbox = s.inbox ++ map (λ w. (w, finish)) gone;
  }

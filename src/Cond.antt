-- ===== src/Cond.antt =====
-- The condition variable of src/deps/cond.rs. What its mutex guards is a record; each of its
-- critical sections is a function, and the threads that run them are a step relation.
use ants.Base.{
  ℕ, ◌+◌, ◌-◌, ◌%◌, ◌^◌, ◌≤◌, ◌<◌, ◌≡◌, ap, Option, none, some, List, [], ◌∷◌, ◌++◌, arith, ltb,
  ◌==◌, if◌then◌else◌, length, length-append,
}

-- `struct Waiters`. `parked` counts threads and stays far below 2 ^ 64.
pub record Waiters : Type 0 where
  pub parked : ℕ
  pub tokens : ℕ
  pub generation : ℕ

abbrev pub no_waiters : Waiters
no_waiters = record { parked = 0; tokens = 0; generation = 0 }

-- The registration in `wait`, with the generation that the thread remembers.
unfoldable pub register : Waiters → ℕ × Waiters
register w = (w.generation, record w { parked = w.parked + 1 })

-- One round of the loop in `wait` of a thread that remembers `generation`: `none` where it blocks.
unfoldable pub try_leave : ℕ → Waiters → Option Waiters
try_leave generation w =
    if ltb 0 w.tokens
    then some (record w { tokens = w.tokens - 1; parked = w.parked - 1 })
    else if w.generation == generation
    then none
    else some (record w { parked = w.parked - 1 })

unfoldable pub signal : Waiters → Waiters
signal w = if ltb w.tokens w.parked then record w { tokens = w.tokens + 1 } else w

unfoldable pub broadcast : Waiters → Waiters
broadcast w =
    if ltb 0 w.parked then record w { generation = (w.generation + 1) % 2 ^ 64; tokens = 0 } else w

-- The variable together with what each thread that is inside `wait` remembers.
pub record Sleepers : Type 0 where
  pub waiters : Waiters
  pub asleep : List ℕ

pub data Step : Sleepers → Sleepers → Type 0 where
  enters :
      (s : Sleepers)
      → Step s
          (record { waiters = (register s.waiters).1; asleep = (register s.waiters).0 ∷ s.asleep })
  leaves :
      (s : Sleepers) (before after : List ℕ) (g : ℕ) {w : Waiters}
      → s.asleep ≡ before ++ (g ∷ after)
      → try_leave g s.waiters ≡ some w
      → Step s (record { waiters = w; asleep = before ++ after })
  signals : (s : Sleepers) → Step s (record s { waiters = signal s.waiters })
  broadcasts : (s : Sleepers) → Step s (record s { waiters = broadcast s.waiters })

pub data Reach : Sleepers → Type 0 where
  start : Reach (record { waiters = no_waiters; asleep = [] })
  next : {s t : Sleepers} → Reach s → Step s t → Reach t

-- The count of parked threads is right, and no more tokens are out than threads can take.
pub record IsValid (s : Sleepers) : Type 0 where
  pub counted : s.waiters.parked ≡ length s.asleep
  pub covered : s.waiters.tokens ≤ s.waiters.parked

Step-IsValid : {s t : Sleepers} → Step s t → IsValid s → IsValid t
unfolding register try_leave signal broadcast
Step-IsValid (enters s) v = ground arith
Step-IsValid (leaves s before after g e run) v =
    ground (arith, ap length e, length-append before (g ∷ after), length-append before after)
Step-IsValid (signals s) v = ground arith
Step-IsValid (broadcasts s) v = ground arith

-- Whatever threads wait, signal and broadcast in whatever order, `parked` is the number of threads
-- inside `wait`, and the tokens that are out never outnumber them.
pub Reach-IsValid : {s : Sleepers} → Reach s → IsValid s
Reach-IsValid start = ground arith
Reach-IsValid (next r st) = Step-IsValid st (Reach-IsValid r)

-- In every reachable state in which a thread is inside `wait`, after `signal` whichever thread
-- looks next can leave.
pub signal_wakes :
    {s : Sleepers} (g : ℕ)
    → Reach s
    → 0 < length s.asleep
    → (w : Waiters) × (try_leave g (signal s.waiters) ≡ some w)
unfolding try_leave signal
signal_wakes {s} g r some_thread =
    let v = Reach-IsValid r in
    let w = signal s.waiters in
    (record w { tokens = w.tokens - 1; parked = w.parked - 1 }, ground (arith, v))

-- After `broadcast` every thread that was inside `wait` can leave, as long as the generation
-- counter has not come round.
pub broadcast_wakes_all :
    (w : Waiters) (g : ℕ)
    → 0 < w.parked
    → g ≤ w.generation
    → w.generation + 1 < 2 ^ 64
    → (w' : Waiters) × (try_leave g (broadcast w) ≡ some w')
unfolding try_leave broadcast
broadcast_wakes_all w g some_thread old small =
    (record (broadcast w) { parked = w.parked - 1 }, ground arith)

-- A token is not bound to the thread that it is meant for. Let a thread be woken by `broadcast`,
-- and before it runs let another enter `wait` and a `signal` be given for it: the first thread
-- leaves by taking the token, and the second stays blocked.
pub signal_stolen :
    (w : Waiters) (g : ℕ)
    → 0 < w.parked
    → g ≤ w.generation
    → w.generation + 1 < 2 ^ 64
    → let (mine, w2) = register (broadcast w) in
      (w' : Waiters) × (try_leave g (signal w2) ≡ some w') × (try_leave mine w' ≡ none)
unfolding register try_leave signal broadcast
signal_stolen w g some_thread old small =
    let w3 = signal (register (broadcast w)).1 in
    (record w3 { tokens = w3.tokens - 1; parked = w3.parked - 1 }, ground arith, ground arith)

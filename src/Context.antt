-- ===== src/Context.antt =====
-- The one-shot latch of src/deps/event.rs and the contexts of src/deps/context.rs. The clock's
-- reading `Instant::now()` is an argument.
pub mod Waits
use ants.Base.{
  ℕ, ◌+◌, ◌-◌, min, ◌≡◌, ◌↔◌, Bool, true, false, ◌||◌, Option, none, some, arith, leb,
  if◌then◌else◌,
}
use ants.Base.Int.{pos, ◌≤ℤ◌}
use ants.Duration.{Duration, to_std}
use ants.Error.{Error, canceled, deadline_exceeded}

-- `struct Event`.
pub record Event : Type 0 where
  pub closed : Bool

abbrev pub new_event : Event
new_event = record { closed = false }

unfoldable pub close : Event → Event
close e = if e.closed then e else record e { closed = true }

abbrev pub is_closed : Event → Bool
is_closed e = e.closed

-- `struct Inner`, which a `Context` and its `CancelFunc` share.
pub record Context : Type 0 where
  pub cancelled : Event
  pub deadline : Option ℕ

unfoldable pub background : Context
background = record { cancelled = new_event; deadline = none }

unfoldable pub with_cancel : Context
with_cancel = record { cancelled = new_event; deadline = none }

unfoldable pub with_timeout : ℕ → Duration → Context
with_timeout now timeout = record { cancelled = new_event; deadline = some (now + to_std timeout) }

-- `CancelFunc::cancel`.
unfoldable pub cancel : Context → Context
cancel c = record c { cancelled = close c.cancelled }

unfoldable pub past_deadline : ℕ → Context → Bool
past_deadline now c = elim c.deadline [ none ↦ false | some d ↦ leb d now ]

unfoldable pub is_done : ℕ → Context → Bool
unfolding past_deadline
is_done now c = is_closed c.cancelled || past_deadline now c

-- `Context::err`.
unfoldable pub ctx_err : ℕ → Context → Option Error
unfolding past_deadline
ctx_err now c =
    if is_closed c.cancelled
    then some canceled
    else if past_deadline now c
    then some deadline_exceeded
    else none

-- The time left, `saturating_duration_since`.
unfoldable pub remaining : ℕ → Context → Option ℕ
remaining now c = elim c.deadline [ none ↦ none | some d ↦ some (d - now) ]

-- How long `wait_done_for` waits on the latch at most.
unfoldable pub wait_bound : ℕ → Context → Duration → ℕ
unfolding remaining
wait_bound now c timeout = elim (remaining now c) [
  | none ↦ to_std timeout
  | some left ↦ min left (to_std timeout)
]

-- A context gives a reason exactly when it is done; a cancelled one always gives the same reason,
-- its deadline passed or not; and one with a timeout gives the other from its deadline on, which a
-- timeout that is not positive makes the moment of its creation.
pub ctx_err_lem :
    (now start : ℕ) (c : Context) (timeout : Duration)
    → ((ctx_err now c ≡ none) ↔ (is_done now c ≡ false))
      × (ctx_err now (cancel c) ≡ some canceled)
      × (ctx_err now (with_timeout start timeout)
          ≡ (if leb (start + to_std timeout) now then some deadline_exceeded else none))
      × (timeout.nanos ≤ℤ pos 0
          → ctx_err start (with_timeout start timeout) ≡ some deadline_exceeded)
unfolding ctx_err is_done cancel close with_timeout to_std
ctx_err_lem now start c timeout =
    ((λ e. ground arith, λ e. ground arith), ground arith, ground arith, λ h. ground arith)

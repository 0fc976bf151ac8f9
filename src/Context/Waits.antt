-- ===== src/Context/Waits.antt =====
-- The waits of src/deps/event.rs and src/deps/context.rs. The thread looks at the latch each time
-- it wakes up, in whatever way it was woken; what it sees and what the clock then reads are
-- arguments. `none` is a wait that has not come to an end after the looks that are given.
use ants.Base.{
  Option-cases, subst, ◌+◌, ◌-◌, ◌⊎◌, refl, ℕ, ◌+◌, ◌≤◌, ◌≡◌, refl, inl, inr, Bool, true, false,
  ◌||◌, Option, none, some, List, [], ◌∷◌, arith, leb, if◌then◌else◌, Bool-cases, leb→le,
}
use ants.Duration.{Duration}
use ants.Context.{past_deadline, Context, is_done, remaining, wait_bound}

-- What the thread sees when it looks: whether the latch is closed, and then the time.
pub record Look : Type 0 where
  pub closed : Bool
  pub now : ℕ

-- Whether `Event::wait` has returned.
unfoldable pub wait : List Look → Bool
wait [] = false
wait (look ∷ looks) = if look.closed then true else wait looks

-- The loop of `Event::wait_timeout`.
unfoldable pub wait_until : ℕ → List Look → Option Bool
wait_until deadline [] = none
wait_until deadline (look ∷ looks) =
    if look.closed
    then some true
    else if leb deadline look.now
    then some look.closed
    else wait_until deadline looks

-- `Event::wait_timeout`, called at the time `start`.
unfoldable pub wait_timeout : ℕ → ℕ → List Look → Option Bool
wait_timeout start timeout looks = wait_until (start + timeout) looks

-- A round of the loop of `Context::wait`: the context and the time when the round begins, the time
-- when what is left is computed, and the wait.
pub record Round : Type 0 where
  pub seen : Context
  pub begun : ℕ
  pub later : ℕ
  pub start : ℕ
  pub looks : List Look

-- `some true` where the round returns, `some false` where another follows.
unfoldable pub wait_round : Round → Option Bool
wait_round r = if is_done r.begun r.seen then some true else elim (remaining r.later r.seen) [
  | some left ↦ wait_timeout r.start left r.looks
  | none ↦ if wait r.looks then some true else none
]

-- `Context::wait_done_for`, which looks at the context again, as `seen`, at the time `later`.
unfoldable pub wait_done_for : ℕ → Context → Duration → ℕ → List Look → ℕ → Context → Option Bool
wait_done_for now c timeout start looks later seen =
    elim (wait_timeout start (wait_bound now c timeout) looks) [
      | none ↦ none
      | some latched ↦ if latched then some true else some (is_done later seen)
    ]

-- The clock has not passed `t` at any of the looks.
abbrev pub Before : ℕ → List Look → Type 0
Before t [] = Unit {0}
Before t (look ∷ looks) = (look.now ≤ t) × Before t looks

-- The latch was closed at one of the looks.
abbrev pub any_closed : List Look → Bool
any_closed [] = false
any_closed (look ∷ looks) = look.closed || any_closed looks

wait-closed : (looks : List Look) → wait looks ≡ any_closed looks
unfolding wait
wait-closed [] = refl
wait-closed (look ∷ looks) = ground (arith, wait-closed looks)

wait_until-true :
    (deadline : ℕ) (looks : List Look)
    → wait_until deadline looks ≡ some true
    → any_closed looks ≡ true
unfolding wait_until
wait_until-true deadline [] h = absurd (cc h)
wait_until-true deadline (look ∷ looks) h = elim (Bool-cases look.closed) [
  | inl shut ↦ rw shut refl
  | inr still ↦ elim (Bool-cases (leb deadline look.now)) [
    | inl over ↦ absurd (cc (rw (still, over) at h))
    | inr early ↦ rw still (wait_until-true deadline looks (rw (still, early) at h))
  ]
]

wait_until-false :
    (deadline t : ℕ) (looks : List Look)
    → wait_until deadline looks ≡ some false
    → Before t looks
    → deadline ≤ t
unfolding wait_until
wait_until-false deadline t [] h before = absurd (cc h)
wait_until-false deadline t (look ∷ looks) h before = elim (Bool-cases look.closed) [
  | inl shut ↦ absurd (cc (rw shut at h))
  | inr still ↦ elim (Bool-cases (leb deadline look.now)) [
    | inl over ↦ omega (arith, leb→le deadline look.now over, before.0)
    | inr early ↦ wait_until-false deadline t looks (rw (still, early) at h) before.1
  ]
]

-- A round with a deadline that does not return has waited without seeing the latch closed.
round_goes_on :
    (r : Round) (d : ℕ)
    → r.seen.deadline ≡ some d
    → wait_round r ≡ some false
    → wait_until (r.start + (d - r.later)) r.looks ≡ some false
unfolding wait_round remaining wait_timeout
round_goes_on r d limited goes = elim (Bool-cases (is_done r.begun r.seen)) [
  | inl over ↦ absurd (cc (rw over at goes))
  | inr live ↦ rw (live, limited) at goes
]

past-done : (now d : ℕ) (c : Context) → c.deadline ≡ some d → d ≤ now → is_done now c ≡ true
unfolding is_done past_deadline
past-done now d c limited over = rw limited (ground (arith, over))

done-returns : (r : Round) → is_done r.begun r.seen ≡ true → wait_round r ≡ some true
unfolding wait_round
done-returns r over = rw over refl

-- `Context::wait` on a context with a deadline takes two rounds at most: where a first round does
-- not return, and the clock does not run backwards, the second does.
pub wait_round-second :
    (r r' : Round) (d : ℕ)
    → r.seen.deadline ≡ some d
    → r'.seen.deadline ≡ some d
    → r.later ≤ r.start
    → Before r'.begun r.looks
    → wait_round r ≡ some false
    → wait_round r' ≡ some true
wait_round-second r r' d limited limited' clock before goes =
    let waited =
      wait_until-false (r.start + (d - r.later)) r'.begun r.looks (round_goes_on r d limited goes)
        before in
    done-returns r' (past-done r'.begun d r'.seen limited' (omega (arith, waited, clock)))

-- Where `wait_done_for` answers that the context is done, the latch was closed at one of its looks,
-- or the context is done at the end; and where it answers that it is not, it is not at the end.
pub wait_done_for_lem :
    (now start later : ℕ) (c seen : Context) (timeout : Duration) (looks : List Look)
    (answer : Bool)
    → wait_done_for now c timeout start looks later seen ≡ some answer
    → if answer
      then (any_closed looks ≡ true) ⊎ (is_done later seen ≡ true)
      else is_done later seen ≡ false
unfolding wait_done_for wait_timeout
wait_done_for_lem now start later c seen timeout looks answer ended =
    let bound = start + wait_bound now c timeout in
    elim (Option-cases (wait_until bound looks)) [
      | inl blocks ↦ absurd (cc (rw (blocks, wait_done_for) at ended))
      | inr (true, eq) ↦
          let same : true ≡ answer = cc (rw (eq, wait_done_for) at ended) in
          subst Answered same (inl (wait_until-true bound looks eq))
      | inr (false, eq) ↦
          let same : is_done later seen ≡ answer = cc (rw (eq, wait_done_for) at ended) in
          subst Answered same (answered (is_done later seen) refl)
    ]
  where
    Answered : Bool → Type 0
    Answered b =
        if b
        then (any_closed looks ≡ true) ⊎ (is_done later seen ≡ true)
        else is_done later seen ≡ false

    answered : (b : Bool) → is_done later seen ≡ b → Answered b
    answered true eq = inr eq
    answered false eq = eq

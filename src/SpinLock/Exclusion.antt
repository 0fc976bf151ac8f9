-- ===== src/SpinLock/Exclusion.antt =====
-- Mutual exclusion of the spin lock, and the bounds of its backoff.
use ants.Base.{
  ℕ, suc, ◌≤◌, ◌≡◌, refl, ap, ◌∙◌, subst, ◌⊎◌, inl, inr, true, List, [], ◌∷◌, ◌++◌, arith, length,
  length-append,
}
use ants.SpinLock.{
  SpinLock, Threads, Step, calls, fails, takes, drops, writes, Reach, start, next, fresh, new,
  try_lock, unlock, back_off,
}

-- One of the values that `backoff` takes.
abbrev pub IsBackoff : ℕ → Type 0
IsBackoff b = (b ≡ 1) ⊎ ((b ≡ 2) ⊎ ((b ≡ 4) ⊎ ((b ≡ 8) ⊎ (b ≡ 16))))

abbrev pub AllBackoffs : List (ℕ × ℕ) → Type 0
AllBackoffs [] = Unit
AllBackoffs (s ∷ rest) = IsBackoff s.1 × AllBackoffs rest

back_off-IsBackoff : (b : ℕ) → IsBackoff b → IsBackoff (back_off b).1
unfolding back_off
back_off-IsBackoff b (inl h) = rw h (inr (inl refl))
back_off-IsBackoff b (inr (inl h)) = rw h (inr (inr (inl refl)))
back_off-IsBackoff b (inr (inr (inl h))) = rw h (inr (inr (inr (inl refl))))
back_off-IsBackoff b (inr (inr (inr (inl h)))) = rw h (inr (inr (inr (inr refl))))
back_off-IsBackoff b (inr (inr (inr (inr h)))) = rw h (inr (inr (inr (inr refl))))

AllBackoffs-without :
    (before after : List (ℕ × ℕ)) (s : ℕ × ℕ)
    → AllBackoffs (before ++ (s ∷ after))
    → IsBackoff s.1 × AllBackoffs (before ++ after)
AllBackoffs-without [] after s h = h
AllBackoffs-without (b ∷ before) after s h =
    let (one, rest) = AllBackoffs-without before after s h.1 in (one, (h.0, rest))

AllBackoffs-with :
    (before after : List (ℕ × ℕ)) (s : ℕ × ℕ)
    → IsBackoff s.1
    → AllBackoffs (before ++ after)
    → AllBackoffs (before ++ (s ∷ after))
AllBackoffs-with [] after s one h = (one, h)
AllBackoffs-with (b ∷ before) after s one h = (h.0, AllBackoffs-with before after s one h.1)

-- The state of the lock is the number of threads that hold it, none or one, and every backoff is a
-- power of two up to 16.
pub record Exclusive {ℓ} {T : Type ℓ} (s : Threads T) : Type 0 where
  pub state : s.lock.state ≡ length s.holders
  pub one : length s.holders ≤ 1
  pub backoffs : AllBackoffs s.spinning

module _ {ℓ} {T : Type ℓ} where
  taken-Exclusive :
      (l : SpinLock T) → (try_lock l).0 ≡ true → (l.state ≡ 0) × ((try_lock l).1.state ≡ 1)
  unfolding try_lock
  taken-Exclusive l won = (ground arith, ground arith)

  Step-Exclusive : {s t : Threads T} → Step s t → Exclusive s → Exclusive t
  unfolding unlock
  Step-Exclusive (calls t) v = record {
    state = v.state;
    one = v.one;
    backoffs = (inl refl, v.backoffs);
  }
  Step-Exclusive {s} (fails t b before after split lost) v =
      let (one, rest) =
        AllBackoffs-without before after (t, b) (subst AllBackoffs split v.backoffs) in
      record {
        state = v.state;
        one = v.one;
        backoffs =
            AllBackoffs-with before after (t, (back_off b).1) (back_off-IsBackoff b one) rest;
      }
  Step-Exclusive {s} (takes t b before after split won) v =
      let (one, rest) =
        AllBackoffs-without before after (t, b) (subst AllBackoffs split v.backoffs) in
      let (free, held) = taken-Exclusive s.lock won in
      record {
        state = omega (arith, held, free, v.state);
        one = omega (arith, free, v.state);
        backoffs = rest;
      }
  Step-Exclusive {s} (drops t before after split) v =
      let size : length s.holders ≡ suc (length (before ++ after)) =
        ap length split
        ∙ length-append before (t ∷ after)
        ∙ omega (arith, length-append before after) in
      record {
        state = omega (arith, size, v.one);
        one = omega (arith, size, v.one);
        backoffs = v.backoffs;
      }
  Step-Exclusive (writes t before after x split) v = record {
    state = v.state;
    one = v.one;
    backoffs = v.backoffs;
  }

  from-Exclusive : {s t : Threads T} → Exclusive s → Reach s t → Exclusive t
  from-Exclusive v start = v
  from-Exclusive v (next r step) = Step-Exclusive step (from-Exclusive v r)

  -- Whatever threads lock, unlock and write, in any order: at most one holds the lock, the state
  -- is 1 while one does and 0 while none does, and every backoff is 1, 2, 4, 8 or 16.
  pub Reach-Exclusive : (x : T) {s : Threads T} → Reach (fresh x) s → Exclusive s
  unfolding new
  Reach-Exclusive x r = from-Exclusive (record { state = refl; one = omega arith; backoffs = tt }) r

-- ===== src/SpinLock.antt =====
-- The spin lock of src/pkg/sync/spinlock.rs. One atomic operation on its state is a step; the data
-- that it guards is what its holder can reach.
pub mod Exclusion
use ants.Base.{
  ℕ, suc, ◌+◌, ◌*◌, ◌%◌, ◌^◌, ◌≡◌, Bool, true, false, Option, none, some, List, [], ◌∷◌, ◌++◌, ltb,
  ◌==◌, if◌then◌else◌,
}

abbrev pub max_backoff : ℕ
max_backoff = 16

pub record SpinLock {ℓ} (T : Type ℓ) : Type ℓ where
  pub state : ℕ
  pub data_ : T

module _ {ℓ} {T : Type ℓ} where
  unfoldable pub new : T → SpinLock T
  new x = record { state = 0; data_ = x }

  -- `compare_exchange(0, 1)`: whether it succeeds.
  unfoldable pub try_lock : SpinLock T → Bool × SpinLock T
  try_lock l = if l.state == 0 then (true, record l { state = 1 }) else (false, l)

  unfoldable pub unlock : SpinLock T → SpinLock T
  unlock l = record l { state = 0 }

-- What a failed try does to `backoff`, of 32 bits: the yields before the next try, and the new
-- value.
unfoldable pub back_off : ℕ → ℕ × ℕ
back_off backoff = (backoff, if ltb backoff max_backoff then backoff * 2 % 2 ^ 32 else backoff)

-- What a thread in `lock` remembers: its `backoff`.
abbrev pub first_backoff : ℕ
first_backoff = 1

-- The lock with the threads around it: those that hold a guard, and the `backoff` of those in
-- `lock`.
pub record Threads {ℓ} (T : Type ℓ) : Type ℓ where
  pub lock : SpinLock T
  pub holders : List ℕ
  pub spinning : List (ℕ × ℕ)

-- Thread `t` calls `lock`; its try fails, or succeeds; it drops its guard, or writes to the data.
pub data Step {ℓ} {T : Type ℓ} (s : Threads T) : Threads T → Type ℓ where
  calls : (t : ℕ) → Step s (record s { spinning = (t, first_backoff) ∷ s.spinning })
  fails :
      (t backoff : ℕ) (before after : List (ℕ × ℕ))
      → s.spinning ≡ before ++ ((t, backoff) ∷ after)
      → (try_lock s.lock).0 ≡ false
      → Step s (record s { spinning = before ++ ((t, (back_off backoff).1) ∷ after) })
  takes :
      (t backoff : ℕ) (before after : List (ℕ × ℕ))
      → s.spinning ≡ before ++ ((t, backoff) ∷ after)
      → (try_lock s.lock).0 ≡ true
      → Step s (record {
        lock = (try_lock s.lock).1;
        holders = t ∷ s.holders;
        spinning = before ++ after;
      })
  drops :
      (t : ℕ) (before after : List ℕ)
      → s.holders ≡ before ++ (t ∷ after)
      → Step s (record s { lock = unlock s.lock; holders = before ++ after })
  writes :
      (t : ℕ) (before after : List ℕ) (x : T)
      → s.holders ≡ before ++ (t ∷ after)
      → Step s (record s { lock = record s.lock { data_ = x } })

pub data Reach {ℓ} {T : Type ℓ} (s : Threads T) : Threads T → Type ℓ where
  start : Reach s s
  next : {t u : Threads T} → Reach s t → Step t u → Reach s u

abbrev pub fresh {ℓ} : {T : Type ℓ} → T → Threads T
fresh x = record { lock = new x; holders = []; spinning = [] }

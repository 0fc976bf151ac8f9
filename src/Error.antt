-- ===== src/Error.antt =====
-- The crate's error type and the text of each error, src/lib.rs.
use ants.Base.{ℕ, ◌≡◌, refl, ◌⊎◌, inl, inr, Bool, true, false, List, [], ◌∷◌}
use Prim.Native.String.{String}
use Prim.Native.Char.{code}

-- A text as the list of its code points.
abbrev pub Text : Type 0
Text = List ℕ

abbrev pub codes : String → Text
codes String.[] = []
codes (String.◌∷◌ c s) = code c ∷ codes s

-- `enum Error`.
pub data Error : Type 0 where
  lack_pool_func : Error
  invalid_pool_expiry : Error
  pool_closed : Error
  pool_overload : Error
  invalid_pre_alloc_size : Error
  timeout : Error
  invalid_pool_index : Error
  invalid_load_balancing_strategy : Error
  invalid_multi_pool_size : Error
  queue_is_full : Error
  canceled : Error
  deadline_exceeded : Error
  pools : Text → Error

-- `impl Display for Error`.
unfoldable pub to_string : Error → Text
to_string lack_pool_func = codes "must provide function for pool"
to_string invalid_pool_expiry = codes "invalid expiry for pool"
to_string pool_closed = codes "this pool has been closed"
to_string pool_overload = codes "too many goroutines blocked on submit or Nonblocking is set"
to_string invalid_pre_alloc_size = codes "can not set up a negative capacity under PreAlloc mode"
to_string timeout = codes "operation timed out"
to_string invalid_pool_index = codes "invalid pool index"
to_string invalid_load_balancing_strategy = codes "invalid load-balancing strategy"
to_string invalid_multi_pool_size = codes "invalid size for multiple pool"
to_string queue_is_full = codes "the queue is full"
to_string canceled = codes "context canceled"
to_string deadline_exceeded = codes "context deadline exceeded"
to_string (pools detail) = detail

-- `err == Error::PoolOverload`.
abbrev pub is_pool_overload : Error → Bool
is_pool_overload pool_overload = true
is_pool_overload _ = false

-- `Result<A, Error>`.
pub data Result {ℓ} (A : Type ℓ) : Type ℓ where
  ok : A → Result A
  err : Error → Result A

infixl 5 ◌>>=◌
abbrev pub ◌>>=◌ {ℓ κ} : {A : Type ℓ} {B : Type κ} → Result A → (A → Result B) → Result B
ok a >>= f = f a
err e >>= f = err e

pub Result-cases {ℓ} :
    {A : Type ℓ} (r : Result A) → ((a : A) × (r ≡ ok a)) ⊎ ((e : Error) × (r ≡ err e))
Result-cases (ok a) = inl (a, refl)
Result-cases (err e) = inr (e, refl)

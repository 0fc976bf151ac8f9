-- ===== src/Duration.antt =====
-- A signed count of nanoseconds, src/deps/gotime.rs. The wall clock is an argument of the code that
-- reads it.
use ants.Base.{ℕ, suc, ◌*◌, ◌<◌, ◌≡◌, refl, ap, Option, none, some, arith, Bool, if◌then◌else◌}
use ants.Base.Int.{ℤ, pos, pos_part, leb_ℤ, ltb_ℤ, eqb_ℤ, ◌*ℤ◌}
use ants.Base.Word.{i64_half, wrap_i64, add_i64, mul_i64, div_i64, neg_i64, div_i64-mul_i64}

-- `struct Duration(i64)`.
pub record Duration : Type 0 where
  pub nanos : ℤ

abbrev pub zero_duration : Duration
zero_duration = record { nanos = pos 0 }

abbrev pub nanosecond : Duration
nanosecond = record { nanos = pos 1 }

abbrev pub microsecond : Duration
microsecond = record { nanos = pos 1_000 }

abbrev pub millisecond : Duration
millisecond = record { nanos = pos 1_000_000 }

abbrev pub second : Duration
second = record { nanos = pos 1_000_000_000 }

abbrev pub from_nanos : ℤ → Duration
from_nanos n = record { nanos = n }

unfoldable pub from_millis : ℤ → Duration
from_millis millis = record { nanos = mul_i64 millis (pos 1_000_000) }

unfoldable pub from_secs : ℤ → Duration
from_secs secs = record { nanos = mul_i64 secs (pos 1_000_000_000) }

abbrev pub as_nanos : Duration → ℤ
as_nanos d = d.nanos

-- `to_std`: the unsigned duration, a negative one clamped to zero.
unfoldable pub to_std : Duration → ℕ
to_std d = if leb_ℤ d.nanos (pos 0) then 0 else pos_part d.nanos

-- `a < b` of the derived order.
abbrev pub lt_duration : Duration → Duration → Bool
lt_duration a b = ltb_ℤ a.nanos b.nanos

abbrev pub eq_duration : Duration → Duration → Bool
eq_duration a b = eqb_ℤ a.nanos b.nanos

unfoldable pub add : Duration → Duration → Duration
add a b = record { nanos = add_i64 a.nanos b.nanos }

unfoldable pub mul : Duration → ℤ → Duration
mul d n = record { nanos = mul_i64 d.nanos n }

-- `none` is the panic.
unfoldable pub div : Duration → ℤ → Option Duration
div d n = elim (div_i64 d.nanos n) [ none ↦ none | some nanos ↦ some (record { nanos = nanos }) ]

-- `x as i64` of a number of nanoseconds.
abbrev nanos_as_i64 : ℕ → ℤ
nanos_as_i64 n = wrap_i64 (pos n)

-- The wall clock, by how far it is after the Unix epoch or, with `false`, before it.
unfoldable pub now_unix_nano : Bool → ℕ → ℤ
now_unix_nano after distance =
    if after then nanos_as_i64 distance else neg_i64 (nanos_as_i64 distance)

-- How long the thread sleeps.
unfoldable pub sleep : Duration → ℕ
sleep d = to_std d

divided_back :
    (a k : ℕ)
    → a * suc k < i64_half
    → div (mul (from_nanos (pos a)) (pos (suc k))) (pos (suc k)) ≡ some (from_nanos (pos a))
unfolding div mul
divided_back a k small = rw (div_i64-mul_i64 a k small, div) refl

-- Where no product passes the range of an `i64`: a positive number of seconds is that many
-- thousands of milliseconds and that many times a second, and a duration that is not negative,
-- multiplied by a positive number, is divided back.
pub div-mul :
    (n a k : ℕ)
    → n * 1_000_000_000 < i64_half
    → a * suc k < i64_half
    → (from_secs (pos n) ≡ from_millis (pos (n * 1000)))
      × (from_secs (pos n) ≡ mul second (pos n))
      × (div (mul (from_nanos (pos a)) (pos (suc k))) (pos (suc k)) ≡ some (from_nanos (pos a)))
unfolding from_secs from_millis mul mul_i64 ◌*ℤ◌
div-mul n a k fits small = (
  ap (λ m. from_nanos (wrap_i64 (pos m))) (omega arith),
  ap (λ m. from_nanos (wrap_i64 (pos m))) (omega arith),
  divided_back a k small,
)

-- ===== src/Base/Word.antt =====
-- Fixed-width integers as the code's release build computes them. A signed integer is a `ℤ`; the
-- result of each operation is reduced into its range, so the wrap-around is written out.
use ants.Base.Int.{ℤ, pos, negsuc, pos_part, neg_part, ◌+ℤ◌, ◌-ℤ◌, ◌*ℤ◌, quot_ℤ, eqb_ℤ, sub_ℕ}
use mathlib.Core.Bool.{◌&&◌}
use mathlib.Core.Option.{Option, none, some}
use ants.Base.Tests.{ltb, if◌then◌else◌}
use Prim.Native.Nat.{ℕ, suc, ◌+◌, ◌-◌, ◌*◌, ◌/◌, ◌%◌, ◌^◌, ◌≤◌, ◌<◌}
use mathlib.Core.Path.{◌≡◌, ap, ◌∙◌}
use native.Mathlib.Nat.{mul-div_cancel}
use native.Mathlib.Omega.{arith}

-- The integer that a bit pattern of width `w` stands for, where `half` is 2 ^ (w - 1).
abbrev of_bits : ℕ → ℕ → ℤ
of_bits half m = if ltb m half then pos m else negsuc (half + half - 1 - m)

abbrev pub i32_half : ℕ
i32_half = 2 ^ 31

abbrev pub i64_half : ℕ
i64_half = 2 ^ 63

abbrev pub u32_mod : ℕ
u32_mod = 2 ^ 32

-- Two's complement reduction.
unfoldable pub wrap_i32 : ℤ → ℤ
wrap_i32 (pos n) = of_bits i32_half (n % 2 ^ 32)
wrap_i32 (negsuc n) = of_bits i32_half (2 ^ 32 - 1 - n % 2 ^ 32)

unfoldable pub wrap_i64 : ℤ → ℤ
wrap_i64 (pos n) = of_bits i64_half (n % 2 ^ 64)
wrap_i64 (negsuc n) = of_bits i64_half (2 ^ 64 - 1 - n % 2 ^ 64)

unfoldable pub add_i32 : ℤ → ℤ → ℤ
add_i32 a b = wrap_i32 (a +ℤ b)

unfoldable pub sub_i32 : ℤ → ℤ → ℤ
sub_i32 a b = wrap_i32 (a -ℤ b)

unfoldable pub sub_i64 : ℤ → ℤ → ℤ
sub_i64 a b = wrap_i64 (a -ℤ b)

-- `x as i32` for a `usize`.
unfoldable pub usize_as_i32 : ℕ → ℤ
usize_as_i32 n = wrap_i32 (pos n)

-- `x as usize` for an `i32`.
abbrev pub i32_as_usize : ℤ → ℕ
i32_as_usize (pos n) = n
i32_as_usize (negsuc n) = 2 ^ 64 - 1 - n

-- `x >> 1`, the arithmetic shift.
abbrev pub shr_one : ℤ → ℤ
shr_one (pos n) = pos (n / 2)
shr_one (negsuc n) = negsuc (n / 2)

-- The range of an `i32`.
abbrev pub IsI32 : ℤ → Type 0
IsI32 z = (pos_part z < i32_half) × (neg_part z ≤ i32_half)

pub wrap_i32-eq : (z : ℤ) → IsI32 z → wrap_i32 z ≡ z
unfolding wrap_i32
wrap_i32-eq (pos n) h = ground arith
wrap_i32-eq (negsuc n) h = ground arith

pub usize_as_i32-eq : (n : ℕ) → n < i32_half → usize_as_i32 n ≡ pos n
unfolding usize_as_i32
usize_as_i32-eq n h = wrap_i32-eq (pos n) (omega arith)

pub add_i32-pos : (a b : ℕ) → a + b < i32_half → add_i32 (pos a) (pos b) ≡ pos (a + b)
unfolding add_i32 ◌+ℤ◌
add_i32-pos a b h = ground (arith, wrap_i32-eq (pos (a + b)))

pub sub_i32-pos : (a b : ℕ) → b ≤ a → a < i32_half → sub_i32 (pos a) (pos b) ≡ pos (a - b)
unfolding sub_i32 ◌-ℤ◌
sub_i32-pos a b h k = ground (arith, wrap_i32-eq (pos (a - b)))

pub add_i32-one : (n : ℕ) → suc n < i32_half → add_i32 (pos n) (pos 1) ≡ pos (suc n)
add_i32-one n h = add_i32-pos n 1 (omega arith) ∙ ap pos (omega arith)

-- `a % b` on `i32`: the sign is that of `a`. The code's divisors are not zero.
unfoldable pub rem_i32 : ℤ → ℤ → ℤ
rem_i32 a b = rem_sign a ((pos_part a + neg_part a) % (pos_part b + neg_part b))
  where
    rem_sign : ℤ → ℕ → ℤ
    rem_sign (pos n) m = pos m
    rem_sign (negsuc n) m = sub_ℕ 0 m

-- A sum past the largest `i32` is negative.
pub add_i32-over :
    (a b : ℕ)
    → a + b < u32_mod
    → i32_half ≤ a + b
    → add_i32 (pos a) (pos b) ≡ negsuc (u32_mod - 1 - (a + b))
unfolding add_i32 ◌+ℤ◌ wrap_i32
add_i32-over a b h k = ground arith

pub add_i32-pred : (n : ℕ) → suc n < i32_half → add_i32 (pos (suc n)) (negsuc 0) ≡ pos n
unfolding add_i32 ◌+ℤ◌
add_i32-pred n h = ground (arith, wrap_i32-eq (pos n))

-- A count of steps up and down, kept as a wrapped integer.
pub add_i32-wrap_up : (n : ℕ) → add_i32 (wrap_i32 (pos n)) (pos 1) ≡ wrap_i32 (pos (suc n))
unfolding add_i32 wrap_i32 ◌+ℤ◌
add_i32-wrap_up n = ground arith

pub add_i32-wrap_down : (n : ℕ) → add_i32 (wrap_i32 (pos (suc n))) (negsuc 0) ≡ wrap_i32 (pos n)
unfolding add_i32 wrap_i32 ◌+ℤ◌
add_i32-wrap_down n = ground arith

unfoldable pub add_i64 : ℤ → ℤ → ℤ
add_i64 a b = wrap_i64 (a +ℤ b)

unfoldable pub neg_i64 : ℤ → ℤ
neg_i64 a = sub_i64 (pos 0) a

unfoldable pub mul_i64 : ℤ → ℤ → ℤ
mul_i64 a b = wrap_i64 (a *ℤ b)

-- `a / b` on `i64`: `none` is the panic, of a zero divisor and of the one quotient that is too large.
unfoldable pub div_i64 : ℤ → ℤ → Option ℤ
div_i64 a b =
    if eqb_ℤ b (pos 0)
    then none
    else if eqb_ℤ a (negsuc (i64_half - 1)) && eqb_ℤ b (negsuc 0)
    then none
    else some (quot_ℤ a b)

pub wrap_i64-small : (n : ℕ) → n < i64_half → wrap_i64 (pos n) ≡ pos n
unfolding wrap_i64
wrap_i64-small n h = ground arith

div_i64-pos : (m k : ℕ) → div_i64 (pos m) (pos (suc k)) ≡ some (pos (m / suc k))
unfolding div_i64 quot_ℤ
div_i64-pos m k = ground arith

-- A product that fits is divided back.
pub div_i64-mul_i64 :
    (a k : ℕ)
    → a * suc k < i64_half
    → div_i64 (mul_i64 (pos a) (pos (suc k))) (pos (suc k)) ≡ some (pos a)
unfolding mul_i64 ◌*ℤ◌
div_i64-mul_i64 a k fits =
    ap (λ x. div_i64 x (pos (suc k))) (wrap_i64-small (a * suc k) fits)
    ∙ div_i64-pos (a * suc k) k
    ∙ ap (λ n. some (pos n)) (mul-div_cancel a (omega arith))

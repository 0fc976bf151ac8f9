-- ===== src/Base/Decimal.antt =====
-- Numbers written in decimal, as `format!` writes an unsigned integer.
use Prim.Native.Nat.{ℕ, zero, suc, ◌+◌, ◌-◌, ◌/◌, ◌%◌}
use mathlib.Core.List.{List, [], ◌∷◌, ◌++◌}
use ants.Base.Tests.{ltb, if◌then◌else◌}
use ants.Base.Lists.{length, replicate}

-- The decimal digits of a number, as codes; of at most `fuel` digits.
unfoldable pub decimal : ℕ → ℕ → List ℕ
decimal zero n = []
decimal (suc fuel) n =
    let rest = decimal fuel (n / 10) in
    if ltb n 10 then (48 + n) ∷ [] else rest ++ ((48 + n % 10) ∷ [])

-- A number has no more digits than it is large, and one more for zero.
abbrev pub show : ℕ → List ℕ
show n = decimal (suc n) n

-- With zeros before it, up to a width.
abbrev pub show_padded : ℕ → ℕ → List ℕ
show_padded width n = let digits = show n in replicate (width - length digits) 48 ++ digits

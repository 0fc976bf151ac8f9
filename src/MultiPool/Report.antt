-- ===== src/MultiPool/Report.antt =====
-- The error text of the release of a multi-pool: one segment for each pool that failed, the
-- segments parted by " | ", each of which tells the number of its pool.
use ants.Base.{
  ℕ, zero, suc, ◌+◌, ◌-◌, ◌*◌, ◌/◌, ◌%◌, ◌<◌, ◌≡◌, refl, ap, ◌∙◌, inl, inr, true, ◌&&◌, [], ◌∷◌,
  ◌++◌, arith, ltb, leb, if◌then◌else◌, drop, Bool-cases,
}
use mathlib.Core.List.{append_assoc}
use ants.Error.{Error, Text, codes, to_string}
use ants.Base.Decimal.{decimal}
use ants.MultiPool.Text.{segment}

-- Reads the digits that a text begins with; the number so far, and the rest.
pub read_digits : ℕ → Text → ℕ × Text
read_digits n [] = (n, [])
read_digits n (c ∷ cs) =
    let more = read_digits (n * 10 + (c - 48)) cs in
    if leb 48 c && ltb c 58 then more else (n, c ∷ cs)

-- The number and the text of a segment.
abbrev pub read_segment : Text → ℕ × Text
read_segment t = let (index, rest) = read_digits 0 (drop 5 t) in (index, drop 2 rest)

digit_read :
    (n d : ℕ) (rest : Text)
    → d < 10
    → read_digits n ((48 + d) ∷ rest) ≡ read_digits (n * 10 + d) rest
unfolding read_digits
digit_read n d rest small =
    let is_digit : (leb 48 (48 + d) && ltb (48 + d) 58) ≡ true = ground arith in
    rw is_digit (ap (λ k. read_digits k rest) (omega arith))

read-decimal :
    (fuel n : ℕ) (rest : Text)
    → n < fuel
    → read_digits 0 (decimal fuel n ++ rest) ≡ read_digits n rest
unfolding decimal
read-decimal zero n rest h = absurd (omega arith)
read-decimal (suc fuel) n rest h = elim (Bool-cases (ltb n 10)) [
  | inl short ↦
      rw short (digit_read 0 n rest (ground arith) ∙ ap (λ k. read_digits k rest) (omega arith))
  | inr long ↦
      let last = 48 + n % 10 in
      rw long (
        ap (read_digits 0) (append_assoc (decimal fuel (n / 10)) (last ∷ []) rest)
        ∙ read-decimal fuel (n / 10) (last ∷ rest) (ground arith)
        ∙ digit_read (n / 10) (n % 10) rest (omega arith)
        ∙ ap (λ k. read_digits k rest) (omega arith))
]

colon_stops : (n : ℕ) (rest : Text) → read_digits n (58 ∷ rest) ≡ (n, 58 ∷ rest)
unfolding read_digits
colon_stops n rest = refl

-- The number of the pool and the text of its error are read back from the segment of the pool.
pub read_segment-segment :
    (index : ℕ) (e : Error) → read_segment (segment index e) ≡ (index, to_string e)
unfolding segment
read_segment-segment index e =
    ap (λ r. (r.0, drop 2 r.1))
      (read-decimal (suc index) index (codes ": " ++ to_string e) (omega arith)
        ∙ colon_stops index (32 ∷ to_string e))

-- ===== src/Golog.antt =====
-- The line format of the logger, src/deps/golog.rs. The clock is a parameter: the fields of the
-- present time, in UTC or in the local zone.
use Prim.Native.Nat.{bit_and, bit_or}
use ants.Base.{
  ℕ, ◌≡◌, refl, inl, inr, Bool, true, false, not, [], ◌∷◌, ◌++◌, ◌==◌, if◌then◌else◌, Bool-cases,
}
use ants.Base.Decimal.{show_padded}
use ants.Error.{Text, codes}

abbrev pub ldate : ℕ
ldate = 1

abbrev pub ltime : ℕ
ltime = 2

abbrev pub lmicroseconds : ℕ
lmicroseconds = 4

abbrev pub lutc : ℕ
lutc = 32

abbrev pub lmsgprefix : ℕ
lmsgprefix = 64

abbrev pub lstd_flags : ℕ
lstd_flags = bit_or ldate ltime

pub data Target : Type 0 where
  stdout stderr : Target

pub record StdLogger : Type 0 where
  pub target : Target
  pub prefix : Text
  pub flags : ℕ

-- `fields`, of a time in a year that is not negative.
pub record Fields : Type 0 where
  pub year : ℕ
  pub month : ℕ
  pub day : ℕ
  pub hour : ℕ
  pub minute : ℕ
  pub second : ℕ
  pub micros : ℕ

-- `self.flags & mask != 0`.
abbrev pub has : ℕ → StdLogger → Bool
has mask l = not (bit_and l.flags mask == 0)

abbrev pub date_text : Fields → Text
date_text f =
    show_padded 4 f.year
    ++ (codes "/" ++ (show_padded 2 f.month ++ (codes "/" ++ (show_padded 2 f.day ++ codes " "))))

abbrev pub clock_text : Fields → Text
clock_text f =
    show_padded 2 f.hour
    ++ (codes ":" ++ (show_padded 2 f.minute ++ (codes ":" ++ show_padded 2 f.second)))

-- `now utc` are the fields of the present time.
unfoldable pub write_timestamp : (Bool → Fields) → StdLogger → Text → Text
write_timestamp now l line =
    let f = now (has lutc l) in
    let line1 = if has ldate l then line ++ date_text f else line in
    if has (bit_or ltime lmicroseconds) l
    then (let line2 = line1 ++ clock_text f in
        let line3 =
          if has lmicroseconds l then line2 ++ (codes "." ++ show_padded 6 f.micros) else line2 in
        line3 ++ codes " ")
    else line1

unfoldable pub ends_with_newline : Text → Bool
ends_with_newline [] = false
ends_with_newline (c ∷ []) = c == 10
ends_with_newline (c ∷ d ∷ cs) = ends_with_newline (d ∷ cs)

unfoldable pub header : (Bool → Fields) → StdLogger → Text
header now l =
    let line1 = if has lmsgprefix l then [] else l.prefix in
    let line2 =
      if has (bit_or (bit_or ldate ltime) lmicroseconds) l
      then write_timestamp now l line1
      else line1 in
    if has lmsgprefix l then line2 ++ l.prefix else line2

unfoldable pub format : (Bool → Fields) → StdLogger → Text → Text
format now l message =
    let line = header now l ++ message in if ends_with_newline line then line else line ++ (10 ∷ [])

-- What is printed, and where.
abbrev pub printf : (Bool → Fields) → StdLogger → Text → Target × Text
printf now l message = (l.target, format now l message)

-- `default_logger` of src/lib.rs.
abbrev pub default_logger : StdLogger
default_logger = record {
  target = stderr;
  prefix = codes "[ants]: ";
  flags = bit_or (bit_or lstd_flags lmsgprefix) lmicroseconds;
}

ends_with_newline-added : (t : Text) → ends_with_newline (t ++ (10 ∷ [])) ≡ true
unfolding ends_with_newline
ends_with_newline-added [] = refl
ends_with_newline-added (c ∷ []) = refl
ends_with_newline-added (c ∷ d ∷ cs) = ends_with_newline-added (d ∷ cs)

-- Whatever the flags, the prefix and the time, a line ends with a newline; and the line of the
-- default logger is the date, the time with its microseconds, the prefix and then the message,
-- with a newline after it where it has none at its end.
pub format-line :
    (now : Bool → Fields) (l : StdLogger) (message : Text)
    → let f = now false in
      let line =
        ((((date_text f ++ clock_text f) ++ (codes "." ++ show_padded 6 f.micros)) ++ codes " ")
          ++ codes "[ants]: ")
        ++ message in
      (ends_with_newline (format now l message) ≡ true)
      × (format now default_logger message
          ≡ (if ends_with_newline line then line else line ++ (10 ∷ [])))
unfolding format header write_timestamp
format-line now l message = (
  elim (Bool-cases (ends_with_newline (header now l ++ message))) [
    | inl ends ↦ rw ends ends
    | inr open_end ↦ rw open_end (ends_with_newline-added (header now l ++ message))
  ],
  refl,
)

-- ===== src/MultiPool/Segments.antt =====
-- The segments in the error text of the release of a multi-pool: none is lost, and " | " stands
-- between them and nowhere at the end.
use ants.Base.{
  ℕ, ◌+◌, ◌≡◌, refl, sym, ap, ◌∙◌, Bool, true, false, Option, none, some, List, [], ◌∷◌, ◌++◌, ◌==◌,
  if◌then◌else◌,
}
use mathlib.Core.List.{
  reverse, reverse-cons, reverse-append, reverse-reverse, append-nil, append_assoc,
}
use ants.Error.{
  Error, Result, ok, err, Text, codes, to_string, lack_pool_func, invalid_pool_expiry, pool_closed,
  pool_overload, invalid_pre_alloc_size, timeout, invalid_pool_index,
  invalid_load_balancing_strategy, invalid_multi_pool_size, queue_is_full, canceled,
  deadline_exceeded, pools,
}
use ants.Base.Decimal.{show}
use ants.MultiPool.Text.{
  is_empty, segment, trim_front, trim_end, outcomes, write_detail, release_pools,
}

abbrev pub bar : Text
bar = codes " | "

-- The segments of the pools that failed.
abbrev pub segments : ℕ → List (Option (Result (Unit {0}))) → List Text
segments index [] = []
segments index (none ∷ threads) = segments (index + 1) threads
segments index (some (ok u) ∷ threads) = segments (index + 1) threads
segments index (some (err e) ∷ threads) = segment index e ∷ segments (index + 1) threads

-- Texts with " | " between them.
abbrev pub with_bars : List Text → Text
with_bars [] = []
with_bars (s ∷ []) = s
with_bars (s ∷ t ∷ rest) = s ++ (bar ++ with_bars (t ∷ rest))

abbrev pub is_pools : Error → Bool
is_pools (pools detail) = true
is_pools _ = false

-- No pool fails with the error of a multi-pool.
abbrev pub AllSingle : List (Option (Result (Unit {0}))) → Type 0
AllSingle [] = Unit
AllSingle (none ∷ threads) = AllSingle threads
AllSingle (some (ok u) ∷ threads) = AllSingle threads
AllSingle (some (err e) ∷ threads) = (is_pools e ≡ false) × AllSingle threads

-- Each text followed by " | ".
abbrev barred : List Text → Text
barred [] = []
barred (s ∷ rest) = s ++ (bar ++ barred rest)

-- The last code of a text, or `d`.
abbrev last_or : ℕ → Text → ℕ
last_or d [] = d
last_or d (c ∷ cs) = last_or c cs

last_or-append : (s t : Text) (d : ℕ) → last_or d (s ++ t) ≡ last_or (last_or d s) t
last_or-append [] t d = refl
last_or-append (c ∷ cs) t d = last_or-append cs t c

-- It does not end with a space.
abbrev Clean : Text → Type 0
Clean t = (last_or 32 t == 32) ≡ false

abbrev AllClean : List Text → Type 0
AllClean [] = Unit
AllClean (s ∷ rest) = Clean s × AllClean rest

reverse_last : (c : ℕ) (cs : Text) → (u : Text) × (reverse (c ∷ cs) ≡ last_or c cs ∷ u)
reverse_last c [] = ([], refl)
reverse_last c (d ∷ ds) =
    let (u, backwards) = reverse_last d ds in
    (u ++ (c ∷ []), reverse-cons c (d ∷ ds) ∙ ap (λ r. r ++ (c ∷ [])) backwards)

trim_front-other : (l : ℕ) (u : Text) → (l == 32) ≡ false → trim_front (l ∷ u) ≡ l ∷ u
unfolding trim_front
trim_front-other l [] other = refl
trim_front-other l (b ∷ []) other = refl
trim_front-other l (b ∷ c ∷ rest) other = rw other refl

trim_end-Clean : (t : Text) → Clean t → trim_end t ≡ t
unfolding trim_end
trim_end-Clean [] clean = absurd (cc (clean))
trim_end-Clean (c ∷ cs) clean =
    let (u, backwards) = reverse_last c cs in
    ap (λ r. reverse (trim_front r)) backwards
    ∙ ap reverse (trim_front-other (last_or c cs) u clean ∙ sym backwards)
    ∙ reverse-reverse (c ∷ cs)

trim_end-bar : (t : Text) → trim_end (t ++ bar) ≡ trim_end t
unfolding trim_end trim_front
trim_end-bar t = ap (λ r. reverse (trim_front r)) (reverse-append t bar)

barred-with_bars : (s : Text) (rest : List Text) → barred (s ∷ rest) ≡ with_bars (s ∷ rest) ++ bar
barred-with_bars s [] = refl
barred-with_bars s (t ∷ rest) =
    ap (λ x. s ++ (bar ++ x)) (barred-with_bars t rest)
    ∙ sym (append_assoc s (bar ++ with_bars (t ∷ rest)) bar)

with_bars-Clean : (s : Text) (rest : List Text) → AllClean (s ∷ rest) → Clean (with_bars (s ∷ rest))
with_bars-Clean s [] c = c.0
with_bars-Clean s (t ∷ rest) c =
    ap (λ n. n == 32) (last_or-append s (bar ++ with_bars (t ∷ rest)) 32)
    ∙ with_bars-Clean t rest c.1

to_string-Clean :
    (e : Error) → is_pools e ≡ false → (d : ℕ) → (last_or d (to_string e) == 32) ≡ false
unfolding to_string
to_string-Clean lack_pool_func h d = refl
to_string-Clean invalid_pool_expiry h d = refl
to_string-Clean pool_closed h d = refl
to_string-Clean pool_overload h d = refl
to_string-Clean invalid_pre_alloc_size h d = refl
to_string-Clean timeout h d = refl
to_string-Clean invalid_pool_index h d = refl
to_string-Clean invalid_load_balancing_strategy h d = refl
to_string-Clean invalid_multi_pool_size h d = refl
to_string-Clean queue_is_full h d = refl
to_string-Clean canceled h d = refl
to_string-Clean deadline_exceeded h d = refl
to_string-Clean (pools detail) h d = absurd (cc (h))

segments-AllClean :
    (index : ℕ) (threads : List (Option (Result (Unit {0}))))
    → AllSingle threads
    → AllClean (segments index threads)
unfolding segment
segments-AllClean index [] h = tt
segments-AllClean index (none ∷ threads) h = segments-AllClean (index + 1) threads h
segments-AllClean index (some (ok u) ∷ threads) h = segments-AllClean (index + 1) threads h
segments-AllClean index (some (err e) ∷ threads) h = (
  ap (λ n. n == 32) (last_or-append (show index) (codes ": " ++ to_string e) 32)
      ∙ to_string-Clean e h.0 32,
  segments-AllClean (index + 1) threads h.1,
)

written :
    (detail : Text) (index : ℕ) (threads : List (Option (Result (Unit {0}))))
    → write_detail detail (outcomes index threads) ≡ detail ++ barred (segments index threads)
unfolding write_detail outcomes to_string
written detail index [] = sym (append-nil detail)
written detail index (none ∷ threads) = written detail (index + 1) threads
written detail index (some (ok u) ∷ threads) = written detail (index + 1) threads
written detail index (some (err e) ∷ threads) =
    written (detail ++ segment index e ++ bar) (index + 1) threads
    ∙ append_assoc (detail ++ segment index e) bar (barred (segments (index + 1) threads))
    ∙ append_assoc detail (segment index e) (bar ++ barred (segments (index + 1) threads))

-- What is reported of the segments.
abbrev pub report : List Text → Result (Unit {0})
report [] = ok tt
report (s ∷ rest) = err (pools (with_bars (s ∷ rest)))

barred-full : (s : Text) (more : Text) → is_empty (s ++ (bar ++ more)) ≡ false
barred-full [] more = refl
barred-full (c ∷ cs) more = refl

reported :
    (ss : List Text)
    → AllClean ss
    → (if is_empty (barred ss) then ok tt else err (pools (trim_end (barred ss)))) ≡ report ss
reported [] clean = refl
reported (s ∷ rest) clean = rw (barred-full s (barred rest)) (
    ap (λ t. err (pools t))
      (ap trim_end (barred-with_bars s rest)
        ∙ trim_end-bar (with_bars (s ∷ rest))
        ∙ trim_end-Clean (with_bars (s ∷ rest)) (with_bars-Clean s rest clean)))

-- Where no pool fails with the error of a multi-pool, `release_pools` is a success if no pool
-- failed, and else reports one segment for each pool that did, in the order of the pools, with
-- " | " between them and nothing after the last.
pub release_pools-segments :
    (threads : List (Option (Result (Unit {0}))))
    → AllSingle threads
    → release_pools threads ≡ report (segments 0 threads)
unfolding release_pools
release_pools-segments threads single =
    ap (λ d. if is_empty d then ok tt else err (pools (trim_end d))) (written [] 0 threads)
    ∙ reported (segments 0 threads) (segments-AllClean 0 threads single)

-- ===== src/MultiPool/Text.antt =====
-- The text of the error that the release of a multi-pool reports, `release_pools` of
-- src/multipool.rs.
use ants.Base.{
  ℕ, ◌+◌, Bool, true, false, ◌&&◌, Option, none, some, List, [], ◌∷◌, ◌++◌, ◌==◌, if◌then◌else◌,
}
use mathlib.Core.List.{reverse}
use ants.Base.Decimal.{show}
use ants.Error.{Error, Result, ok, err, Text, codes, to_string, pools}

-- `format!("pool {index}: {err}")`.
unfoldable pub segment : ℕ → Error → Text
segment index e = codes "pool " ++ (show index ++ (codes ": " ++ to_string e))

-- `trim_end_matches(" | ")`, on the text read backwards.
unfoldable pub trim_front : Text → Text
trim_front (a ∷ b ∷ c ∷ rest) =
    let trimmed = trim_front rest in
    if (a == 32) && (b == 124) && (c == 32) then trimmed else a ∷ b ∷ c ∷ rest
trim_front short = short

unfoldable pub trim_end : Text → Text
trim_end t = reverse (trim_front (reverse t))

-- `handle.join().unwrap_or(Ok(()))`: `none` is a thread that panicked.
abbrev pub joined : Option (Result (Unit {0})) → Result (Unit {0})
joined none = ok tt
joined (some r) = r

-- The outcome of the pool number `index`.
abbrev pub labelled : ℕ → Result (Unit {0}) → Result (Unit {0})
labelled index (ok u) = ok u
labelled index (err e) = err (pools (segment index e))

unfoldable pub outcomes : ℕ → List (Option (Result (Unit {0}))) → List (Result (Unit {0}))
outcomes index [] = []
outcomes index (thread ∷ threads) = labelled index (joined thread) ∷ outcomes (index + 1) threads

-- The loop that writes the detail.
unfoldable pub write_detail : Text → List (Result (Unit {0})) → Text
write_detail detail [] = detail
write_detail detail (ok u ∷ rest) = write_detail detail rest
write_detail detail (err e ∷ rest) = write_detail (detail ++ to_string e ++ codes " | ") rest

abbrev pub is_empty : Text → Bool
is_empty [] = true
is_empty (c ∷ cs) = false

-- `release_pools`, of what the threads return.
unfoldable pub release_pools : List (Option (Result (Unit {0}))) → Result (Unit {0})
release_pools threads =
    let detail = write_detail [] (outcomes 0 threads) in
    if is_empty detail then ok tt else err (pools (trim_end detail))

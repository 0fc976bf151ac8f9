-- ===== src/Base/Count.antt =====
-- How many of a list's numbers are a given one, in native numbers.
use Prim.Native.Nat.{ℕ, ◌+◌}
use mathlib.Core.Path.{◌≡◌, refl, sym, ◌∙◌}
use mathlib.Core.List.{List, [], ◌∷◌, ◌++◌, filter, Perm}
use mathlib.Core.List.Perm as Perm
use native.Mathlib.Decide.{ℕ_discrete}
use native.Mathlib.Omega.{arith}
use ants.Base.Tests.{◌==◌, if◌then◌else◌}
use ants.Base.Lists.{length, length-Perm}

abbrev pub times : ℕ → List ℕ → ℕ
times w [] = 0
times w (v ∷ rest) = times w rest + (if v == w then 1 else 0)

times-filter : (w : ℕ) (vs : List ℕ) → times w vs ≡ length (filter (λ v. ℕ_discrete v w) vs)
times-filter w [] = refl
times-filter w (v ∷ rest) = ground (arith, times-filter w rest)

pub times-Perm : {us vs : List ℕ} (w : ℕ) → Perm us vs → times w us ≡ times w vs
times-Perm {us} {vs} w same =
    times-filter w us
    ∙ length-Perm (Perm.filter (λ v. ℕ_discrete v w) same)
    ∙ sym (times-filter w vs)

pub times-append : (us vs : List ℕ) (w : ℕ) → times w (us ++ vs) ≡ times w us + times w vs
times-append [] vs w = omega arith
times-append (u ∷ us) vs w = let rest = times-append us vs w in omega (arith, rest)

-- A list without one of its elements.
pub times-middle :
    (before after : List ℕ) (w v : ℕ)
    → times w (before ++ (v ∷ after)) ≡ times w (before ++ after) + (if v == w then 1 else 0)
times-middle before after w v =
    omega (arith, times-append before (v ∷ after) w, times-append before after w)

-- The sum of a list's weights.
abbrev pub total {ℓ} : {A : Type ℓ} → (A → ℕ) → List A → ℕ
total weight [] = 0
total weight (x ∷ rest) = weight x + total weight rest

pub total-append {ℓ} :
    {A : Type ℓ} (weight : A → ℕ) (xs ys : List A)
    → total weight (xs ++ ys) ≡ total weight xs + total weight ys
total-append weight [] ys = omega arith
total-append weight (x ∷ xs) ys = let rest = total-append weight xs ys in omega (arith, rest)

pub total-middle {ℓ} :
    {A : Type ℓ} (weight : A → ℕ) (before after : List A) (x : A)
    → total weight (before ++ (x ∷ after)) ≡ weight x + total weight (before ++ after)
total-middle weight before after x =
    omega (arith, total-append weight before (x ∷ after), total-append weight before after)

-- ===== src/MultiPool/Least.antt =====
-- The least-tasks choice of src/multipool.rs: the loop of `next` finds a least count.
use ants.Base.{
  ℕ, suc, ◌+◌, ◌≡◌, refl, ap, ◌∙◌, ◌⊎◌, inl, inr, true, false, some, List, [], ◌∷◌, arith,
  Bool-cases, get_elem?,
}
use ants.Base.Int.{ℤ, ◌≤ℤ◌, ltb_ℤ, ltb_ℤ→<ℤ, ltb_ℤ-false}
use ants.MultiPool.{least_loop, i32_max}

abbrev pub AllAtLeast : ℤ → List ℤ → Type 0
AllAtLeast v [] = Unit
AllAtLeast v (r ∷ rs) = (v ≤ℤ r) × AllAtLeast v rs

AllAtLeast-below : (u v : ℤ) (rs : List ℤ) → u ≤ℤ v → AllAtLeast v rs → AllAtLeast u rs
AllAtLeast-below u v [] h a = tt
AllAtLeast-below u v (r ∷ rs) h a = (omega (arith, h, a.0), AllAtLeast-below u v rs h a.1)

loop-less :
    (r : ℤ) (rs : List ℤ) (c : ℕ) (least : ℤ) (index : ℕ)
    → ltb_ℤ r least ≡ true
    → least_loop (r ∷ rs) c least index ≡ least_loop rs (c + 1) r c
unfolding least_loop
loop-less r rs c least index less = rw (less, least_loop) refl

loop-more :
    (r : ℤ) (rs : List ℤ) (c : ℕ) (least : ℤ) (index : ℕ)
    → ltb_ℤ r least ≡ false
    → least_loop (r ∷ rs) c least index ≡ least_loop rs (c + 1) least index
unfolding least_loop
loop-more r rs c least index more = rw (more, least_loop) refl

loop-cases :
    (rs : List ℤ) (c : ℕ) (least : ℤ) (index : ℕ)
    → ((least_loop rs c least index ≡ index) × AllAtLeast least rs)
      ⊎ ((k : ℕ) × (v : ℤ) × (least_loop rs c least index ≡ c + k)
          × (get_elem? rs k ≡ some v)
          × (v ≤ℤ least)
          × AllAtLeast v rs)
unfolding least_loop
loop-cases [] c least index = inl (refl, tt)
loop-cases (r ∷ rs) c least index = elim (Bool-cases (ltb_ℤ r least)) [
  | inl less ↦ elim (loop-cases rs (c + 1) r c) [
    | inl (same, all) ↦ inr (
      0,
      r,
      loop-less r rs c least index less ∙ same ∙ omega arith,
      refl,
      omega (arith, ltb_ℤ→<ℤ r least less),
      (omega arith, all),
    )
    | inr (k, v, found, at, below, all) ↦ inr (
      suc k,
      v,
      loop-less r rs c least index less ∙ found ∙ omega arith,
      at,
      omega (arith, ltb_ℤ→<ℤ r least less, below),
      (below, all),
    )
  ]
  | inr more ↦ elim (loop-cases rs (c + 1) least index) [
    | inl (same, all) ↦
        inl (loop-more r rs c least index more ∙ same, (ltb_ℤ-false r least more, all))
    | inr (k, v, found, at, below, all) ↦ inr (
      suc k,
      v,
      loop-more r rs c least index more ∙ found ∙ omega arith,
      at,
      below,
      (omega (arith, ltb_ℤ-false r least more, below), all),
    )
  ]
]

-- With at least one pool, and counts that are `i32`s, the chosen pool exists and no pool runs fewer
-- workers.
pub least_loop_lem :
    (r : ℤ) (rs : List ℤ)
    → r ≤ℤ i32_max
    → (v : ℤ) × (get_elem? (r ∷ rs) (least_loop (r ∷ rs) 0 i32_max 0) ≡ some v)
      × AllAtLeast v (r ∷ rs)
least_loop_lem r rs small = elim (loop-cases (r ∷ rs) 0 i32_max 0) [
  | inl (same, all) ↦
      (r, ap (get_elem? (r ∷ rs)) same, AllAtLeast-below r i32_max (r ∷ rs) small all)
  | inr (k, v, found, at, below, all) ↦ (v, ap (get_elem? (r ∷ rs)) (found ∙ omega arith) ∙ at, all)
]

-- ===== src/MultiPool/Made.antt =====
-- How `MultiPoolCore::new` of src/multipool.rs makes its pools, and what it does when one fails.
use ants.Base.{
  ℕ, zero, suc, ◌+◌, ◌-◌, ◌<◌, ◌≡◌, refl, sym, ap, ◌∙◌, ◌⊎◌, inl, inr, false, not, ◌&&◌, some, List,
  [], ◌∷◌, ◌++◌, map, arith, dec_lt, length, get_elem?, length-append, get_elem?-append_lt,
  get_elem?-append_self,
}
use ants.Base.Int.{pos, leb_ℤ}
use ants.Base.Word.{u32_mod}
use ants.Error.{Error, Result, ok, err, Result-cases}
use ants.PoolCore.{opened}
use ants.MultiPool.Dispatch.{get_elem?-bound}
use ants.MultiPool.{
  MultiPoolCore, Poolish, LoadBalancingStrategy, round_robin, least_tasks, same_strategy,
  make_pools, new,
}

-- Each pool of the list is what `make_pool` returned for its number.
abbrev pub MadeBy : {P : Type 0} → (ℕ → Result P) → List P → Type 0
MadeBy {P} make_pool made = (i : ℕ) (p : P) → get_elem? made i ≡ some p → make_pool i ≡ ok p

module _ {P A : Type 0} (po : Poolish P A) (make_pool : ℕ → Result P) where
  MadeBy-snoc :
      (made : List P) (p : P)
      → MadeBy make_pool made
      → make_pool (length made) ≡ ok p
      → MadeBy make_pool (made ++ (p ∷ []))
  MadeBy-snoc made p by last i q at = elim (dec_lt i (length made)) [
    | yes before ↦ by i q (sym (get_elem?-append_lt made (p ∷ []) i before) ∙ at)
    | no rest ↦
        let e : i ≡ length made =
          omega (arith, get_elem?-bound (made ++ (p ∷ [])) i q at, length-append made (p ∷ [])) in
        let here : some p ≡ some q =
          sym (get_elem?-append_self made p) ∙ ap (get_elem? (made ++ (p ∷ []))) (sym e) ∙ at in
        let same : p ≡ q = cc in ap make_pool e ∙ last ∙ ap ok same
  ]

  make_pools-err :
      (n : ℕ) (made : List P) (e : Error)
      → make_pool (length made) ≡ err e
      → make_pools po (suc n) make_pool made ≡ (err e, map po.release made)
  unfolding make_pools
  make_pools-err n made e bad = rw (bad, make_pools) refl

  make_pools-ok :
      (n : ℕ) (made : List P) (p : P)
      → make_pool (length made) ≡ ok p
      → make_pools po (suc n) make_pool made ≡ make_pools po n make_pool (made ++ (p ∷ []))
  unfolding make_pools
  make_pools-ok n made p good = rw (good, make_pools) refl

  make_pools-cases :
      (n : ℕ) (made : List P)
      → MadeBy make_pool made
      → ((pools : List P) × (make_pools po n make_pool made ≡ (ok pools, []))
          × (length pools ≡ length made + n)
          × MadeBy make_pool pools)
        ⊎ ((first : List P) × (e : Error) × (make_pools po n make_pool made
              ≡ (err e, map po.release first))
            × (make_pool (length first) ≡ err e)
            × (length first < length made + n)
            × MadeBy make_pool first)
  unfolding make_pools
  make_pools-cases zero made by = inl (made, refl, omega arith, by)
  make_pools-cases (suc n) made by = elim (Result-cases (make_pool (length made))) [
    | inr (e, bad) ↦ inr (made, e, make_pools-err n made e bad, bad, omega arith, by)
    | inl (p, good) ↦ elim (make_pools-cases n (made ++ (p ∷ [])) (MadeBy-snoc made p by good)) [
      | inl (pools, run, size, all) ↦ inl (
        pools,
        make_pools-ok n made p good ∙ run,
        omega (arith, size, length-append made (p ∷ [])),
        all,
      )
      | inr (first, e, run, bad, short, all) ↦ inr (
        first,
        e,
        make_pools-ok n made p good ∙ run,
        bad,
        omega (arith, short, length-append made (p ∷ [])),
        all,
      )
    ]
  ]

  -- For a positive size and one of the two strategies, `new` makes an open multi-pool of that many
  -- pools, each as `make_pool` gave it; or the first failure of `make_pool` is its error, and it
  -- has released exactly the pools made before, in order.
  pub new-Made :
      (n : ℕ) (lbs : LoadBalancingStrategy)
      → (lbs ≡ round_robin) ⊎ (lbs ≡ least_tasks)
      → ((m : MultiPoolCore P) × (new po (pos (suc n)) lbs make_pool ≡ (ok m, []))
          × (length m.pools ≡ suc n)
          × MadeBy make_pool m.pools
          × (m.state ≡ opened)
          × (m.lbs ≡ lbs)
          × (m.index ≡ u32_mod - 1))
        ⊎ ((first : List P) × (e : Error) × (new po (pos (suc n)) lbs make_pool
              ≡ (err e, map po.release first))
            × (make_pool (length first) ≡ err e)
            × (length first < suc n)
            × MadeBy make_pool first)
  unfolding new
  new-Made n lbs known =
      let valid : (not (same_strategy lbs round_robin) && not (same_strategy lbs least_tasks))
          ≡ false =
        elim known [
          | inl turn ↦
              ap (λ s. not (same_strategy s round_robin) && not (same_strategy s least_tasks)) turn
              ∙ ground arith
          | inr least ↦
              ap (λ s. not (same_strategy s round_robin) && not (same_strategy s least_tasks)) least
              ∙ ground arith
        ] in
      let positive : leb_ℤ (pos (suc n)) (pos 0) ≡ false = ground arith in
      elim (make_pools-cases (suc n) [] (λ i p at. absurd (cc (at)))) [
        | inl (pools, run, size, all) ↦ inl (
          record { pools = pools; index = u32_mod - 1; state = opened; lbs = lbs },
          rw (positive, valid, run) refl,
          omega (arith, size),
          all,
          refl,
          refl,
          refl,
        )
        | inr (first, e, run, bad, short, all) ↦
            inr (first, e, rw (positive, valid, run) refl, bad, omega (arith, short), all)
      ]

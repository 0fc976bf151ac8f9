-- ===== src/LoopQueue/Slots.antt =====
-- `take_slots` empties a run of slots and collects their workers: the two loops of
-- `LoopQueue::refresh`.
use ants.Base.{
  ℕ, zero, suc, ◌+◌, ◌-◌, ◌≤◌, ◌<◌, ◌≡◌, refl, sym, ap, ◌∙◌, subst, ◌⊎◌, Option, none, some, List,
  [], ◌∷◌, ◌++◌, arith, ℕ_discrete, length, get_elem?, set, length-set, get_or-set_self,
  get_or-set_ne,
}
use ants.LoopQueue.{LoopQueue, slot, take_slots, expire_to}

module _ {ℓ} {W : Type ℓ} where
  pub length-take_slots :
      (items : List (Option W)) (a n : ℕ) → length (take_slots items a n).1 ≡ length items
  unfolding take_slots
  length-take_slots items a zero = refl
  length-take_slots items a (suc n) =
      length-take_slots (set items a none) (a + 1) n ∙ length-set items a none

  -- A slot outside the run is as it was.
  pub take_slots-outside :
      (items : List (Option W)) (a n j : ℕ)
      → (j < a) ⊎ (a + n ≤ j)
      → slot (take_slots items a n).1 j ≡ slot items j
  unfolding take_slots
  take_slots-outside items a zero j out = refl
  take_slots-outside items a (suc n) j out =
      take_slots-outside (set items a none) (a + 1) n j (omega arith)
      ∙ get_or-set_ne items a j none none (omega arith)

  -- A slot of the run is empty.
  pub take_slots-inside :
      (items : List (Option W)) (a n j : ℕ)
      → a + n ≤ length items
      → a ≤ j
      → j < a + n
      → slot (take_slots items a n).1 j ≡ none
  unfolding take_slots
  take_slots-inside items a zero j fits lo hi = absurd (omega arith)
  take_slots-inside items a (suc n) j fits lo hi = elim (ℕ_discrete a j) [
    | yes e ↦
        take_slots-outside (set items a none) (a + 1) n j (omega arith)
        ∙ ap (slot (set items a none)) (sym e)
        ∙ get_or-set_self items a none none (omega arith)
    | no ne ↦
        take_slots-inside (set items a none) (a + 1) n j (omega (arith, length-set items a none))
          (omega arith) (omega arith)
  ]

  -- The workers collected are those of the slots, in their order.
  pub take_slots-workers :
      (items : List (Option W)) (a n : ℕ) (ys : List W)
      → length ys ≡ n
      → ((i : ℕ) → i < n → slot items (a + i) ≡ get_elem? ys i)
      → (take_slots items a n).0 ≡ ys
  unfolding take_slots
  take_slots-workers items a zero [] e read = refl
  take_slots-workers items a zero (y ∷ ys) e read = absurd (omega arith)
  take_slots-workers items a (suc n) [] e read = absurd (omega arith)
  take_slots-workers items a (suc n) (y ∷ ys) e read =
      rw (first, take_slots)
        (ap (λ ws. y ∷ ws) (take_slots-workers (set items a none) (a + 1) n ys (omega arith) rest))
    where
      first : slot items a ≡ some y
      first = subst (λ j. slot items j ≡ some y) (omega arith) (read 0 (omega arith))

      rest : (i : ℕ) → i < n → slot (set items a none) (a + 1 + i) ≡ get_elem? ys i
      rest i lt =
          get_or-set_ne items a (a + 1 + i) none none (omega arith)
          ∙ subst (λ j. slot items j ≡ get_elem? ys i) (omega arith) (read (suc i) (omega arith))

  pub expire_to_straight :
      (q : LoopQueue W) (index : ℕ)
      → q.head ≤ index
      → let (ws, items) = take_slots q.items q.head (index + 1 - q.head) in
        expire_to q index ≡ (ws, record q { items = items })
  unfolding expire_to
  expire_to_straight q index h = ground arith

  pub expire_to_wrapped :
      (q : LoopQueue W) (index : ℕ)
      → index < q.head
      → let (first, items) = take_slots q.items 0 (index + 1) in
        let (second, items') = take_slots items q.head (length q.items - q.head) in
        expire_to q index ≡ (first ++ second, record q { items = items' })
  unfolding expire_to
  expire_to_wrapped q index h = ground arith

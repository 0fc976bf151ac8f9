-- ===== src/LoopQueue/Expire.antt =====
-- The two loops of `LoopQueue::refresh` over the slots: which workers they collect, in which order,
-- and which slots they empty.
use ants.Base.{
  ℕ, zero, suc, ◌+◌, ◌-◌, ◌%◌, ◌≤◌, ◌<◌, ◌≡◌, refl, sym, ap, ap₂, ◌∙◌, subst, ◌⊎◌, Option, none,
  List, [], ◌∷◌, ◌++◌, arith, dec_lt, length, get_elem?, take, drop, length-take, length-drop,
  get_elem?-drop, get_elem?-take,
}
use ants.LoopQueue.{LoopQueue, slot, take_slots, expire_to}
use ants.LoopQueue.Holds.{Holds, add-mod}
use ants.LoopQueue.Advance.{Cleared}
use ants.LoopQueue.Slots.{
  length-take_slots, take_slots-outside, take_slots-inside, take_slots-workers, expire_to_straight,
  expire_to_wrapped,
}

module _ {ℓ} {W : Type ℓ} where
  -- The order in which `refresh` returns workers: those of the slots from zero on come first.
  abbrev pub from_slot_zero : ℕ → List W → List W
  from_slot_zero to_end ws = drop to_end ws ++ take to_end ws

  pub take-all : (n : ℕ) (ws : List W) → length ws ≤ n → (take n ws ≡ ws) × (drop n ws ≡ [])
  take-all zero [] h = (refl, refl)
  take-all zero (w ∷ ws) h = absurd (omega arith)
  take-all (suc n) [] h = (refl, refl)
  take-all (suc n) (w ∷ ws) h =
      let ih = take-all n ws (omega arith) in (ap (λ ys. w ∷ ys) ih.0, ih.1)

  module _ {q : LoopQueue W} (xs : List W) (k : ℕ) (v : Holds q xs) (some_stale : 0 < k)
      (bound : k ≤ length xs) where
    abbrev pub Expired : ℕ → Type ℓ
    Expired index =
        (items : List (Option W)) × (expire_to q index
          ≡ (from_slot_zero (q.size - q.head) (take k xs), record q { items = items }))
        × Cleared q.items items q.head q.size k

    -- The slot of position `j` of the list, wherever it falls.
    slot-of : (p j : ℕ) → j < q.size → p ≡ (q.head + j) % q.size → slot q.items p ≡ get_elem? xs j
    slot-of p j h e = ap (slot q.items) e ∙ v.slots j h

    room : (q.head < q.size) × (k ≤ q.size) × (length q.items ≡ q.size)
    room = (v.head_in, omega (arith, v.fits), v.storage)

    position :
        (j : ℕ)
        → j ≤ q.size
        → ((q.head + j < q.size) × ((q.head + j) % q.size ≡ q.head + j))
          ⊎ ((q.size ≤ q.head + j) × ((q.head + j) % q.size + q.size ≡ q.head + j))
    position j h = add-mod q.size q.head j v.head_in h

    pub straight : (index : ℕ) → index + 1 ≡ q.head + k → index < q.size → Expired index
    straight index e inside = (
      (take_slots q.items q.head k).1,
      subst
            (λ c. expire_to q index ≡ (
              (take_slots q.items q.head c).0,
              record q { items = (take_slots q.items q.head c).1 },
            ))
            (omega arith) (expire_to_straight q index (omega arith))
          ∙ ap (λ ws. (ws, record q { items = (take_slots q.items q.head k).1 })) workers,
      record {
        same_length = length-take_slots q.items q.head k;
        gone = λ j lt.
            take_slots-inside q.items q.head k ((q.head + j) % q.size) (omega (arith, room))
              (omega (arith, room, position j)) (omega (arith, room, position j));
        kept = λ j le lt.
            take_slots-outside q.items q.head k ((q.head + j) % q.size)
              (omega (arith, room, position j));
      },
    )
      where
        workers : (take_slots q.items q.head k).0 ≡ from_slot_zero (q.size - q.head) (take k xs)
        workers =
            take_slots-workers q.items q.head k (take k xs) (omega (arith, length-take k xs))
              (λ i lt.
                slot-of (q.head + i) i (omega (arith, room)) (omega (arith, room, position i))
                ∙ sym (get_elem?-take k xs i lt))
            ∙ sym (
                rw (
                  (take-all (q.size - q.head) (take k xs) (omega (arith, length-take k xs))).0,
                  (take-all (q.size - q.head) (take k xs) (omega (arith, length-take k xs))).1,
                ))

    pub wrapped : (index : ℕ) → index + 1 + q.size ≡ q.head + k → Expired index
    wrapped index e = (
      after,
      expire_to_wrapped q index (omega (arith, room))
          ∙ subst
              (λ c.
                ◌≡◌ {A = List W × LoopQueue W}
                  (
                    first ++ (take_slots before q.head c).0,
                    record q { items = (take_slots before q.head c).1 },
                  )
                  (from_slot_zero (q.size - q.head) (take k xs), record q { items = after }))
              (ap (λ n. n - q.head) (sym v.storage))
              (ap₂ (λ ws ws'. (ws ++ ws', record q { items = after })) first-workers
                second-workers),
      record {
        same_length =
            length-take_slots before q.head (q.size - q.head)
            ∙ length-take_slots q.items 0 (index + 1);
        gone = gone;
        kept = λ j le lt.
            take_slots-outside before q.head (q.size - q.head) ((q.head + j) % q.size)
              (omega (arith, room, position j))
            ∙ take_slots-outside q.items 0 (index + 1) ((q.head + j) % q.size)
                (omega (arith, room, position j));
      },
    )
      where
        first : List W
        first = (take_slots q.items 0 (index + 1)).0

        before : List (Option W)
        before = (take_slots q.items 0 (index + 1)).1

        after : List (Option W)
        after = (take_slots before q.head (q.size - q.head)).1

        first-workers : first ≡ drop (q.size - q.head) (take k xs)
        first-workers =
            take_slots-workers q.items 0 (index + 1) (drop (q.size - q.head) (take k xs))
              (omega (arith, room, length-take k xs, length-drop (q.size - q.head) (take k xs)))
              (λ i lt.
                slot-of (0 + i) (q.size - q.head + i) (omega (arith, room))
                  (omega (arith, room, position (q.size - q.head + i)))
                ∙ sym (get_elem?-take k xs (q.size - q.head + i) (omega (arith, room)))
                ∙ sym (get_elem?-drop (q.size - q.head) (take k xs) i))

        second-workers :
            (take_slots before q.head (q.size - q.head)).0 ≡ take (q.size - q.head) (take k xs)
        second-workers =
            take_slots-workers before q.head (q.size - q.head) (take (q.size - q.head) (take k xs))
              (omega (arith, room, length-take k xs, length-take (q.size - q.head) (take k xs)))
              (λ i lt.
                take_slots-outside q.items 0 (index + 1) (q.head + i) (omega (arith, room))
                ∙ slot-of (q.head + i) i (omega (arith, room)) (omega (arith, room, position i))
                ∙ sym (get_elem?-take k xs i (omega (arith, room)))
                ∙ sym (get_elem?-take (q.size - q.head) (take k xs) i lt))

        gone : (j : ℕ) → j < k → slot after ((q.head + j) % q.size) ≡ none
        gone j lt = elim (dec_lt (q.head + j) q.size) [
          | yes high ↦
              take_slots-inside before q.head (q.size - q.head) ((q.head + j) % q.size)
                (omega (arith, room, length-take_slots q.items 0 (index + 1)))
                (omega (arith, room, position j)) (omega (arith, room, position j))
          | no low ↦
              take_slots-outside before q.head (q.size - q.head) ((q.head + j) % q.size)
                (omega (arith, room, position j))
              ∙ take_slots-inside q.items 0 (index + 1) ((q.head + j) % q.size)
                  (omega (arith, room)) (omega arith) (omega (arith, room, position j))
        ]

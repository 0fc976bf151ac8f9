-- ===== src/LoopQueue/Advance.antt =====
-- Workers leave a ring buffer at its head: one by `detach`, all by `reset`.
use ants.Base.{
  ℕ, zero, suc, ◌+◌, ◌-◌, ◌%◌, ◌≤◌, ◌<◌, ◌≡◌, refl, sym, ap, ◌∙◌, subst, Bool, true, false, Option,
  none, some, List, [], ◌∷◌, arith, dec_lt, ◌==◌, length, get_elem?, set, drop, length-set,
  length-drop, get_or-set_self, get_or-set_ne, get_elem?-none, get_elem?-drop,
}
use ants.LoopQueue.{LoopQueue, is_empty, slot, detach, drain, reset}
use ants.LoopQueue.Holds.{Holds, len-Holds, add-mod}
use native.Mathlib.Nat.{mod-lt, mod-add-mod, mod-eq-sub-mod, add_assoc, mod-eq_of_lt, add-mod-mod}

module _ {ℓ} {W : Type ℓ} where
  -- The first `k` slots from `h` on have been emptied, and no other has changed.
  pub record Cleared (items items' : List (Option W)) (h n k : ℕ) : Type ℓ where
    pub same_length : length items' ≡ length items
    pub gone : (j : ℕ) → j < k → slot items' ((h + j) % n) ≡ none
    pub kept : (j : ℕ) → k ≤ j → j < n → slot items' ((h + j) % n) ≡ slot items ((h + j) % n)

  abbrev pub advanced : LoopQueue W → List (Option W) → ℕ → Bool → LoopQueue W
  advanced q items k full = record q { items = items; head = (q.head + k) % q.size; is_full = full }

  module _ {q : LoopQueue W} (xs : List W) (k : ℕ) (items : List (Option W)) (v : Holds q xs)
      (bound : k ≤ length xs) (c : Cleared q.items items q.head q.size k) where
    advance-slot :
        (i : ℕ)
        → i < q.size
        → slot items (((q.head + k) % q.size + i) % q.size) ≡ get_elem? (drop k xs) i
    advance-slot i lt = rw (mod-add-mod (q.head + k) q.size i) (elim (dec_lt (k + i) q.size) [
      | yes inside ↦
          ap (λ j. slot items (j % q.size)) (add_assoc q.head k i)
          ∙ c.kept (k + i) (omega arith) inside
          ∙ v.slots (k + i) inside
          ∙ sym (get_elem?-drop k xs i)
      | no over ↦
          ap (slot items) (turn over)
          ∙ c.gone (k + i - q.size) (omega (arith, v.fits))
          ∙ sym (get_elem?-none (drop k xs) i (omega (arith, length-drop k xs, v.fits)))
    ])
      where
        turn : ¬ (k + i < q.size) → (q.head + k + i) % q.size ≡ (q.head + (k + i - q.size)) % q.size
        turn over = mod-eq-sub-mod (omega (arith, v.head_in)) ∙ ap (λ j. j % q.size) (omega arith)

    -- The ring then holds what is left of its list.
    pub advanced-Holds :
        (full : Bool)
        → full ≡ (length (drop k xs) == q.size)
        → Holds (advanced q items k full) (drop k xs)
    advanced-Holds full e = record {
      size_pos = v.size_pos;
      storage = c.same_length ∙ v.storage;
      head_in = mod-lt (q.head + k) v.size_pos;
      fits = omega (arith, length-drop k xs, v.fits);
      tail_at =
          v.tail_at
          ∙ sym (
              mod-add-mod (q.head + k) q.size (length (drop k xs))
              ∙ ap (λ j. j % q.size) (omega (arith, length-drop k xs)));
      full = e;
      slots = advance-slot;
    }

  set-Cleared :
      (q : LoopQueue W) (xs : List W)
      → Holds q xs
      → Cleared q.items (set q.items q.head none) q.head q.size 1
  set-Cleared q xs v = record {
    same_length = length-set q.items q.head none;
    gone = λ j lt.
        ap (slot (set q.items q.head none)) (omega (arith, add-mod q.size q.head j, v.head_in))
        ∙ get_or-set_self q.items q.head none none (omega (arith, v.storage, v.head_in));
    kept = λ j le lt.
        get_or-set_ne q.items q.head ((q.head + j) % q.size) none none
          (omega (arith, add-mod q.size q.head j, v.head_in));
  }

  detach_of_empty : (q : LoopQueue W) → is_empty q ≡ true → detach q ≡ (none, q)
  unfolding detach
  detach_of_empty q e = ground arith

  detach_of_busy :
      (q : LoopQueue W)
      → is_empty q ≡ false
      → detach q ≡ (slot q.items q.head, advanced q (set q.items q.head none) 1 false)
  unfolding detach
  detach_of_busy q e = ground arith

  -- From a ring that holds nothing `detach` takes nothing, and changes nothing.
  pub detach-nil : {q : LoopQueue W} → Holds q [] → detach q ≡ (none, q)
  detach-nil {q} v = detach_of_empty q (len-Holds [] v).1

  -- `detach` takes out the worker that has waited longest, and the ring holds the others.
  pub detach-cons :
      {q : LoopQueue W} (x : W) (xs : List W)
      → Holds q (x ∷ xs)
      → ((detach q).0 ≡ some x) × Holds (detach q).1 xs
  detach-cons {q} x xs v =
      rw (detach_of_busy q ((len-Holds (x ∷ xs) v).1 ∙ ground arith)) (first, rest)
    where
      first : slot q.items q.head ≡ some x
      first =
          ap (slot q.items) (omega (arith, add-mod q.size q.head 0, v.head_in))
          ∙ v.slots 0 v.size_pos

      rest : Holds (advanced q (set q.items q.head none) 1 false) xs
      rest =
          advanced-Holds (x ∷ xs) 1 (set q.items q.head none) v (omega arith)
            (set-Cleared q (x ∷ xs) v) false (ground (arith, v.fits))

  drain-Holds :
      (fuel : ℕ) {q : LoopQueue W} (xs : List W)
      → Holds q xs
      → length xs < fuel
      → ((drain fuel q).0 ≡ xs) × Holds (drain fuel q).1 []
  unfolding drain
  drain-Holds zero xs v lt = absurd (omega arith)
  drain-Holds (suc fuel) [] v lt = rw (detach-nil v, drain) (refl, rw (detach-nil v) v)
  drain-Holds (suc fuel) {q} (x ∷ xs) v lt =
      let (first, rest) = detach-cons x xs v in
      let (ws, none_left) = drain-Holds fuel xs rest (omega arith) in
      rw (first, drain) (ap (λ ys. x ∷ ys) ws, none_left)

  -- Every slot of a ring that holds nothing is empty.
  no_worker_left : {q : LoopQueue W} → Holds q [] → (j : ℕ) → j < q.size → slot q.items j ≡ none
  no_worker_left {q} v j lt =
      ap (slot q.items) (sym round) ∙ v.slots i (mod-lt (j + q.size - q.head) v.size_pos)
    where
      i : ℕ
      i = (j + q.size - q.head) % q.size

      whole_turn : (j + q.size) % q.size ≡ j
      whole_turn =
          mod-eq-sub-mod (omega arith)
          ∙ subst (λ t. t % q.size ≡ j) {x = j} {y = j + q.size - q.size} (omega arith)
              (mod-eq_of_lt lt)

      round : (q.head + i) % q.size ≡ j
      round =
          add-mod-mod q.head (j + q.size - q.head) q.size
          ∙ subst (λ t. t % q.size ≡ j) {x = j + q.size} {y = q.head + (j + q.size - q.head)}
              (omega (arith, v.head_in)) whole_turn

  rewound : LoopQueue W → LoopQueue W
  rewound q = record q { head = 0; tail = 0 }

  rewound-Holds : {q : LoopQueue W} → Holds q [] → Holds (rewound q) []
  unfolding rewound
  rewound-Holds {q} v = record {
    size_pos = v.size_pos;
    storage = v.storage;
    head_in = v.size_pos;
    fits = v.fits;
    tail_at = sym (mod-eq_of_lt v.size_pos);
    full = v.full;
    slots = λ i lt. no_worker_left v ((0 + i) % q.size) (mod-lt (0 + i) v.size_pos);
  }

  reset_of_busy :
      (q : LoopQueue W)
      → is_empty q ≡ false
      → reset q ≡ ((drain (suc (length q.items)) q).0, rewound (drain (suc (length q.items)) q).1)
  unfolding reset rewound
  reset_of_busy q e = ground arith

  reset_of_empty : (q : LoopQueue W) → is_empty q ≡ true → reset q ≡ ([], q)
  unfolding reset
  reset_of_empty q e = ground arith

  -- `reset` finishes every idle worker, the one that has waited longest first, and leaves a ring
  -- that holds nothing.
  pub reset-Holds :
      {q : LoopQueue W} (xs : List W) → Holds q xs → ((reset q).0 ≡ xs) × Holds (reset q).1 []
  reset-Holds {q} [] v = rw (reset_of_empty q (len-Holds [] v).1) (refl, v)
  reset-Holds {q} (x ∷ xs) v =
      let (ws, left) =
        drain-Holds (suc (length q.items)) (x ∷ xs) v (omega (arith, v.fits, v.storage)) in
      rw (reset_of_busy q ((len-Holds (x ∷ xs) v).1 ∙ ground arith)) (ws, rewound-Holds left)

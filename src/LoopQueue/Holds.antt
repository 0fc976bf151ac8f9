-- ===== src/LoopQueue/Holds.antt =====
-- What a ring buffer holds: the workers of its slots from `head` on, going round at its size.
use ants.Base.{
  ℕ, suc, ◌+◌, ◌-◌, ◌%◌, ◌≤◌, ◌<◌, ◌≡◌, sym, ap, ◌∙◌, subst, ◌≢◌, ◌⊎◌, inl, inr, false, none, some,
  List, [], ◌∷◌, ◌++◌, arith, dec_lt, ℕ_discrete, ◌==◌, length, get_elem?, set, replicate,
  length-append, length-set, length-replicate, get_or-set_self, get_or-set_ne, get_or-replicate,
  get_elem?-none, get_elem?-append_lt, get_elem?-append_self,
}
use ants.Base.Int.{pos}
use ants.Error.{ok, err, queue_is_full}
use ants.LoopQueue.{LoopQueue, new, is_empty, len, insert, slot}
use native.Mathlib.Nat.{mod-eq_of_lt, mod-eq-sub-mod, mod-lt, mod-add-mod}

-- The ring's invariant, and the list that it stands for: slot `head + i`, taken round, has worker
-- `i` of the list, and every other slot is empty.
pub record Holds {ℓ} {W : Type ℓ} (q : LoopQueue W) (xs : List W) : Type ℓ where
  pub size_pos : 0 < q.size
  pub storage : length q.items ≡ q.size
  pub head_in : q.head < q.size
  pub fits : length xs ≤ q.size
  pub tail_at : q.tail ≡ (q.head + length xs) % q.size
  pub full : q.is_full ≡ (length xs == q.size)
  pub slots : (i : ℕ) → i < q.size → slot q.items ((q.head + i) % q.size) ≡ get_elem? xs i

-- One turn round the ring at most: the remainder by a case split.
pub add-mod :
    (n h i : ℕ)
    → h < n
    → i ≤ n
    → ((h + i < n) × ((h + i) % n ≡ h + i)) ⊎ ((n ≤ h + i) × ((h + i) % n + n ≡ h + i))
add-mod n h i p q = elim (dec_lt (h + i) n) [
  | yes below ↦ inl (below, mod-eq_of_lt below)
  | no over ↦ inr (
    omega arith,
    omega (
      arith,
      mod-eq-sub-mod {n = h + i} {m = n} (omega arith),
      mod-eq_of_lt {n = h + i - n} {m = n} (omega arith),
    ),
  )
]

-- Different positions below the size are different slots.
pub slot_injective : (n h i j : ℕ) → h < n → i < n → j < n → i ≢ j → (h + i) % n ≢ (h + j) % n
slot_injective n h i j p q r ne e =
    ne (omega (arith, add-mod n h i p (omega arith), add-mod n h j p (omega arith)))

next_slot : (n h i t : ℕ) → h < n → i < n → t ≡ (h + i) % n → (t + 1) % n ≡ (h + suc i) % n
next_slot n h i t p q e = rw e (mod-add-mod (h + i) n 1 ∙ ap (λ j. j % n) (omega arith))

back_at_head : (n h i : ℕ) → h < n → i < n → (((h + suc i) % n) == h) ≡ (suc i == n)
back_at_head n h i p q = ground (arith, add-mod n h (suc i))

module _ {ℓ} {W : Type ℓ} where
  -- A ring for a positive size is made, and holds nothing.
  pub new-Holds : (n : ℕ) → 0 < n → (q : LoopQueue W) × (new (pos n) ≡ some q) × Holds q []
  unfolding new
  new-Holds n h = (
    record { items = replicate n none; head = 0; tail = 0; size = n; is_full = false },
    ground arith,
    record {
      size_pos = h;
      storage = length-replicate n none;
      head_in = h;
      fits = omega arith;
      tail_at = omega (arith, mod-eq_of_lt h);
      full = ground arith;
      slots = λ i lt. get_or-replicate n ((0 + i) % n) none;
    },
  )

  -- `len` and `is_empty` tell how many workers the ring holds.
  pub len-Holds :
      {q : LoopQueue W} (xs : List W)
      → Holds q xs
      → (len q ≡ length xs) × (is_empty q ≡ (length xs == 0))
  unfolding len is_empty
  len-Holds {q} xs v = ground (arith, add-mod q.size q.head (length xs) v.head_in v.fits)

  -- `insert` refuses a worker exactly when the ring is full, and then changes nothing.
  pub insert-full :
      {q : LoopQueue W} (xs : List W) (w : W)
      → Holds q xs
      → length xs ≡ q.size
      → insert q w ≡ (err queue_is_full, q)
  unfolding insert
  insert-full xs w v e = ground arith

  insert-slots :
      {q : LoopQueue W} (xs : List W) (w : W) (i : ℕ)
      → Holds q xs
      → length xs < q.size
      → i < q.size
      → slot (set q.items q.tail (some w)) ((q.head + i) % q.size) ≡ get_elem? (xs ++ (w ∷ [])) i
  insert-slots {q} xs w i v room lt = elim (ℕ_discrete i (length xs)) [
    | yes e ↦
        subst
          (λ j.
            slot (set q.items q.tail (some w)) ((q.head + j) % q.size)
            ≡ get_elem? (xs ++ (w ∷ [])) j)
          (sym e)
          (ap (slot (set q.items q.tail (some w))) (sym v.tail_at)
            ∙ get_or-set_self q.items q.tail (some w) none (omega (arith, v.tail_at, mod-lt))
            ∙ sym (get_elem?-append_self xs w))
    | no ne ↦ kept ne ∙ beyond ne
  ]
    where
      kept :
          i ≢ length xs
          → slot (set q.items q.tail (some w)) ((q.head + i) % q.size) ≡ get_elem? xs i
      kept ne =
          get_or-set_ne q.items q.tail ((q.head + i) % q.size) (some w) none (λ e.
            slot_injective q.size q.head (length xs) i v.head_in room lt (λ p. ne (sym p))
              (sym v.tail_at ∙ e))
          ∙ v.slots i lt

      beyond : i ≢ length xs → get_elem? xs i ≡ get_elem? (xs ++ (w ∷ [])) i
      beyond ne = elim (dec_lt i (length xs)) [
        | yes below ↦ sym (get_elem?-append_lt xs (w ∷ []) i below)
        | no above ↦
            get_elem?-none xs i (omega arith)
            ∙ sym (get_elem?-none (xs ++ (w ∷ [])) i (omega (arith, length-append xs (w ∷ []))))
      ]

  abbrev inserted : LoopQueue W → W → LoopQueue W
  inserted q w =
      let tail = (q.tail + 1) % q.size in
      record q { items = set q.items q.tail (some w); tail = tail; is_full = (tail == q.head) }

  insert-open : (q : LoopQueue W) (w : W) → q.is_full ≡ false → insert q w ≡ (ok tt, inserted q w)
  unfolding insert
  insert-open q w e = ground arith

  inserted-Holds :
      {q : LoopQueue W} (xs : List W) (w : W)
      → Holds q xs
      → length xs < q.size
      → Holds (inserted q w) (xs ++ (w ∷ []))
  inserted-Holds {q} xs w v room = record {
    size_pos = v.size_pos;
    storage = length-set q.items q.tail (some w) ∙ v.storage;
    head_in = v.head_in;
    fits = omega (arith, longer);
    tail_at = round ∙ ap (λ j. (q.head + j) % q.size) (sym longer);
    full =
        ap (λ t. t == q.head) round
        ∙ back_at_head q.size q.head (length xs) v.head_in room
        ∙ ap (λ j. j == q.size) (sym longer);
    slots = λ i lt. insert-slots xs w i v room lt;
  }
    where
      longer : length (xs ++ (w ∷ [])) ≡ suc (length xs)
      longer = omega (arith, length-append xs (w ∷ []))

      round : (q.tail + 1) % q.size ≡ (q.head + suc (length xs)) % q.size
      round = next_slot q.size q.head (length xs) q.tail v.head_in room v.tail_at

  -- With a free slot `insert` takes the worker, as the newest.
  pub insert-Holds :
      {q : LoopQueue W} (xs : List W) (w : W)
      → Holds q xs
      → length xs < q.size
      → ((insert q w).0 ≡ ok tt) × Holds (insert q w).1 (xs ++ (w ∷ []))
  insert-Holds {q} xs w v room =
      let e = insert-open q w (v.full ∙ ground arith) in
      (
        ap (λ r. r.0) e,
        subst (λ r. Holds r.1 (xs ++ (w ∷ []))) (sym e) (inserted-Holds xs w v room),
      )

  -- `insert` refuses a worker exactly when the ring is full, and then changes nothing; otherwise
  -- the ring takes it as the newest.
  pub insert-cases :
      {q : LoopQueue W} (xs : List W) (w : W)
      → Holds q xs
      → ((length xs ≡ q.size) × (insert q w ≡ (err queue_is_full, q)))
        ⊎ ((length xs < q.size) × ((insert q w).0 ≡ ok tt) × Holds (insert q w).1 (xs ++ (w ∷ [])))
  insert-cases {q} xs w v = elim (dec_lt (length xs) q.size) [
    | yes room ↦ let done = insert-Holds xs w v room in inr (room, done.0, done.1)
    | no full ↦ let e : length xs ≡ q.size = omega (arith, v.fits) in inl (e, insert-full xs w v e)
  ]

-- ===== src/LoopQueue/Position.antt =====
-- The binary search of the ring, over mapped positions: `LoopQueue::binary_search`.
use ants.Base.{
  ℕ, zero, suc, ◌+◌, ◌-◌, ◌*◌, ◌%◌, ◌≤◌, ◌<◌, ◌≡◌, refl, ◌≢◌, sym, ap, ◌∙◌, subst, inl, inr, Bool,
  true, false, Option, none, some, List, arith, dec_lt, length, get_elem?, get_elem?-eq-get_or,
}
use ants.Base.Int.{ℤ, pos, negsuc, pos_part, neg_part, sub_ℕ}
use ants.Base.Word.{
  i32_half, u32_mod, rem_i32, usize_as_i32, i32_as_usize, usize_as_i32-eq, add_i32-pos,
  add_i32-over,
}
use native.Mathlib.Nat.{mod-lt, mod-eq-sub-mod, add-zero, mod-eq_of_lt}
use ants.Search.{search_loop, search_loop-Boundary, pred_ℤ, Boundary}
use ants.Idle.{later, later-get}
use ants.LoopQueue.{LoopQueue, slot, is_empty, is_later, last_used_at, true_position, binary_search}
use ants.LoopQueue.Holds.{Holds, add-mod, len-Holds}

below_zero : (m : ℕ) → let x = sub_ℕ 0 m in (pos_part x ≡ 0) × (neg_part x ≡ m)
below_zero m = (ground arith, ground arith)

rem_negative :
    (k n : ℕ) → let r = rem_i32 (negsuc k) (pos n) in (pos_part r ≡ 0) × (neg_part r ≡ suc k % n)
unfolding rem_i32
rem_negative k n =
    let (none_up, down) = below_zero ((0 + suc k) % (n + 0)) in
    let top : 0 + suc k ≡ suc k = omega arith in
    let size : n + 0 ≡ n = omega arith in
    (none_up, down ∙ ap (λ x. x % (n + 0)) top ∙ ap (λ y. suc k % y) size)

mod_turn : (n j : ℕ) → j < n → (n + j) % n ≡ j
mod_turn n j h =
    mod-eq-sub-mod (omega arith) ∙ subst (λ t. t % n ≡ j) {x = j} (omega arith) (mod-eq_of_lt h)

-- The mapped position of the newest worker: `(tail + n - 1 - head) % n`.
newest : (n h t l : ℕ) → h < n → 0 < l → l ≤ n → t ≡ (h + l) % n → (t + n - 1 - h) % n ≡ l - 1
newest n h t l p q r e = elim (dec_lt (h + l) n) [
  | yes low ↦
      subst (λ j. j % n ≡ l - 1) {x = n + (l - 1)} (omega (arith, e, add-mod n h l p r))
        (mod_turn n (l - 1) (omega arith))
  | no high ↦
      subst (λ j. j % n ≡ l - 1) {x = l - 1} (omega (arith, e, add-mod n h l p r))
        (mod-eq_of_lt (omega arith))
]

pred_ℤ-pos : (n : ℕ) → 0 < n → pred_ℤ n ≡ pos (n - 1)
pred_ℤ-pos zero h = absurd (omega arith)
pred_ℤ-pos (suc n) h = ap pos (omega arith)

Boundary-pos : (later : ℕ → Bool) (n k : ℕ) → later 0 ≡ false → 0 < n → Boundary later 0 n k → 0 < k
Boundary-pos later n zero first h b = elim b.right [ inl e ↦ absurd (omega arith) | inr t ↦ cc ]
Boundary-pos later n (suc k) first h b = omega arith

module _ {ℓ} {W : Type ℓ} (last_used : W → ℤ) where
  pub later-of-slot :
      (q : LoopQueue W) (xs : List W) (e : ℤ) (p i : ℕ)
      → Holds q xs
      → i < length xs
      → p ≡ (q.head + i) % q.size
      → is_later last_used q e p ≡ some (later last_used xs e i)
  unfolding is_later last_used_at
  later-of-slot q xs e p i v lt at =
      let (w, found, test) = later-get last_used e xs i lt in
      let read : get_elem? q.items p ≡ some (some w) =
        get_elem?-eq-get_or q.items p none
          (omega (arith, v.storage, at, mod-lt (q.head + i) v.size_pos))
        ∙ ap some (ap (slot q.items) at ∙ v.slots i (omega (arith, v.fits)) ∙ found) in
      ground (arith, read, test)

  -- 3 * size is the largest number that `true_position` computes with.
  true_position-eq :
      (q : LoopQueue W) (xs : List W) (i : ℕ)
      → Holds q xs
      → 3 * q.size ≤ i32_half
      → i < q.size
      → true_position last_used q (pos i) ≡ pos ((q.head + i) % q.size)
  unfolding true_position rem_i32
  true_position-eq q xs i v small lt =
      rw
        (
          v.storage,
          usize_as_i32-eq q.head (omega (arith, v.head_in)),
          usize_as_i32-eq q.size (omega (arith, v.size_pos)),
          add_i32-pos i q.head (omega (arith, v.head_in)),
          add_i32-pos (i + q.head) q.size (omega (arith, v.head_in)),
        )
        (rw (add-zero, add-zero)
          (ap pos (mod-eq-sub-mod (omega arith) ∙ ap (λ t. t % q.size) (omega arith))))

  pub binary_search_of_empty :
      (q : LoopQueue W) (e : ℤ) → is_empty q ≡ true → binary_search last_used q e ≡ some (negsuc 0)
  unfolding binary_search
  binary_search_of_empty q e h = rw h

  pub binary_search_of_live :
      (q : LoopQueue W) (e : ℤ)
      → is_empty q ≡ false
      → is_later last_used q e q.head ≡ some true
      → binary_search last_used q e ≡ some (negsuc 0)
  unfolding binary_search
  binary_search_of_live q e h t = rw (h, t)

  -- The ring's search, in terms of the list that it holds: the position of its last stale worker.
  pub binary_search-Boundary :
      (q : LoopQueue W) (xs : List W) (e : ℤ)
      → Holds q xs
      → 3 * q.size ≤ i32_half
      → 0 < length xs
      → later last_used xs e 0 ≡ false
      → (k : ℕ) × (0 < k)
        × (binary_search last_used q e ≡ some (pos ((q.head + (k - 1)) % q.size)))
        × Boundary (later last_used xs e) 0 (length xs) k
  unfolding binary_search
  binary_search-Boundary q xs e v small some_worker first_stale =
      let (k, found, b) =
        search_loop-Boundary probe (later last_used xs e) (suc (length q.items)) 0 (length xs)
          (omega arith) (omega (arith, v.fits)) (omega (arith, v.fits, v.storage)) reads in
      let above = Boundary-pos (later last_used xs e) (length xs) k first_stale some_worker b in
      (k, above, run k found above b.hi, b)
    where
      probe : ℤ → Option Bool
      probe mid = is_later last_used q e ((i32_as_usize mid + q.head) % length q.items)

      reads : (i : ℕ) → i < length xs → probe (pos i) ≡ some (later last_used xs e i)
      reads i lt =
          later-of-slot q xs e ((i + q.head) % length q.items) i v lt
            (rw v.storage (ap (λ t. t % q.size) (omega arith)))

      busy : is_empty q ≡ false
      busy = (len-Holds xs v).1 ∙ ground arith

      head_stale : is_later last_used q e q.head ≡ some false
      head_stale =
          later-of-slot q xs e q.head 0 v some_worker (sym (rw add-zero (mod-eq_of_lt v.head_in)))
          ∙ ap some first_stale

      right_end :
          usize_as_i32 ((q.tail + length q.items - 1 - q.head) % length q.items)
          ≡ pred_ℤ (length xs)
      right_end = rw v.storage (
          ap usize_as_i32
            (newest q.size q.head q.tail (length xs) v.head_in some_worker v.fits v.tail_at)
          ∙ usize_as_i32-eq (length xs - 1) (omega (arith, v.fits))
          ∙ sym (pred_ℤ-pos (length xs) some_worker))

      run :
          (k : ℕ)
          → search_loop (suc (length q.items)) probe (pos 0) (pred_ℤ (length xs)) ≡ some (pred_ℤ k)
          → 0 < k
          → k ≤ length xs
          → binary_search last_used q e ≡ some (pos ((q.head + (k - 1)) % q.size))
      run k found above hi =
          rw (busy, head_stale, right_end, found)
            (ap some (
              ap (true_position last_used q) (pred_ℤ-pos k above)
              ∙ true_position-eq q xs (k - 1) v small (omega (arith, v.fits))))

  -- In a ring of less than 2 ^ 31 slots, where `i` is a position with `i + head` below 2 ^ 31
  -- but `i + head + size` is not, the sum `r + base + n` of the search wraps around: the position
  -- that it computes is minus the remainder of `2 ^ 32 - (i + head + size)` by `size`. Where that
  -- remainder is not zero, the position is negative, and no slot.
  pub true_position-overflow :
      (q : LoopQueue W) (xs : List W) (i : ℕ)
      → Holds q xs
      → q.size < i32_half
      → i + q.head < i32_half
      → i < q.size
      → i32_half ≤ i + q.head + q.size
      → let wrong = true_position last_used q (pos i) in
        let rest = (u32_mod - (i + q.head + q.size)) % q.size in
        (pos_part wrong ≡ 0) × (neg_part wrong ≡ rest) × (rest ≢ 0 → (slot : ℕ) → wrong ≢ pos slot)
  unfolding true_position
  true_position-overflow q xs i v small fits lt over =
      let sum = i + q.head + q.size in
      let here : true_position last_used q (pos i)
          ≡ rem_i32 (negsuc (u32_mod - 1 - sum)) (pos q.size) =
        rw
          (
            v.storage,
            usize_as_i32-eq q.head (omega arith),
            usize_as_i32-eq q.size small,
            add_i32-pos i q.head fits,
            add_i32-over (i + q.head) q.size (omega arith) over,
          )
          refl in
      let (none_up, down) = rem_negative (u32_mod - 1 - sum) q.size in
      let whole : suc (u32_mod - 1 - sum) ≡ u32_mod - sum = omega arith in
      let below : neg_part (true_position last_used q (pos i)) ≡ (u32_mod - sum) % q.size =
        ap neg_part here ∙ down ∙ ap (λ k. k % q.size) whole in
      (
        ap pos_part here ∙ none_up,
        below,
        λ some_rest slot is_slot. some_rest (sym below ∙ ap neg_part is_slot),
      )

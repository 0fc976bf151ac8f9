-- ===== src/LoopQueue/Refresh.antt =====
-- What `LoopQueue::refresh` does, in terms of the list of workers that the ring holds.
use ants.Base.{
  ℕ, zero, suc, ◌+◌, ◌-◌, ◌*◌, ◌%◌, ◌≤◌, ◌<◌, ◌≡◌, refl, sym, ap, ap₂, ◌∙◌, subst, inl, inr, false,
  some, List, [], ◌∷◌, arith, dec_lt, ◌==◌, Bool-cases, length, take, drop, length-append,
  length-take, length-drop,
}
use ants.Base.Int.{ℤ, pos, negsuc}
use ants.Base.Word.{i32_half, sub_i64}
use native.Mathlib.Nat.{mod-lt, mod-add-mod, add-zero, mod-eq_of_lt}
use ants.Search.{Boundary}
use ants.Duration.{Duration, as_nanos}
use ants.Idle.{later, IsSorted, stale, live, split_at_boundary}
use ants.LoopQueue.{LoopQueue, expire_to, is_nil, is_empty, binary_search, finish_refresh, refresh}
use ants.LoopQueue.Holds.{Holds, add-mod, len-Holds}
use ants.LoopQueue.Advance.{advanced, advanced-Holds}
use ants.LoopQueue.Expire.{from_slot_zero, Expired, straight, wrapped}
use ants.LoopQueue.Position.{
  later-of-slot, binary_search_of_empty, binary_search_of_live, binary_search-Boundary,
}

is_nil-false {ℓ} : {A : Type ℓ} (xs : List A) → 0 < length xs → is_nil xs ≡ false
unfolding is_nil
is_nil-false [] h = absurd (omega arith)
is_nil-false (x ∷ xs) h = refl

module _ {ℓ} {W : Type ℓ} (last_used : W → ℤ) where
  finish_refresh-open :
      (q : LoopQueue W) (i : ℕ)
      → i < length q.items
      → is_nil (expire_to q i).0 ≡ false
      → finish_refresh last_used q (pos i)
        ≡ some (
          (expire_to q i).0,
          record (expire_to q i).1 { head = (i + 1) % q.size; is_full = false },
        )
  unfolding finish_refresh
  finish_refresh-open q i h e = ground arith

  -- Where `finish_refresh` is called with the position of the `k`-th worker, it removes the first
  -- `k` workers, and the ring holds the others.
  finish_refresh-cut :
      (q : LoopQueue W) (xs : List W) (k : ℕ)
      → Holds q xs
      → 0 < k
      → k ≤ length xs
      → (q' : LoopQueue W) × (finish_refresh last_used q (pos ((q.head + (k - 1)) % q.size))
          ≡ some (from_slot_zero (q.size - q.head) (take k xs), q'))
        × Holds q' (drop k xs)
  finish_refresh-cut q xs k v above bound =
      let (items, run, cleared) = expired in
      (
        advanced q items k false,
        finish_refresh-open q index (rw v.storage inside) (
              ap (λ r. is_nil r.0) run
              ∙ is_nil-false (from_slot_zero (q.size - q.head) (take k xs)) some_gone)
            ∙ ap₂
                (λ (r : List W × LoopQueue W) h.
                  some (r.0, record r.1 { head = h; is_full = false }))
                run next,
        advanced-Holds xs k items v bound cleared false not_full,
      )
    where
      index : ℕ
      index = (q.head + (k - 1)) % q.size

      inside : index < q.size
      inside = mod-lt (q.head + (k - 1)) v.size_pos

      expired : Expired xs k v above bound index
      expired = elim (dec_lt (q.head + (k - 1)) q.size) [
        | yes low ↦ straight xs k v above bound index (omega (arith, mod-eq_of_lt low)) inside
        | no high ↦
            wrapped xs k v above bound index
              (omega (arith, add-mod q.size q.head (k - 1) v.head_in (omega (arith, v.fits))))
      ]

      next : (index + 1) % q.size ≡ (q.head + k) % q.size
      next = mod-add-mod (q.head + (k - 1)) q.size 1 ∙ ap (λ t. t % q.size) (omega arith)

      some_gone : 0 < length (from_slot_zero (q.size - q.head) (take k xs))
      some_gone = omega (
        arith,
        length-append (drop (q.size - q.head) (take k xs)) (take (q.size - q.head) (take k xs)),
        length-drop (q.size - q.head) (take k xs),
        length-take (q.size - q.head) (take k xs),
        length-take k xs,
      )

      not_full : false ≡ (length (drop k xs) == q.size)
      not_full = ground (arith, length-drop k xs, v.fits)

  refresh-go :
      (now : ℤ) (q : LoopQueue W) (d : Duration) {index : ℤ}
      → binary_search last_used q (sub_i64 now (as_nanos d)) ≡ some index
      → refresh last_used now q d ≡ finish_refresh last_used q index
  unfolding refresh
  refresh-go now q d e = rw (e, refresh)

  from_slot_zero-nil : (n : ℕ) → from_slot_zero {W = W} n [] ≡ []
  from_slot_zero-nil zero = refl
  from_slot_zero-nil (suc n) = refl

  finish_refresh-none : (q : LoopQueue W) → finish_refresh last_used q (negsuc 0) ≡ some ([], q)
  unfolding finish_refresh
  finish_refresh-none q = refl

  refresh-keep :
      (now : ℤ) (q : LoopQueue W) (d : Duration)
      → binary_search last_used q (sub_i64 now (as_nanos d)) ≡ some (negsuc 0)
      → refresh last_used now q d ≡ some (from_slot_zero (q.size - q.head) [], q)
  refresh-keep now q d e =
      refresh-go now q d e
      ∙ finish_refresh-none q
      ∙ ap (λ ws. some (ws, q)) (sym (from_slot_zero-nil (q.size - q.head)))

  -- The whole of `refresh`, whatever the order of the workers.
  pub refresh-cut :
      (now : ℤ) (q : LoopQueue W) (xs : List W) (d : Duration)
      → Holds q xs
      → 3 * q.size ≤ i32_half
      → (k : ℕ) × (q' : LoopQueue W) × (refresh last_used now q d
          ≡ some (from_slot_zero (q.size - q.head) (take k xs), q'))
        × Holds q' (drop k xs)
        × Boundary (later last_used xs (sub_i64 now (as_nanos d))) 0 (length xs) k
  refresh-cut now q [] d v small = (
    0,
    q,
    refresh-keep now q d (binary_search_of_empty last_used q _ (len-Holds [] v).1),
    v,
    ground arith,
  )
  refresh-cut now q (x ∷ xs) d v small = elim (Bool-cases (later last_used (x ∷ xs) e 0)) [
    | inl t ↦ (
      0,
      q,
      refresh-keep now q d (
          binary_search_of_live last_used q e busy
            (later-of-slot last_used q (x ∷ xs) e q.head 0 v (omega arith) at_head ∙ ap some t)),
      v,
      record { lo = omega arith; hi = omega arith; left = inl refl; right = inr t },
    )
    | inr first_stale ↦
        let (k, above, found, b) =
          binary_search-Boundary last_used q (x ∷ xs) e v small (omega arith) first_stale in
        let (q', run, holds) = finish_refresh-cut q (x ∷ xs) k v above b.hi in
        (k, q', refresh-go now q d found ∙ run, holds, b)
  ]
    where
      e : ℤ
      e = sub_i64 now (as_nanos d)

      busy : is_empty q ≡ false
      busy = (len-Holds (x ∷ xs) v).1 ∙ ground arith

      at_head : q.head ≡ (q.head + 0) % q.size
      at_head = sym (rw add-zero (mod-eq_of_lt v.head_in))

  -- On a ring of at most 2 ^ 31 / 3 slots whose workers are sorted by last-use time, `refresh` does
  -- not panic. It returns exactly the workers last used at or before `now - duration`, those whose
  -- slots come round again from zero before those that stand between `head` and the last slot, and
  -- the ring then holds exactly the others, in their order.
  pub refresh_ring-sorted :
      (now : ℤ) (q : LoopQueue W) (xs : List W) (d : Duration)
      → Holds q xs
      → 3 * q.size ≤ i32_half
      → IsSorted last_used xs
      → let e = sub_i64 now (as_nanos d) in
        (q' : LoopQueue W) × (refresh last_used now q d
          ≡ some (from_slot_zero (q.size - q.head) (stale last_used e xs), q'))
        × Holds q' (live last_used e xs)
  refresh_ring-sorted now q xs d v small sorted =
      let (k, q', run, holds, b) = refresh-cut now q xs d v small in
      let cut =
        split_at_boundary last_used (sub_i64 now (as_nanos d)) xs k sorted b.hi b.left b.right in
      (
        q',
        run ∙ ap (λ ws. some (from_slot_zero (q.size - q.head) ws, q')) cut.0,
        subst (Holds q') cut.1 holds,
      )

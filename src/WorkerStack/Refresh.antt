-- ===== src/WorkerStack/Refresh.antt =====
-- What the operations of src/worker_stack.rs do, in terms of the idle workers oldest first.
use ants.Base.{
  ℕ, zero, suc, ◌-◌, ◌≤◌, ◌<◌, ◌≡◌, refl, ap, ap₂, ◌∙◌, true, some, List, [], ◌∷◌, ◌++◌, arith,
  ℕ_discrete, length, take, drop, take-append-drop,
}
use ants.Base.Int.{ℤ, pos}
use ants.Base.Word.{
  i32_half, sub_i32, sub_i64, usize_as_i32, usize_as_i32-eq, add_i32-one, sub_i32-pos,
}
use ants.Search.{search_loop-Boundary, pred_ℤ, Boundary}
use ants.Duration.{Duration, as_nanos}
use ants.Idle.{later, IsSorted, stale, live, split_at_boundary}
use ants.WorkerStack.{WorkerStack, refresh, drain_to, is_later, binary_search, len}

module _ {ℓ} {W : Type ℓ} (last_used : W → ℤ) where
  get-later :
      (ws : List W) (e : ℤ) (i : ℕ)
      → i < length ws
      → is_later last_used ws e (pos i) ≡ some (later last_used ws e i)
  unfolding is_later
  get-later [] e i h = absurd (omega arith)
  get-later (w ∷ ws) e zero h = refl
  get-later (w ∷ ws) e (suc i) h = get-later ws e i (omega arith)

  last-index : (n : ℕ) → 0 < n → n < i32_half → sub_i32 (usize_as_i32 n) (pos 1) ≡ pred_ℤ n
  last-index zero h k = absurd (omega arith)
  last-index (suc n) h k =
      rw (usize_as_i32-eq (suc n) k) (sub_i32-pos (suc n) 1 (omega arith) k ∙ ap pos (omega arith))

  -- The search over a part of the stack, sorted or not, ends within bounds at a boundary: the
  -- result is the index before the first of the workers that it takes to be unexpired.
  pub binary_search-Boundary :
      (s : WorkerStack W) (l h : ℕ) (e : ℤ)
      → l ≤ h
      → h ≤ length s.items
      → length s.items < i32_half
      → (k : ℕ) × (binary_search last_used s (pos l) (pred_ℤ h) e ≡ some (pred_ℤ k))
        × Boundary (later last_used s.items e) l h k
  unfolding binary_search
  binary_search-Boundary s l h e p q small =
      search_loop-Boundary (is_later last_used s.items e) (later last_used s.items e)
        (suc (length s.items)) l h p (omega arith) (omega arith)
        (λ i lt. get-later s.items e i (omega arith))

  drain_to-pred :
      (s : WorkerStack W) (k : ℕ)
      → k ≤ length s.items
      → length s.items < i32_half
      → drain_to last_used s (pred_ℤ k) ≡ some (take k s.items, record s { items = drop k s.items })
  unfolding drain_to len
  drain_to-pred s zero h small = refl
  drain_to-pred s (suc k) h small = ground (arith, add_i32-one k)

  -- The whole of `refresh`, whatever the order of the workers.
  pub refresh-cut :
      (now : ℤ) (s : WorkerStack W) (d : Duration)
      → length s.items < i32_half
      → (k : ℕ) × (k ≤ length s.items)
        × (refresh last_used now s d ≡ some (take k s.items, record s { items = drop k s.items }))
        × Boundary (later last_used s.items (sub_i64 now (as_nanos d))) 0 (length s.items) k
  unfolding refresh len
  refresh-cut now s d small = elim (ℕ_discrete (length s.items) 0) [
    | yes e ↦ (0, omega arith, ground arith, ground arith)
    | no ne ↦
        let (k, found, b) =
          binary_search-Boundary s 0 (length s.items) (sub_i64 now (as_nanos d)) (omega arith)
            (omega arith) small in
        (
          k,
          b.hi,
          ground (
            arith,
            found,
            last-index (length s.items) (omega arith) small,
            drain_to-pred s k b.hi small,
          ),
          b,
        )
  ]

  -- On a stack of less than 2 ^ 31 workers that is sorted by last-use time `refresh` does not
  -- panic: it returns exactly the workers last used at or before `now - duration`, in their
  -- order, and keeps exactly the others, in their order.
  pub refresh-sorted :
      (now : ℤ) (s : WorkerStack W) (d : Duration)
      → length s.items < i32_half
      → IsSorted last_used s.items
      → let e = sub_i64 now (as_nanos d) in
        refresh last_used now s d
        ≡ some (stale last_used e s.items, record s { items = live last_used e s.items })
  refresh-sorted now s d small sorted =
      let (k, below, run, b) = refresh-cut now s d small in
      let cut =
        split_at_boundary last_used (sub_i64 now (as_nanos d)) s.items k sorted below b.left
          b.right in
      run ∙ ap₂ (λ xs ys. some (xs, record s { items = ys })) cut.0 cut.1

  -- On a stack of less than 2 ^ 31 workers, whatever their order, `refresh` does not panic, and
  -- no worker is lost, doubled or moved: what it returns followed by what it keeps is the stack
  -- as it was.
  pub refresh_partition :
      (now : ℤ) (s : WorkerStack W) (d : Duration)
      → length s.items < i32_half
      → (gone : List W) × (s' : WorkerStack W) × (refresh last_used now s d ≡ some (gone, s'))
        × (gone ++ s'.items ≡ s.items)
  refresh_partition now s d small =
      let (k, below, run, b) = refresh-cut now s d small in
      (take k s.items, record s { items = drop k s.items }, run, take-append-drop k s.items)

  -- On a stack of less than 2 ^ 31 workers, when no worker of the searched range `[l, h)` has
  -- expired, the search returns `l - 1`.
  pub binary_search_unexpired :
      (s : WorkerStack W) (l h : ℕ) (e : ℤ)
      → l ≤ h
      → h ≤ length s.items
      → length s.items < i32_half
      → ((i : ℕ) → l ≤ i → i < h → later last_used s.items e i ≡ true)
      → binary_search last_used s (pos l) (pred_ℤ h) e ≡ some (pred_ℤ l)
  binary_search_unexpired s l h e p q small none_expired =
      let (k, found, b) = binary_search-Boundary s l h e p q small in
      found ∙ ap (λ j. some (pred_ℤ j)) (ground (arith, b.left, b.lo, b.hi, none_expired (k - 1)))

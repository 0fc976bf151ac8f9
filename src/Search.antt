-- ===== src/Search.antt =====
-- The binary search that both worker queues run over their last-use times: the loop of
-- `WorkerStack::binary_search`, src/worker_stack.rs, which `LoopQueue::binary_search` repeats.
use ants.Base.{
  ℕ, zero, suc, ◌+◌, ◌-◌, ◌/◌, ◌≤◌, ◌<◌, ◌≡◌, refl, sym, ap, ◌∙◌, ◌⊎◌, inl, inr, Bool, true, false,
  Option, none, some, arith, dec_lt, Bool-cases,
}
use ants.Base.Int.{ℤ, pos, negsuc, ◌-ℤ◌, leb_ℤ}
use ants.Base.Word.{i32_half, wrap_i32, add_i32, sub_i32, shr_one, add_i32-pos, sub_i32-pos}

-- `l + ((r - l) >> 1)`.
pub midpoint : ℤ → ℤ → ℤ
midpoint l r = add_i32 l (shr_one (sub_i32 r l))

-- `later mid` answers the test `expiry_time < last_used(mid)`, and is `none` where the read of that
-- worker is out of bounds. The result is `none` for such a read, or when the fuel is spent.
pub search_loop : ℕ → (ℤ → Option Bool) → ℤ → ℤ → Option ℤ
search_loop zero later l r = none
search_loop (suc fuel) later l r = elim (leb_ℤ l r) [
  | false ↦ some r
  | true ↦ elim (later (midpoint l r)) [
    | none ↦ none
    | some found ↦ elim found [
      | true ↦ search_loop fuel later l (sub_i32 (midpoint l r) (pos 1))
      | false ↦ search_loop fuel later (add_i32 (midpoint l r) (pos 1)) r
    ]
  ]
]

-- h - 1, the last index of a range that ends before `h`.
abbrev pub pred_ℤ : ℕ → ℤ
pred_ℤ zero = negsuc 0
pred_ℤ (suc n) = pos n

midpoint-pos : (l r : ℕ) → l ≤ r → r < i32_half → midpoint (pos l) (pos r) ≡ pos (l + (r - l) / 2)
unfolding midpoint
midpoint-pos l r h k = rw (sub_i32-pos r l h k) (add_i32-pos l ((r - l) / 2) (omega arith))

sub_i32-one : (m : ℕ) → m < i32_half → sub_i32 (pos m) (pos 1) ≡ pred_ℤ m
unfolding sub_i32 ◌-ℤ◌ wrap_i32
sub_i32-one zero h = refl
sub_i32-one (suc m) h = sub_i32-pos (suc m) 1 (omega arith) h ∙ ap pos (omega arith)

-- `k` splits the range: just below it the test fails, and at it the test holds.
pub record Boundary (later : ℕ → Bool) (l h k : ℕ) : Type 0 where
  pub lo : l ≤ k
  pub hi : k ≤ h
  pub left : (k ≡ l) ⊎ (later (k - 1) ≡ false)
  pub right : (k ≡ h) ⊎ (later k ≡ true)

module _ (probe : ℤ → Option Bool) (later : ℕ → Bool) where
  abbrev Splits : ℕ → ℕ → ℕ → Type 0
  Splits fuel l h =
      (k : ℕ) × (search_loop fuel probe (pos l) (pred_ℤ h) ≡ some (pred_ℤ k)) × Boundary later l h k

  step :
      (fuel l r m : ℕ)
      → l ≤ r
      → suc r < i32_half
      → m ≡ l + (r - l) / 2
      → probe (pos m) ≡ some (later m)
      → Splits fuel l m
      → Splits fuel (suc m) (suc r)
      → Splits (suc fuel) l (suc r)
  unfolding search_loop
  step fuel l r m h small e p below above = elim (Bool-cases (later m)) [
    | inl t ↦ let (k, found, b) = below in (k, ground (arith, mid, sub_i32-one m), ground arith)
    | inr t ↦ let (k, found, b) = above in (k, ground (arith, mid, up), ground arith)
  ]
    where
      mid : midpoint (pos l) (pos r) ≡ pos m
      mid = midpoint-pos l r h (omega arith) ∙ ap pos (sym e)

      up : add_i32 (pos m) (pos 1) ≡ pos (suc m)
      up = add_i32-pos m 1 (omega arith) ∙ ap pos (omega arith)

  search_loop-empty :
      (fuel l h : ℕ) → h ≤ l → search_loop (suc fuel) probe (pos l) (pred_ℤ h) ≡ some (pred_ℤ h)
  unfolding search_loop
  search_loop-empty fuel l zero p = ground arith
  search_loop-empty fuel l (suc r) p = ground arith

  -- Where every position below `h` can be read, `h` is below 2 ^ 31 and the fuel is more than
  -- the range `[l, h)` is long, the search ends, at a boundary of the range.
  pub search_loop-Boundary :
      (fuel l h : ℕ)
      → l ≤ h
      → h < i32_half
      → h - l < fuel
      → ((i : ℕ) → i < h → probe (pos i) ≡ some (later i))
      → (k : ℕ) × (search_loop fuel probe (pos l) (pred_ℤ h) ≡ some (pred_ℤ k))
        × Boundary later l h k
  search_loop-Boundary zero l h p q f read = absurd (omega arith)
  search_loop-Boundary (suc fuel) l zero p q f read =
      (0, search_loop-empty fuel l 0 (omega arith), ground arith)
  search_loop-Boundary (suc fuel) l (suc r) p q f read = elim (dec_lt r l) [
    | yes over ↦ (suc r, search_loop-empty fuel l (suc r) over, ground arith)
    | no inside ↦
        step fuel l r m (omega arith) q refl (read m (omega arith))
          (search_loop-Boundary fuel l m (omega arith) (omega arith) (omega arith)
            (λ i lt. read i (omega arith)))
          (search_loop-Boundary fuel (suc m) (suc r) (omega arith) q (omega arith) read)
  ]
    where
      m : ℕ
      m = l + (r - l) / 2

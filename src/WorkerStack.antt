-- ===== src/WorkerStack.antt =====
-- The default worker queue, a stack that grows on demand: src/worker_stack.rs.
-- A worker is an element of `W`; the trait's `last_used_time` is the parameter `last_used`, and the
-- wall clock `now_unix_nano()` is an argument of `refresh`.
pub mod Items
pub mod Refresh
use ants.Base.{
  ℕ, zero, suc, ◌+◌, ◌-◌, ◌*◌, ◌/◌, ◌%◌, ◌^◌, ◌≤◌, ◌<◌, min, ◌≡◌, refl, sym, ap, ap₂, ◌∙◌, subst,
  ◌≢◌, ◌↔◌, ◌⊎◌, inl, inr, Bool, true, false, not, ◌&&◌, ◌||◌, Option, none, some, List, [], ◌∷◌,
  ◌++◌, map, arith, dec_lt, ℕ_discrete, ltb, leb, ◌==◌, if◌then◌else◌, ltb→lt, lt→ltb, leb→le,
  ==_iff, tests, Bool-cases, Option-cases, length, get_elem?, set, get_or, take, drop, replicate,
  length-append, length-set, get_elem?-set_self, get_elem?-set_ne, take-append-drop, length-take,
  length-drop, length-replicate, length-map,
}
use ants.Base.Int.{
  ℤ, pos, negsuc, pos_part, neg_part, ◌+ℤ◌, ◌-ℤ◌, ◌≤ℤ◌, ◌<ℤ◌, leb_ℤ, ltb_ℤ, eqb_ℤ, +ℤ_parts,
  -ℤ_parts, eq_of_parts, int_laws, eqb_ℤ→eq, leb_ℤ→≤ℤ, ltb_ℤ→<ℤ, ltb_ℤ-false,
}
use ants.Base.Word.{
  i32_half, i64_half, u32_mod, wrap_i32, wrap_i64, add_i32, sub_i32, sub_i64, usize_as_i32,
  i32_as_usize, shr_one, IsI32, wrap_i32-eq, usize_as_i32-eq, add_i32-pos, sub_i32-pos,
}
use ants.Search.{search_loop}
use ants.Duration.{Duration, as_nanos}
use ants.Error.{Error, Result, ok, err}

pub record WorkerStack {ℓ} (W : Type ℓ) : Type ℓ where
  pub items : List W

module _ {ℓ} {W : Type ℓ} where
  unfoldable pub new : WorkerStack W
  new = record { items = [] }

  pub items-new : new.items ≡ []
  unfolding new
  items-new = refl

  pub len : WorkerStack W → ℕ
  len s = length s.items

  pub is_empty : WorkerStack W → Bool
  is_empty s = len s == 0

  -- `Vec::push`: the newest worker stands at the end.
  unfoldable pub insert : WorkerStack W → W → Result (Unit {0}) × WorkerStack W
  insert s w = (ok tt, record s { items = s.items ++ (w ∷ []) })

  -- `Vec::pop`.
  unfoldable pub pop_last : List W → Option W × List W
  pop_last [] = (none, [])
  pop_last (x ∷ []) = (some x, [])
  pop_last (x ∷ y ∷ xs) = let (w, rest) = pop_last (y ∷ xs) in (w, x ∷ rest)

  unfoldable pub detach : WorkerStack W → Option W × WorkerStack W
  unfolding pop_last
  detach s = let (w, rest) = pop_last s.items in (w, record s { items = rest })

  -- The workers that are told to finish, in order, and the cleared stack.
  unfoldable pub reset : WorkerStack W → List W × WorkerStack W
  reset s = (s.items, record s { items = [] })

module _ {ℓ} {W : Type ℓ} (last_used : W → ℤ) where
  -- `expiry_time < self.items[mid as usize].last_used_time()`, `none` out of bounds.
  pub is_later : List W → ℤ → ℤ → Option Bool
  is_later items expiry_time mid = elim (get_elem? items (i32_as_usize mid)) [
    | none ↦ none
    | some w ↦ some (ltb_ℤ expiry_time (last_used w))
  ]

  -- One round more than the range is long.
  pub binary_search : WorkerStack W → ℤ → ℤ → ℤ → Option ℤ
  binary_search s l r expiry_time =
      search_loop (suc (length s.items)) (is_later s.items expiry_time) l r

  -- What `refresh` does with the index of the last expired worker; a range past the end panics.
  drain_to : WorkerStack W → ℤ → Option (List W × WorkerStack W)
  drain_to s index =
      let k = i32_as_usize (add_i32 index (pos 1)) in
      if eqb_ℤ index (negsuc 0)
      then some ([], s)
      else if leb k (len s)
      then some (take k s.items, record s { items = drop k s.items })
      else none

  -- `none` is a panic.
  pub refresh : ℤ → WorkerStack W → Duration → Option (List W × WorkerStack W)
  unfolding drain_to
  refresh now s duration =
      if len s == 0
      then some ([], s)
      else let expiry_time = sub_i64 now (as_nanos duration) in
        elim (binary_search s (pos 0) (sub_i32 (usize_as_i32 (len s)) (pos 1)) expiry_time) [
          | none ↦ none
          | some index ↦ drain_to s index
        ]

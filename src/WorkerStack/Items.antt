-- ===== src/WorkerStack/Items.antt =====
-- The operations of the stack on its list of workers.
use ants.Base.{◌≡◌, refl, sym, ap, ◌∙◌, ◌⊎◌, inl, inr, none, some, List, [], ◌∷◌, ◌++◌, length}
use ants.Error.{ok}
use ants.WorkerStack.{WorkerStack, len, insert, detach, reset, pop_last}

module _ {ℓ} {W : Type ℓ} where
  pop_last-append : (xs : List W) (w : W) → pop_last (xs ++ (w ∷ [])) ≡ (some w, xs)
  unfolding pop_last
  pop_last-append [] w = refl
  pop_last-append (x ∷ []) w = refl
  pop_last-append (x ∷ y ∷ xs) w = rw (pop_last-append (y ∷ xs) w)

  -- The stack is last-in-first-out: `detach` after `insert` gives back the worker just inserted,
  -- and leaves the stack as it was.
  pub detach-insert : (s : WorkerStack W) (w : W) → detach (insert s w).1 ≡ (some w, s)
  unfolding detach insert
  detach-insert s w = rw (pop_last-append s.items w)

module _ {ℓ} {W : Type ℓ} where
  pub len-items : (s : WorkerStack W) → len s ≡ length s.items
  unfolding len
  len-items s = refl

  pub insert-items :
      (s : WorkerStack W) (w : W) → insert s w ≡ (ok tt, record s { items = s.items ++ (w ∷ []) })
  unfolding insert
  insert-items s w = refl

  pub reset-items : (s : WorkerStack W) → reset s ≡ (s.items, record s { items = [] })
  unfolding reset
  reset-items s = refl

  abbrev Popped : List W → Type ℓ
  Popped xs = (w : W) × (rest : List W) × (xs ≡ rest ++ (w ∷ [])) × (pop_last xs ≡ (some w, rest))

  pop_last-cons : (x : W) (xs : List W) → Popped (x ∷ xs)
  unfolding pop_last
  pop_last-cons x [] = (x, [], refl, refl)
  pop_last-cons x (y ∷ ys) =
      let (w, rest, e, run) = pop_last-cons y ys in
      (w, x ∷ rest, ap (λ zs. x ∷ zs) e, ap (λ r. (r.0, x ∷ r.1)) run)

  -- `Vec::pop` finds nothing, or takes off the last element.
  pub pop_last-cases :
      (xs : List W)
      → ((xs ≡ []) × (pop_last xs ≡ (none, [])))
        ⊎ ((w : W) × (rest : List W) × (xs ≡ rest ++ (w ∷ [])) × (pop_last xs ≡ (some w, rest)))
  unfolding pop_last
  pop_last-cases [] = inl (refl, refl)
  pop_last-cases (x ∷ xs) = inr (pop_last-cons x xs)

  detach_of :
      (s : WorkerStack W) {xs : List W}
      → s.items ≡ xs
      → detach s ≡ ((pop_last xs).0, record s { items = (pop_last xs).1 })
  unfolding detach
  detach_of s e = ap (λ ys. ((pop_last ys).0, record s { items = (pop_last ys).1 })) e

  -- `detach` finds the stack empty, or takes out its newest worker.
  pub detach-cases :
      (s : WorkerStack W)
      → ((s.items ≡ []) × (detach s ≡ (none, s)))
        ⊎ ((w : W) × (rest : List W) × (s.items ≡ rest ++ (w ∷ []))
            × (detach s ≡ (some w, record s { items = rest })))
  unfolding pop_last
  detach-cases s = go s.items refl
    where
      go :
          (xs : List W)
          → s.items ≡ xs
          → ((s.items ≡ []) × (detach s ≡ (none, s)))
            ⊎ ((w : W) × (rest : List W) × (s.items ≡ rest ++ (w ∷ []))
                × (detach s ≡ (some w, record s { items = rest })))
      go [] e = inl (e, detach_of s e ∙ ap (λ ys. (none, record s { items = ys })) (sym e))
      go (x ∷ xs) e =
          let (w, rest, split, run) = pop_last-cons x xs in
          inr (w, rest, e ∙ split, detach_of s e ∙ ap (λ r. (r.0, record s { items = r.1 })) run)

-- ===== src/Idle.antt =====
-- The abstract view of both worker queues: the idle workers as a list, the one that has waited
-- longest first. It says which workers a call of `refresh` has to remove.
use ants.Base.{
  ℕ, zero, suc, ◌-◌, ◌≤◌, ◌<◌, ◌≡◌, refl, ap, subst, ◌⊎◌, inl, inr, Bool, true, false, some, List,
  [], ◌∷◌, arith, if◌then◌else◌, lt→ltb, length, get_elem?, take, drop,
}
use ants.Base.Int.{ℤ, ◌≤ℤ◌, ◌<ℤ◌, ltb_ℤ, ltb_ℤ→<ℤ, ltb_ℤ-false}

module _ {ℓ} {W : Type ℓ} (last_used : W → ℤ) where
  abbrev pub AllSince : ℤ → List W → Type 0
  AllSince t [] = Unit
  AllSince t (w ∷ ws) = (t ≤ℤ last_used w) × AllSince t ws

  -- By last-use time, the oldest first.
  abbrev pub IsSorted : List W → Type 0
  IsSorted [] = Unit
  IsSorted (w ∷ ws) = AllSince (last_used w) ws × IsSorted ws

  -- The workers last used at or before `expiry_time`, in their order.
  abbrev pub stale : ℤ → List W → List W
  stale expiry_time [] = []
  stale expiry_time (w ∷ ws) =
      let rest = stale expiry_time ws in if ltb_ℤ expiry_time (last_used w) then rest else w ∷ rest

  -- The workers last used after `expiry_time`, in their order.
  abbrev pub live : ℤ → List W → List W
  live expiry_time [] = []
  live expiry_time (w ∷ ws) =
      let rest = live expiry_time ws in if ltb_ℤ expiry_time (last_used w) then w ∷ rest else rest

  abbrev pub later : List W → ℤ → ℕ → Bool
  later [] expiry_time i = false
  later (w ∷ ws) expiry_time zero = ltb_ℤ expiry_time (last_used w)
  later (w ∷ ws) expiry_time (suc i) = later ws expiry_time i

  le-of-later :
      (t e : ℤ) (ws : List W) (i : ℕ)
      → AllSince t ws
      → i < length ws
      → later ws e i ≡ false
      → t ≤ℤ e
  le-of-later t e [] i h lt p = absurd (omega arith)
  le-of-later t e (w ∷ ws) zero h lt p = omega (arith, h.0, ltb_ℤ-false e (last_used w) p)
  le-of-later t e (w ∷ ws) (suc i) h lt p = le-of-later t e ws i h.1 (omega arith) p

  live_of_since :
      (t e : ℤ) (ws : List W) → AllSince t ws → e <ℤ t → (stale e ws ≡ []) × (live e ws ≡ ws)
  live_of_since t e [] h lt = (refl, refl)
  live_of_since t e (w ∷ ws) h lt =
      let ih = live_of_since t e ws h.1 lt in
      let after : ltb_ℤ e (last_used w) ≡ true = lt→ltb _ _ (omega (arith, h.0)) in
      (rw after ih.0, rw after (ap (λ ys. w ∷ ys) ih.1))

  -- The head of a sorted list is stale if anything before the boundary is.
  head-early :
      (e : ℤ) (w : W) (ws : List W) (k : ℕ)
      → AllSince (last_used w) ws
      → k ≤ length ws
      → later (w ∷ ws) e k ≡ false
      → ltb_ℤ e (last_used w) ≡ false
  head-early e w ws zero s h p = p
  head-early e w ws (suc k) s h p =
      let before = le-of-later (last_used w) e ws k s h p in ground arith

  before-shift :
      (e : ℤ) (w : W) (ws : List W) (k : ℕ)
      → later (w ∷ ws) e k ≡ false
      → (k ≡ 0) ⊎ (later ws e (k - 1) ≡ false)
  before-shift e w ws zero p = inl refl
  before-shift e w ws (suc k) p = inr (subst (λ j. later ws e j ≡ false) (omega arith) p)

  suc_right :
      (e : ℤ) (ws : List W) (k : ℕ)
      → (suc k ≡ suc (length ws)) ⊎ (later ws e k ≡ true)
      → (k ≡ length ws) ⊎ (later ws e k ≡ true)
  suc_right e ws k (inl p) = inl (omega arith)
  suc_right e ws k (inr p) = inr p

  -- In a sorted list a boundary of the search separates the stale workers from the live ones.
  pub split_at_boundary :
      (e : ℤ) (ws : List W) (k : ℕ)
      → IsSorted ws
      → k ≤ length ws
      → (k ≡ 0) ⊎ (later ws e (k - 1) ≡ false)
      → (k ≡ length ws) ⊎ (later ws e k ≡ true)
      → (take k ws ≡ stale e ws) × (drop k ws ≡ live e ws)
  split_at_boundary e [] zero s h l r = (refl, refl)
  split_at_boundary e [] (suc k) s h l r = absurd (omega arith)
  split_at_boundary e (w ∷ ws) zero s h l (inl z) = absurd (omega arith)
  split_at_boundary e (w ∷ ws) zero s h l (inr t) =
      let rest = live_of_since (last_used w) e ws s.0 (ltb_ℤ→<ℤ e (last_used w) t) in
      (rw (t, rest.0), rw (t, rest.1))
  split_at_boundary e (w ∷ ws) (suc k) s h (inl z) r = absurd (omega arith)
  split_at_boundary e (w ∷ ws) (suc k) s h (inr p) r =
      let p' = subst (λ j. later (w ∷ ws) e j ≡ false) suc-pred p in
      let early = head-early e w ws k s.0 (omega arith) p' in
      let ih =
        split_at_boundary e ws k s.1 (omega arith) (before-shift e w ws k p')
          (suc_right e ws k r) in
      (rw early (ap (λ ys. w ∷ ys) ih.0), rw early ih.1)
    where
      suc-pred : suc k - 1 ≡ k
      suc-pred = omega arith

  -- `later` looks at one worker of the list.
  pub later-get :
      (e : ℤ) (ws : List W) (i : ℕ)
      → i < length ws
      → (w : W) × (get_elem? ws i ≡ some w) × (later ws e i ≡ ltb_ℤ e (last_used w))
  later-get e [] i h = absurd (omega arith)
  later-get e (w ∷ ws) zero h = (w, refl, refl)
  later-get e (w ∷ ws) (suc i) h = later-get e ws i (omega arith)

-- ===== src/LoopQueue/Size.antt =====
-- No operation of the ring changes its size.
use ants.Base.{
  ℕ, zero, suc, ◌≡◌, refl, ap, none, false, replicate, ◌∙◌, inl, inr, some, List, arith,
  Option-cases, length,
}
use ants.Base.Int.{ℤ, pos}
use ants.Base.Word.{sub_i64, i32_as_usize}
use ants.Duration.{Duration, as_nanos}
use ants.LoopQueue.{
  LoopQueue, new, insert, detach, drain, reset, expire_to, finish_refresh, refresh, binary_search,
}

module _ {ℓ} {W : Type ℓ} where
  pub new-size : (n : ℕ) (q : LoopQueue W) → new (pos (suc n)) ≡ some q → q.size ≡ suc n
  unfolding new
  new-size n q made =
      let ring : LoopQueue W = record {
        items = replicate (suc n) none;
        head = 0;
        tail = 0;
        size = suc n;
        is_full = false;
      } in
      let eq : new (pos (suc n)) ≡ some ring = ground arith in
      let same : q ≡ ring = cc (made, eq) in ap (λ r. r.size) same

  pub insert-size : (q : LoopQueue W) (w : W) → (insert q w).1.size ≡ q.size
  unfolding insert
  insert-size q w = ground arith

  pub detach-size : (q : LoopQueue W) → (detach q).1.size ≡ q.size
  unfolding detach
  detach-size q = ground arith

  drain-size : (fuel : ℕ) (q : LoopQueue W) → (drain fuel q).1.size ≡ q.size
  unfolding drain
  drain-size zero q = refl
  drain-size (suc fuel) q = elim (Option-cases (detach q).0) [
    | inl empty ↦ rw (empty, drain) (detach-size q)
    | inr (w, found) ↦ rw (found, drain) (drain-size fuel (detach q).1 ∙ detach-size q)
  ]

  pub reset-size : (q : LoopQueue W) → (reset q).1.size ≡ q.size
  unfolding reset
  reset-size q = ground (arith, drain-size (suc (length q.items)) q)

  expire_to-size : (q : LoopQueue W) (i : ℕ) → (expire_to q i).1.size ≡ q.size
  unfolding expire_to
  expire_to-size q i = refl

  finish_refresh-size :
      (last_used : W → ℤ) (q : LoopQueue W) (index : ℤ) (r : List W × LoopQueue W)
      → finish_refresh last_used q index ≡ some r
      → r.1.size ≡ q.size
  unfolding finish_refresh
  finish_refresh-size last_used q index r run =
      ground (arith, expire_to-size q (i32_as_usize index))

  pub refresh-size :
      (last_used : W → ℤ) (now : ℤ) (q : LoopQueue W) (d : Duration) (r : List W × LoopQueue W)
      → refresh last_used now q d ≡ some r
      → r.1.size ≡ q.size
  unfolding refresh
  refresh-size last_used now q d r run =
      elim (Option-cases (binary_search last_used q (sub_i64 now (as_nanos d)))) [
        | inl stuck ↦ absurd (cc (stuck, run))
        | inr (index, found) ↦ finish_refresh-size last_used q index r (rw (found, refresh) at run)
      ]

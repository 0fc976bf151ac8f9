-- ===== src/MultiPool/Rotation.antt =====
-- The rotation of src/multipool.rs: round robin visits the pools in turn.
use ants.Base.{
  ℕ, zero, suc, ◌+◌, ◌-◌, ◌%◌, ◌^◌, ◌<◌, ◌≡◌, refl, ap, ap₂, ◌∙◌, List, [], ◌∷◌, arith, length,
}
use ants.Base.Int.{ℤ, pos}
use ants.Base.Word.{i32_half, u32_mod, usize_as_i32, usize_as_i32-eq}
use native.Mathlib.Nat.{mod-lt, mod-eq_of_lt}
use ants.MultiPool.{MultiPoolCore, Poolish, round_robin, next}

module _ {P A : Type 0} (po : Poolish P A) where
  -- The pools that the next `k` calls choose, and the multi-pool after them.
  pub turns : ℕ → MultiPoolCore P → List ℤ × MultiPoolCore P
  turns zero m = ([], m)
  turns (suc k) m =
      let (i, m') = next po round_robin m in let (is, m'') = turns k m' in (i ∷ is, m'')

  -- The cursor moves on by one, round 2 ^ 32, and names a pool.
  pub next-ticket :
      (m : MultiPoolCore P)
      → 0 < length m.pools
      → length m.pools < i32_half
      → next po round_robin m ≡ (
        pos ((m.index + 1) % 2 ^ 32 % length m.pools),
        record m { index = (m.index + 1) % 2 ^ 32 },
      )
  unfolding next
  next-ticket m some_pool few =
      let t = (m.index + 1) % 2 ^ 32 in
      ap (λ z. (z, record m { index = t }))
        (ap (λ n. usize_as_i32 (t % n))
            (mod-eq_of_lt {n = length m.pools} {m = 2 ^ 32} (omega arith))
          ∙ usize_as_i32-eq (t % length m.pools)
              (omega (arith, mod-lt t {m = length m.pools} some_pool)))

  turns-fields :
      (k : ℕ) (m : MultiPoolCore P)
      → 0 < length m.pools
      → length m.pools < i32_half
      → m.index < u32_mod
      → ((turns k m).1.pools ≡ m.pools) × ((turns k m).1.index ≡ (m.index + k) % 2 ^ 32)
  unfolding turns
  turns-fields zero m some_pool few small = (refl, omega arith)
  turns-fields (suc k) m some_pool few small =
      let step = ap (λ r. r.1) (next-ticket m some_pool few) in
      let m' : MultiPoolCore P = record m { index = (m.index + 1) % 2 ^ 32 } in
      let (pools, index) = turns-fields k m' some_pool few (omega arith) in
      (
        ap (λ x. (turns k x).1.pools) step ∙ pools,
        ap (λ x. (turns k x).1.index) step ∙ index ∙ omega arith,
      )

  -- With at least one and fewer than 2 ^ 31 pools, and the cursor where `new` puts it, call
  -- number `k` of round robin, counted from zero, chooses pool `k` modulo the number of pools,
  -- as long as the cursor does not come round: `k` is below 2 ^ 32.
  pub turns-rotate :
      (m : MultiPoolCore P) (k : ℕ)
      → 0 < length m.pools
      → length m.pools < i32_half
      → m.index ≡ u32_mod - 1
      → k < u32_mod
      → (next po round_robin (turns k m).1).0 ≡ pos (k % length m.pools)
  turns-rotate m k some_pool few fresh short =
      let (pools, index) = turns-fields k m some_pool few (omega (arith, fresh)) in
      let after = (turns k m).1 in
      let size : length after.pools ≡ length m.pools = ap length pools in
      let ticket : (after.index + 1) % 2 ^ 32 ≡ k = omega (arith, index, fresh, short) in
      ap (λ r. r.0) (next-ticket after (omega (arith, size, some_pool)) (omega (arith, size, few)))
      ∙ ap₂ (λ t n. pos (t % n)) ticket size

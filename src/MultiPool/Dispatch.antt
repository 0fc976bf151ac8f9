-- ===== src/MultiPool/Dispatch.antt =====
-- `next` by least tasks and `dispatch` of src/multipool.rs.
use ants.Base.{
  ℕ, zero, suc, ◌+◌, ◌%◌, ◌^◌, ◌<◌, ◌≡◌, refl, sym, ap, ◌∙◌, subst, ◌⊎◌, inl, inr, not, ◌||◌, some,
  List, [], ◌∷◌, map, arith, Bool-cases, length, get_elem?, set, length-set,
}
use ants.Base.Int.{pos, ◌≤ℤ◌}
use ants.Base.Word.{i32_half, usize_as_i32-eq}
use native.Mathlib.Nat.{mod-lt}
use ants.Error.{Error, is_pool_overload, pool_closed}
use ants.PoolCore.Workers.{
  Retrieved, got, failed, blocked, Submitted, delivered, refused, waits, answer,
}
use ants.MultiPool.{
  after_first, MultiPoolCore, Poolish, round_robin, least_tasks, same_strategy, next, deliver_at,
  retry, dispatch, least_loop, i32_max, is_closed,
}
use ants.MultiPool.Least.{AllAtLeast, least_loop_lem}
use ants.MultiPool.Rotation.{next-ticket}

pub get_elem?-bound :
    {B : Type 0} (xs : List B) (i : ℕ) (x : B) → get_elem? xs i ≡ some x → i < length xs
get_elem?-bound [] i x e = absurd (cc (e))
get_elem?-bound (y ∷ xs) zero x e = omega arith
get_elem?-bound (y ∷ xs) (suc i) x e = omega (arith, get_elem?-bound xs i x e)

get_elem?-some :
    {B : Type 0} (xs : List B) (i : ℕ) → i < length xs → (x : B) × (get_elem? xs i ≡ some x)
get_elem?-some [] i h = absurd (omega arith)
get_elem?-some (y ∷ xs) zero h = (y, refl)
get_elem?-some (y ∷ xs) (suc i) h = get_elem?-some xs i (omega arith)

get_elem?-map :
    {B C : Type 0} (f : B → C) (xs : List B) (i : ℕ) (v : C)
    → get_elem? (map f xs) i ≡ some v
    → (x : B) × (get_elem? xs i ≡ some x) × (f x ≡ v)
get_elem?-map f [] i v e = absurd (cc (e))
get_elem?-map f (y ∷ xs) zero v e = (y, refl, cc (e))
get_elem?-map f (y ∷ xs) (suc i) v e = get_elem?-map f xs i v e

module _ {P A : Type 0} (po : Poolish P A) where
  least_pool :
      (ps : List P)
      → 0 < length ps
      → ((p : P) → po.running p ≤ℤ i32_max)
      → (p : P) × (get_elem? ps (least_loop (map po.running ps) 0 i32_max 0) ≡ some p)
        × AllAtLeast (po.running p) (map po.running ps)
  least_pool [] h small = absurd (omega arith)
  least_pool (q ∷ qs) h small =
      let (v, at, all) = least_loop_lem (po.running q) (map po.running qs) (small q) in
      let (p, there, runs) =
        get_elem?-map po.running (q ∷ qs) (least_loop (map po.running (q ∷ qs)) 0 i32_max 0) v at in
      (p, there, subst (λ x. AllAtLeast x (map po.running (q ∷ qs))) (sym runs) all)

  -- With at least one and fewer than 2 ^ 31 pools, whose counts of running workers are `i32`s,
  -- `next` by least tasks names a pool, none runs fewer workers, and the multi-pool is
  -- unchanged.
  pub next-least :
      (m : MultiPoolCore P)
      → 0 < length m.pools
      → length m.pools < i32_half
      → ((p : P) → po.running p ≤ℤ i32_max)
      → (i : ℕ) × (p : P) × (next po least_tasks m ≡ (pos i, m))
        × (get_elem? m.pools i ≡ some p)
        × AllAtLeast (po.running p) (map po.running m.pools)
  unfolding next
  next-least m some_pool few small =
      let i = least_loop (map po.running m.pools) 0 i32_max 0 in
      let (p, there, all) = least_pool m.pools some_pool small in
      (
        i,
        p,
        ap (λ z. (z, m))
            (usize_as_i32-eq i (omega (arith, get_elem?-bound m.pools i p there, few))),
        there,
        all,
      )

  deliver_at-runs :
      (m : MultiPoolCore P) (i : ℕ) (a : A) (p : P)
      → get_elem? m.pools i ≡ some p
      → deliver_at po (pos i) a m
        ≡ some ((po.deliver a p).0, record m { pools = set m.pools i (po.deliver a p).1 })
  unfolding deliver_at
  deliver_at-runs m i a p there = rw (there, deliver_at) refl

  -- The second try does not panic either.
  retry-total :
      (m : MultiPoolCore P) (a : A) (e : Error)
      → 0 < length m.pools
      → length m.pools < i32_half
      → ((p : P) → po.running p ≤ℤ i32_max)
      → (r : Retrieved) × (m' : MultiPoolCore P) × (retry po a e m ≡ some (r, m'))
  unfolding retry
  retry-total m a e some_pool few small =
      elim (Bool-cases (not (is_pool_overload e) || not (same_strategy m.lbs round_robin))) [
        | inl gives_up ↦ (failed e, m, rw gives_up refl)
        | inr tries ↦
            let (i, p, chosen, there, _) = next-least m some_pool few small in
            (
              answer (po.deliver a p).0,
              record m { pools = set m.pools i (po.deliver a p).1 },
              rw (tries, chosen, deliver_at-runs m i a p there) refl,
            )
      ]

  after_first-total :
      (m : MultiPoolCore P) (first : Submitted A)
      → 0 < length m.pools
      → length m.pools < i32_half
      → ((p : P) → po.running p ≤ℤ i32_max)
      → (r : Retrieved) × (m' : MultiPoolCore P) × (after_first po (first, m) ≡ some (r, m'))
  unfolding after_first
  after_first-total m (delivered w) some_pool few small = (got w, m, refl)
  after_first-total m (refused e a) some_pool few small = retry-total m a e some_pool few small
  after_first-total m (waits g) some_pool few small = (blocked g, m, refl)

  next-pool :
      (m : MultiPoolCore P)
      → (m.lbs ≡ round_robin) ⊎ (m.lbs ≡ least_tasks)
      → 0 < length m.pools
      → length m.pools < i32_half
      → ((p : P) → po.running p ≤ℤ i32_max)
      → (i : ℕ) × (p : P) × (m' : MultiPoolCore P) × (next po m.lbs m ≡ (pos i, m'))
        × (m'.pools ≡ m.pools)
        × (get_elem? m'.pools i ≡ some p)
  next-pool m (inl turn) some_pool few small =
      let t = (m.index + 1) % 2 ^ 32 in
      let (p, there) = get_elem?-some m.pools (t % length m.pools) (mod-lt t some_pool) in
      (
        t % length m.pools,
        p,
        record m { index = t },
        ap (λ s. next po s m) turn ∙ next-ticket po m some_pool few,
        refl,
        there,
      )
  next-pool m (inr least) some_pool few small =
      let (i, p, chosen, there, _) = next-least m some_pool few small in
      (i, p, m, ap (λ s. next po s m) least ∙ chosen, refl, there)

  -- With either strategy that `new` accepts, at least one and fewer than 2 ^ 31 pools, and
  -- counts of running workers that are `i32`s, `dispatch` does not panic: it ends with a result,
  -- or waits in a pool.
  pub dispatch-total :
      (m : MultiPoolCore P) (a : A)
      → (m.lbs ≡ round_robin) ⊎ (m.lbs ≡ least_tasks)
      → 0 < length m.pools
      → length m.pools < i32_half
      → ((p : P) → po.running p ≤ℤ i32_max)
      → (r : Retrieved) × (m' : MultiPoolCore P) × (dispatch po a m ≡ some (r, m'))
  unfolding dispatch
  dispatch-total m a known some_pool few small = elim (Bool-cases (is_closed po m)) [
    | inl shut ↦ (failed pool_closed, m, rw shut refl)
    | inr live ↦
        let (i, p, m1, chosen, kept, there) = next-pool m known some_pool few small in
        let first = deliver_at-runs m1 i a p there in
        let m2 : MultiPoolCore P = record m1 { pools = set m1.pools i (po.deliver a p).1 } in
        let size : length m2.pools ≡ length m.pools =
          length-set m1.pools i (po.deliver a p).1 ∙ ap length kept in
        let (r, m3, ends) =
          after_first-total m2 (po.deliver a p).0 (omega (arith, size, some_pool))
            (omega (arith, size, few)) small in
        (r, m3, rw (live, chosen, first) ends)
  ]

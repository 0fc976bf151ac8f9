-- ===== src/MultiPool.antt =====
-- Several pools behind one submit function: src/multipool.rs. What a multi-pool needs of its pools,
-- the trait `Poolish`, is a record of operations.
pub mod Lifecycle
pub mod Rotation
pub mod Text
pub mod Report
pub mod Segments
pub mod Least
pub mod Dispatch
pub mod Made
pub mod Shut
pub mod Tasks
pub mod Func
pub mod FuncGeneric
use ants.Base.{
  ℕ, zero, suc, ◌+◌, ◌-◌, ◌*◌, ◌/◌, ◌%◌, ◌^◌, ◌≤◌, ◌<◌, min, ◌≡◌, refl, sym, ap, ap₂, ◌∙◌, subst,
  ◌≢◌, ◌↔◌, ◌⊎◌, inl, inr, Bool, true, false, not, ◌&&◌, ◌||◌, Option, none, some, List, [], ◌∷◌,
  ◌++◌, map, arith, dec_lt, ℕ_discrete, ltb, leb, ◌==◌, if◌then◌else◌, ltb→lt, lt→ltb, leb→le,
  ==_iff, tests, Bool-cases, Option-cases, length, get_elem?, set, get_or, take, drop, replicate,
  length-append, length-Perm, length-set, get_elem?-set_self, get_elem?-set_ne, take-append-drop,
  length-take, length-drop, length-replicate, length-map, get_or-set_self, get_or-set_ne,
  get_elem?-eq-get_or, get_or-replicate, get_elem?-none, get_elem?-append_lt, get_elem?-append_self,
  get_elem?-drop, get_elem?-take,
}
use ants.Base.Int.{
  ℤ, pos, negsuc, pos_part, neg_part, ◌+ℤ◌, ◌-ℤ◌, ◌≤ℤ◌, ◌<ℤ◌, leb_ℤ, ltb_ℤ, eqb_ℤ, +ℤ_parts,
  -ℤ_parts, eq_of_parts, int_laws, eqb_ℤ→eq, leb_ℤ→≤ℤ, ltb_ℤ→<ℤ, ltb_ℤ-false,
}
use ants.Base.Word.{
  i32_half, i64_half, u32_mod, rem_i32, wrap_i32, wrap_i64, add_i32, sub_i32, sub_i64, usize_as_i32,
  i32_as_usize, shr_one, IsI32, wrap_i32-eq, usize_as_i32-eq, add_i32-pos, add_i32-one,
  add_i32-pred, add_i32-over, sub_i32-pos,
}
use mathlib.Core.Option
use ants.Error.{
  Error, Result, ok, err, is_pool_overload, pool_closed, invalid_multi_pool_size,
  invalid_load_balancing_strategy, invalid_pool_index,
}
use ants.PoolCore.{opened, closed}
use ants.PoolCore.Workers.{
  Retrieved, got, failed, blocked, Submitted, delivered, refused, waits, answer,
}

-- `struct LoadBalancingStrategy(i32)`.
pub record LoadBalancingStrategy : Type 0 where
  pub code : ℤ

abbrev pub round_robin : LoadBalancingStrategy
round_robin = record { code = pos 2 }

abbrev pub least_tasks : LoadBalancingStrategy
least_tasks = record { code = pos 4 }

abbrev pub same_strategy : LoadBalancingStrategy → LoadBalancingStrategy → Bool
same_strategy a b = eqb_ℤ a.code b.code

-- `trait Poolish`; an operation that changes a pool returns it, and `deliver` is taken up to its
-- return or its wait; `release_context` is the one without a context, which does not wait; `reboot` is
-- `none` where it would wait.
pub record Poolish (P A : Type 0) : Type 0 where
  pub deliver : A → P → Submitted A × P
  pub running : P → ℤ
  pub free : P → ℤ
  pub waiting : P → ℤ
  pub cap : P → ℤ
  pub tune : ℤ → P → P
  pub release : P → P
  pub release_context : P → Result (Unit {0}) × P
  pub reboot : P → Option P

pub record MultiPoolCore (P : Type 0) : Type 0 where
  pub pools : List P
  pub index : ℕ
  pub state : ℤ
  pub lbs : LoadBalancingStrategy

-- `i32::MAX`.
abbrev pub i32_max : ℤ
i32_max = pos (i32_half - 1)

-- The loop of `next` over the counts of running workers: `index` is the pool that `least` is of.
unfoldable pub least_loop : List ℤ → ℕ → ℤ → ℕ → ℕ
least_loop [] candidate least index = index
least_loop (r ∷ rs) candidate least index = elim (ltb_ℤ r least) [
  | true ↦ least_loop rs (candidate + 1) r candidate
  | false ↦ least_loop rs (candidate + 1) least index
]

-- `sum` of `i32`s.
unfoldable pub sum_i32 : ℤ → List ℤ → ℤ
sum_i32 total [] = total
sum_i32 total (x ∷ xs) = sum_i32 (add_i32 total x) xs

module _ {P A : Type 0} (po : Poolish P A) where
  abbrev pub is_closed : MultiPoolCore P → Bool
  is_closed m = eqb_ℤ m.state closed

  -- The pools made so far are released when a later one cannot be made: the second component.
  pub make_pools : ℕ → (ℕ → Result P) → List P → Result (List P) × List P
  make_pools zero make_pool made = (ok made, [])
  make_pools (suc n) make_pool made = elim (make_pool (length made)) [
    | err e ↦ (err e, map po.release made)
    | ok p ↦ make_pools n make_pool (made ++ (p ∷ []))
  ]

  -- `make_pool i` is what the call number `i` of `make_pool` returns.
  pub new : ℤ → LoadBalancingStrategy → (ℕ → Result P) → Result (MultiPoolCore P) × List P
  unfolding make_pools
  new size lbs make_pool =
      if leb_ℤ size (pos 0)
      then (err invalid_multi_pool_size, [])
      else if not (same_strategy lbs round_robin) && not (same_strategy lbs least_tasks)
      then (err invalid_load_balancing_strategy, [])
      else let (made, released) = make_pools (i32_as_usize size) make_pool [] in
        (
          elim made [
            | err e ↦ err e
            | ok pools ↦
                ok (record { pools = pools; index = u32_mod - 1; state = opened; lbs = lbs })
          ],
          released,
        )

  -- `next`: a pool's index, and the cursor moved on.
  unfoldable pub next : LoadBalancingStrategy → MultiPoolCore P → ℤ × MultiPoolCore P
  next lbs m =
      if same_strategy lbs round_robin
      then (let ticket = (m.index + 1) % 2 ^ 32 in
          (usize_as_i32 (ticket % (length m.pools % 2 ^ 32)), record m { index = ticket }))
      else if same_strategy lbs least_tasks
      then (usize_as_i32 (least_loop (map po.running m.pools) 0 i32_max 0), m)
      else (negsuc 0, m)

  -- `self.pools[i as usize].deliver(argument)`: `none` where the index is out of bounds.
  unfoldable pub deliver_at : ℤ → A → MultiPoolCore P → Option (Submitted A × MultiPoolCore P)
  deliver_at i argument m = elim (get_elem? m.pools (i32_as_usize i)) [
    | none ↦ none
    | some p ↦
        let (r, p') = po.deliver argument p in
        some (r, record m { pools = set m.pools (i32_as_usize i) p' })
  ]

  -- The second try of `dispatch`, after the first has failed with `e` and given `argument` back.
  unfoldable pub retry : A → Error → MultiPoolCore P → Option (Retrieved × MultiPoolCore P)
  retry argument e m =
      if not (is_pool_overload e) || not (same_strategy m.lbs round_robin)
      then some (failed e, m)
      else let (i, m') = next least_tasks m in
        elim (deliver_at i argument m') [ none ↦ none | some r ↦ some (answer r.0, r.1) ]

  -- `dispatch` from the return of the first `deliver` on, or from its wait.
  unfoldable pub after_first : Submitted A × MultiPoolCore P → Option (Retrieved × MultiPoolCore P)
  after_first (delivered w, m) = some (got w, m)
  after_first (refused e argument, m) = retry argument e m
  after_first (waits g, m) = some (blocked g, m)

  -- `none` is a panic of the index.
  unfoldable pub dispatch : A → MultiPoolCore P → Option (Retrieved × MultiPoolCore P)
  dispatch argument m =
      if is_closed m
      then some (failed pool_closed, m)
      else let (i, m') = next m.lbs m in
        elim (deliver_at i argument m') [ none ↦ none | some first ↦ after_first first ]

  unfoldable pub pool_at : ℤ → MultiPoolCore P → Result P
  pool_at index m =
      if ltb_ℤ index (pos 0) || leb (length m.pools) (i32_as_usize index)
      then err invalid_pool_index
      else elim (get_elem? m.pools (i32_as_usize index)) [
        | none ↦ err invalid_pool_index
        | some p ↦ ok p
      ]

  -- `running`, `free`, `waiting` and `cap`, of all pools and of one.
  abbrev pub total : (P → ℤ) → MultiPoolCore P → ℤ
  total count m = sum_i32 (pos 0) (map count m.pools)

  abbrev pub by_index : (P → ℤ) → ℤ → MultiPoolCore P → Result ℤ
  by_index count index m = elim (pool_at index m) [ err e ↦ err e | ok p ↦ ok (count p) ]

  abbrev pub tune_all : ℤ → MultiPoolCore P → MultiPoolCore P
  tune_all size m = record m { pools = map (po.tune size) m.pools }

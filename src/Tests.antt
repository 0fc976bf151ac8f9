-- ===== src/Tests.antt =====
-- The theorems at concrete inputs.
pub mod Pool
pub mod Runs
pub mod Threads
pub mod Outer
pub mod Multi
pub mod Deps
use ants.Base.{
  ℕ, zero, suc, ◌+◌, ◌-◌, ◌*◌, ◌/◌, ◌%◌, ◌^◌, ◌≤◌, ◌<◌, min, ◌≡◌, refl, sym, ap, ap₂, ◌∙◌, subst,
  ◌≢◌, ◌↔◌, ◌⊎◌, inl, inr, Bool, true, false, not, ◌&&◌, ◌||◌, Option, none, some, List, [], ◌∷◌,
  ◌++◌, map, arith, dec_lt, ℕ_discrete, ltb, leb, ◌==◌, if◌then◌else◌, ltb→lt, lt→ltb, leb→le,
  ==_iff, tests, Bool-cases, Option-cases, length, get_elem?, set, get_or, take, drop, replicate,
  length-append, length-Perm, length-set, get_elem?-set_self, get_elem?-set_ne, take-append-drop,
  length-take, length-drop, length-replicate, length-map, get_or-set_self, get_or-set_ne,
  get_elem?-eq-get_or, get_or-replicate, get_elem?-none, get_elem?-append_lt, get_elem?-append_self,
  get_elem?-drop, get_elem?-take,
}
use ants.Base.Word.{u32_mod}
use ants.Base.{◌≢◌, ◌%◌}
use ants.Base.Int.{
  neg_part, ℤ, pos, negsuc, pos_part, neg_part, ◌+ℤ◌, ◌-ℤ◌, ◌≤ℤ◌, ◌<ℤ◌, leb_ℤ, ltb_ℤ, eqb_ℤ,
  +ℤ_parts, -ℤ_parts, eq_of_parts, int_laws, eqb_ℤ→eq, leb_ℤ→≤ℤ, ltb_ℤ→<ℤ, ltb_ℤ-false,
}
use ants.Base.Word.{
  i32_half, i64_half, u32_mod, rem_i32, wrap_i32, wrap_i64, add_i32, sub_i32, sub_i64, usize_as_i32,
  i32_as_usize, shr_one, IsI32, wrap_i32-eq, usize_as_i32-eq, add_i32-pos, add_i32-one,
  add_i32-pred, add_i32-over, sub_i32-pos,
}
use mathlib.Core.Option
use mathlib.Core.List.{Perm}
use ants.Search.{search_loop, search_loop-Boundary, Boundary, pred_ℤ}
use ants.Idle.{later}
use ants.Duration.{to_std, Duration, from_nanos, as_nanos}
use ants.Error.{Error, Result, ok, err, canceled, deadline_exceeded, pool_closed}
use ants.WorkerStack
use ants.WorkerStack.{WorkerStack}
use ants.WorkerStack.Items
use ants.WorkerStack.Refresh as StackRefresh
use ants.LoopQueue
use ants.LoopQueue.{LoopQueue}
use ants.LoopQueue.Holds as RingHolds
use ants.LoopQueue.Holds.{Holds}
use ants.LoopQueue.Expire.{from_slot_zero}
use ants.LoopQueue.Advance
use ants.LoopQueue.Refresh as RingRefresh
use ants.LoopQueue.Position
use ants.WorkerQueue
use ants.WorkerQueue.{BoxedQueue, stack, loop_queue}
use ants.WorkerQueue.Laws
use ants.Cond.{
  Waiters, Sleepers, Reach, start, next, enters, signals, no_waiters, register, signal, broadcast,
  try_leave, IsValid, Reach-IsValid, signal_wakes, signal_stolen,
}
use ants.Context.{background, with_cancel, with_timeout, cancel, is_done, ctx_err, ctx_err_lem}
use ants.Options.{
  Options, Opt, default_options, load_options, load_options-append, with_options, with_nonblocking,
  with_pre_alloc,
}

-- Workers are numbers; worker `w` was last used at time `w`.
abbrev used_at : ℕ → ℤ
used_at w = pos w

abbrev three_items : WorkerStack ℕ
three_items = record { items = 3 ∷ 5 ∷ 9 ∷ [] }

abbrev five_ns : Duration
five_ns = from_nanos (pos 5)

refresh-sorted_example :
    WorkerStack.refresh used_at (pos 10) three_items five_ns
    ≡ some (3 ∷ 5 ∷ [], record { items = 9 ∷ [] })
unfolding sub_i64 wrap_i64 ◌-ℤ◌
refresh-sorted_example =
    StackRefresh.refresh-sorted used_at (pos 10) three_items five_ns (ground arith) (ground arith)

refresh_partition_example :
    (gone : List ℕ) × (s' : WorkerStack ℕ) × (WorkerStack.refresh used_at
        (pos 10)
        three_items
        five_ns
      ≡ some (gone, s'))
    × (gone ++ s'.items ≡ 3 ∷ 5 ∷ 9 ∷ [])
refresh_partition_example =
    StackRefresh.refresh_partition used_at (pos 10) three_items five_ns (ground arith)

from_second : (i : ℕ) → 1 ≤ i → i < 3 → later used_at three_items.items (pos 4) i ≡ true
from_second zero h k = absurd (omega arith)
from_second (suc zero) h k = refl
from_second (suc (suc zero)) h k = refl
from_second (suc (suc (suc i))) h k = absurd (omega arith)

binary_search_unexpired_example :
    WorkerStack.binary_search used_at three_items (pos 1) (pred_ℤ 3) (pos 4) ≡ some (pred_ℤ 1)
binary_search_unexpired_example =
    StackRefresh.binary_search_unexpired used_at three_items 1 3 (pos 4) (ground arith)
      (ground arith) (ground arith) from_second

-- The oldest worker stands in the last slot.
abbrev wrapped : LoopQueue ℕ
wrapped = record {
  items = some 5 ∷ none ∷ some 3 ∷ [];
  head = 2;
  tail = 1;
  size = 3;
  is_full = false;
}

wrapped-slots :
    (i : ℕ) → i < 3 → LoopQueue.slot wrapped.items ((2 + i) % 3) ≡ get_elem? (3 ∷ 5 ∷ []) i
wrapped-slots zero h = refl
wrapped-slots (suc zero) h = refl
wrapped-slots (suc (suc zero)) h = refl
wrapped-slots (suc (suc (suc i))) h = absurd (omega arith)

wrapped-Holds : Holds wrapped (3 ∷ 5 ∷ [])
wrapped-Holds = record {
  size_pos = ground arith;
  storage = refl;
  head_in = ground arith;
  fits = ground arith;
  tail_at = refl;
  full = ground arith;
  slots = wrapped-slots;
}

refresh_ring-sorted_example :
    (q' : LoopQueue ℕ) × (LoopQueue.refresh used_at (pos 9) wrapped five_ns
      ≡ some (from_slot_zero 1 (3 ∷ []), q'))
    × Holds q' (5 ∷ [])
unfolding sub_i64 wrap_i64 ◌-ℤ◌
refresh_ring-sorted_example =
    RingRefresh.refresh_ring-sorted used_at (pos 9) wrapped (3 ∷ 5 ∷ []) five_ns wrapped-Holds
      (ground arith) (ground arith)

-- A ring without workers whose `head` is not at its first slot.
empty_ring : ℕ → ℕ → LoopQueue ℕ
empty_ring n h = record { items = replicate n none; head = h; tail = h; size = n; is_full = false }

empty_ring-Holds : (n h : ℕ) → h < n → Holds (empty_ring n h) []
unfolding empty_ring
empty_ring-Holds n h lt = record {
  size_pos = omega arith;
  storage = length-replicate n none;
  head_in = lt;
  fits = omega arith;
  tail_at = omega (arith, RingHolds.add-mod n h 0 lt (omega arith));
  full = ground arith;
  slots = λ i k. get_or-replicate n ((h + i) % n) none;
}

empty_ring-fields : (n h : ℕ) → ((empty_ring n h).size ≡ n) × ((empty_ring n h).head ≡ h)
unfolding empty_ring
empty_ring-fields n h = (refl, refl)

true_position-overflow_example :
    let q = empty_ring (2 ^ 30) (2 ^ 30 - 1) in
    let wrong = LoopQueue.true_position used_at q (pos (2 ^ 30 - 1)) in
    let rest = (u32_mod - (2 ^ 30 - 1 + q.head + q.size)) % q.size in
    (pos_part wrong ≡ 0) × (neg_part wrong ≡ rest) × (rest ≢ 0 → (slot : ℕ) → wrong ≢ pos slot)
true_position-overflow_example =
    let f = empty_ring-fields (2 ^ 30) (2 ^ 30 - 1) in
    Position.true_position-overflow used_at (empty_ring (2 ^ 30) (2 ^ 30 - 1)) [] (2 ^ 30 - 1)
      (empty_ring-Holds (2 ^ 30) (2 ^ 30 - 1) (omega arith)) (omega (arith, f)) (omega (arith, f))
      (omega (arith, f)) (omega (arith, f))

search_loop-Boundary_example :
    (k : ℕ) × (search_loop 4 (λ z. some (ltb_ℤ (pos 1) z)) (pos 0) (pred_ℤ 3) ≡ some (pred_ℤ k))
    × Boundary (λ i. ltb 1 i) 0 3 k
search_loop-Boundary_example =
    search_loop-Boundary (λ z. some (ltb_ℤ (pos 1) z)) (λ i. ltb 1 i) 4 0 3 (ground arith)
      (ground arith) (ground arith) (λ i h. ground arith)

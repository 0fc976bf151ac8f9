-- ===== src/Tests/Multi.antt =====
-- The theorems on a multi-pool, at concrete inputs.
use ants.Base.{
  ℕ, ◌+◌, ◌-◌, ◌%◌, ◌<◌, ◌≡◌, refl, ◌⊎◌, inl, inr, some, List, [], ◌∷◌, map, arith, ltb, ◌==◌,
  if◌then◌else◌, length, get_elem?,
}
use ants.Base.Int.{pos, ◌≤ℤ◌}
use ants.Base.Word.{i32_half, u32_mod, i32_as_usize}
use ants.Error.{Error, Result, ok, err, pool_overload, pool_closed}
use ants.PoolCore.{opened}
use ants.PoolCore.Workers.{Retrieved, delivered, refused}
use ants.MultiPool.{new, MultiPoolCore, Poolish, round_robin, least_tasks, next, dispatch, i32_max}
use ants.MultiPool.Least.{AllAtLeast}
use ants.MultiPool.Rotation.{turns, turns-rotate}
use ants.MultiPool.Made.{MadeBy, new-Made}
use ants.MultiPool.Dispatch.{next-least, dispatch-total}

-- A pool is its capacity and how many workers run; one that is full is overloaded.
abbrev pub counters : Poolish (ℕ × ℕ) ℕ
counters = record {
  deliver =
      λ a p. if ltb p.1 p.0 then (delivered p.1, (p.0, p.1 + 1)) else (refused pool_overload a, p);
  running = λ p. pos (p.1 % i32_half);
  free = λ p. pos (p.0 - p.1);
  waiting = λ p. pos 0;
  cap = λ p. pos p.0;
  tune = λ size p. (i32_as_usize size, p.1);
  release = λ p. p;
  release_context = λ p. (if ltb p.0 p.1 then err pool_closed else ok tt, (p.0, 0));
  reboot = λ p. some p;
}

abbrev pub trio : MultiPoolCore (ℕ × ℕ)
trio = record {
  pools = (2, 2) ∷ (2, 1) ∷ (2, 0) ∷ [];
  index = u32_mod - 1;
  state = opened;
  lbs = round_robin;
}

counted_small : (p : ℕ × ℕ) → counters.running p ≤ℤ i32_max
counted_small p = omega arith

turns-rotate_example : (next counters round_robin (turns counters 4 trio).1).0 ≡ pos (4 % 3)
turns-rotate_example =
    turns-rotate counters trio 4 (ground arith) (ground arith) (ground arith) (ground arith)

next-least_example :
    (i : ℕ) × (p : ℕ × ℕ) × (next counters least_tasks trio ≡ (pos i, trio))
    × (get_elem? trio.pools i ≡ some p)
    × AllAtLeast (counters.running p) (map counters.running trio.pools)
next-least_example = next-least counters trio (ground arith) (ground arith) counted_small

dispatch-total_example :
    (r : Retrieved) × (m' : MultiPoolCore (ℕ × ℕ)) × (dispatch counters 9 trio ≡ some (r, m'))
dispatch-total_example =
    dispatch-total counters trio 9 (inl refl) (ground arith) (ground arith) counted_small

-- The third pool cannot be made.
abbrev two_made : ℕ → Result (ℕ × ℕ)
two_made i = if i == 2 then err pool_overload else ok (i, 0)

new-Made_example :
    ((m : MultiPoolCore (ℕ × ℕ)) × (new counters (pos 3) least_tasks two_made ≡ (ok m, []))
      × (length m.pools ≡ 3)
      × MadeBy two_made m.pools
      × (m.state ≡ opened)
      × (m.lbs ≡ least_tasks)
      × (m.index ≡ u32_mod - 1))
    ⊎ ((first : List (ℕ × ℕ)) × (e : Error) × (new counters (pos 3) least_tasks two_made
          ≡ (err e, map (λ p. p) first))
        × (two_made (length first) ≡ err e)
        × (length first < 3)
        × MadeBy two_made first)
new-Made_example = new-Made counters two_made 2 least_tasks (inr refl)

-- ===== src/PoolCore.antt =====
-- The state that every pool flavour shares, `PoolCore` of src/pool_common.rs, and its accessors.
-- A worker (`Arc<GoWorker<T>>`, src/worker.rs) is a number. What is reached through it, or through
-- a cloned `Context`, stands in the state once: `last_used`, the messages sent, the contexts.
pub mod Workers
pub mod Lifecycle
pub mod Background
pub mod Closed
pub mod Create
pub mod Effects
pub mod Created
pub mod Counted
pub mod Places
pub mod Blocked
pub mod Latch
pub mod Emptied
pub mod System
pub mod Shutdown
use mathlib.Core.Option
use ants.Base.{
  ℕ, zero, suc, ◌+◌, ◌-◌, ◌*◌, ◌/◌, ◌%◌, ◌^◌, ◌≤◌, ◌<◌, min, ◌≡◌, refl, sym, ap, ap₂, ◌∙◌, subst,
  ◌≢◌, ◌↔◌, ◌⊎◌, inl, inr, Bool, true, false, not, ◌&&◌, ◌||◌, Option, none, some, List, [], ◌∷◌,
  ◌++◌, map, arith, dec_lt, ℕ_discrete, ltb, leb, ◌==◌, if◌then◌else◌, ltb→lt, lt→ltb, leb→le,
  ==_iff, tests, Bool-cases, Option-cases, length, get_elem?, set, get_or, take, drop, replicate,
  length-append, length-set, get_elem?-set_self, get_elem?-set_ne, take-append-drop, length-take,
  length-drop, length-replicate, length-map, get_or-set_self, get_or-set_ne, get_elem?-eq-get_or,
  get_or-replicate, get_elem?-none, get_elem?-append_lt, get_elem?-append_self, get_elem?-drop,
  get_elem?-take,
}
use ants.Base.Int.{
  ℤ, pos, negsuc, pos_part, neg_part, ◌+ℤ◌, ◌-ℤ◌, ◌≤ℤ◌, ◌<ℤ◌, leb_ℤ, ltb_ℤ, eqb_ℤ, +ℤ_parts,
  -ℤ_parts, eq_of_parts, int_laws, eqb_ℤ→eq, leb_ℤ→≤ℤ, ltb_ℤ→<ℤ, ltb_ℤ-false,
}
use ants.Base.Word.{
  i32_half, i64_half, u32_mod, rem_i32, wrap_i32, wrap_i64, add_i32, sub_i32, sub_i64, usize_as_i32,
  i32_as_usize, shr_one, IsI32, wrap_i32-eq, usize_as_i32-eq, add_i32-pos, add_i32-one,
  add_i32-over, sub_i32-pos,
}
use ants.Cond.{Waiters, signal, broadcast}
use ants.Context.{Event, Context, cancel, with_cancel}
use ants.Options.{Options}
use ants.WorkerStack.{pop_last}

-- `enum Message<T>`.
pub data Message (T : Type 0) : Type 0 where
  payload : T → Message T
  finish : Message T

abbrev pub opened : ℤ
opened = pos 0

abbrev pub closed : ℤ
closed = pos 1

pub record PoolCore (Q H L T : Type 0) : Type 0 where
  pub capacity : ℤ
  pub running : ℤ
  pub workers : Q
  pub state : ℤ
  pub cond : Waiters
  pub all_done : Event
  pub worker_cache : List ℕ
  pub waiting : ℤ
  pub purge_done : ℤ
  pub purge_ctx : Option ℕ
  pub stop_purge : Option ℕ
  pub ticktock_done : ℤ
  pub ticktock_ctx : Option ℕ
  pub stop_ticktock : Option ℕ
  pub now : ℤ
  pub options : Options H L
  -- The contexts made so far, by number; a `CancelFunc` is the number of its context.
  pub contexts : List Context
  -- How many workers have been made, and when each was last used.
  pub made : ℕ
  pub last_used : ℕ → ℤ
  -- The messages sent to workers, the newest first.
  pub sent : List (ℕ × Message T)

-- `if let Some(stop) = stop_purge.take() { stop.cancel() }`, of the cancel function's number.
cancel_at : List Context → ℕ → List Context
cancel_at [] i = []
cancel_at (c ∷ cs) zero = cancel c ∷ cs
cancel_at (c ∷ cs) (suc i) = c ∷ cancel_at cs i

unfoldable pub cancel_taken : Option ℕ → List Context → List Context
unfolding cancel_at
cancel_taken stop cs = elim stop [ none ↦ cs | some i ↦ cancel_at cs i ]

module _ {Q H L T : Type 0} where
  abbrev pub is_closed : PoolCore Q H L T → Bool
  is_closed p = eqb_ℤ p.state closed

  abbrev pub cap : PoolCore Q H L T → ℤ
  cap p = p.capacity

  unfoldable pub free : PoolCore Q H L T → ℤ
  free p = if ltb_ℤ p.capacity (pos 0) then negsuc 0 else sub_i32 p.capacity p.running

  -- `add_running`: the new count, and the state.
  unfoldable pub add_running : ℤ → PoolCore Q H L T → ℤ × PoolCore Q H L T
  add_running delta p = let count = add_i32 p.running delta in (count, record p { running = count })

  unfoldable pub add_waiting : ℤ → PoolCore Q H L T → PoolCore Q H L T
  add_waiting delta p = record p { waiting = add_i32 p.waiting delta }

  unfoldable pub recycle : ℕ → PoolCore Q H L T → PoolCore Q H L T
  recycle w p = record p { worker_cache = p.worker_cache ++ (w ∷ []) }

  -- `GoWorker::new` makes a worker that has never been used.
  unfoldable pub fetch_cached_worker : PoolCore Q H L T → ℕ × PoolCore Q H L T
  fetch_cached_worker p = elim (pop_last p.worker_cache).0 [
    | some w ↦ (w, record p { worker_cache = (pop_last p.worker_cache).1 })
    | none ↦ (
      p.made,
      record p { made = suc p.made; last_used = λ v. if v == p.made then pos 0 else p.last_used v },
    )
  ]

  unfoldable pub set_last_used_time : ℕ → ℤ → PoolCore Q H L T → PoolCore Q H L T
  set_last_used_time w t p = record p { last_used = λ v. if v == w then t else p.last_used v }

  -- `worker.finish()` and `worker.input(payload)`.
  unfoldable pub send : ℕ → Message T → PoolCore Q H L T → PoolCore Q H L T
  send w m p = record p { sent = (w, m) ∷ p.sent }

  unfoldable pub send_finish : List ℕ → PoolCore Q H L T → PoolCore Q H L T
  send_finish [] p = p
  send_finish (w ∷ ws) p = send_finish ws (send w finish p)

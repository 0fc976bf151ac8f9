-- ===== src/WorkerQueue.antt =====
-- The trait `WorkerQueue` of src/worker_queue.rs as an interface of operations and laws, and the
-- queue that `new_worker_queue` builds behind it.
-- The laws speak of the list of idle workers that a queue holds, and leave open in which order
-- `detach` takes them.
pub mod Small
pub mod Laws
use ants.Base.{
  ℕ, zero, suc, ◌+◌, ◌-◌, ◌*◌, ◌/◌, ◌%◌, ◌^◌, ◌≤◌, ◌<◌, min, ◌≡◌, refl, sym, ap, ap₂, ◌∙◌, subst,
  ◌≢◌, ◌↔◌, ◌⊎◌, inl, inr, Bool, true, false, not, ◌&&◌, ◌||◌, Option, none, some, List, [], ◌∷◌,
  ◌++◌, map, arith, dec_lt, ℕ_discrete, ltb, leb, ◌==◌, if◌then◌else◌, ltb→lt, lt→ltb, leb→le,
  ==_iff, tests, Bool-cases, Option-cases, length, get_elem?, set, get_or, take, drop, replicate,
  length-append, length-Perm, length-set, get_elem?-set_self, get_elem?-set_ne, take-append-drop,
  length-take, length-drop, length-replicate, length-map, get_or-set_self, get_or-set_ne,
  get_elem?-eq-get_or, get_or-replicate, get_elem?-none, get_elem?-append_lt, get_elem?-append_self,
  get_elem?-drop, get_elem?-take,
}
use ants.Base.Int.{
  ℤ, pos, negsuc, pos_part, neg_part, ◌+ℤ◌, ◌-ℤ◌, ◌≤ℤ◌, ◌<ℤ◌, leb_ℤ, ltb_ℤ, eqb_ℤ, +ℤ_parts,
  -ℤ_parts, eq_of_parts, int_laws, eqb_ℤ→eq, leb_ℤ→≤ℤ, ltb_ℤ→<ℤ, ltb_ℤ-false,
}
use ants.Base.Word.{
  i32_half, i64_half, u32_mod, rem_i32, wrap_i32, wrap_i64, add_i32, sub_i32, sub_i64, usize_as_i32,
  i32_as_usize, shr_one, IsI32, wrap_i32-eq, usize_as_i32-eq, add_i32-pos, add_i32-one,
  add_i32-pred, add_i32-over, sub_i32-pos,
}
use mathlib.Core.Option
use mathlib.Core.List.{Perm}
use ants.Duration.{Duration}
use ants.Error.{Error, Result, ok, err}
use ants.WorkerStack
use ants.WorkerStack.{WorkerStack}
use ants.LoopQueue
use ants.LoopQueue.{LoopQueue}

-- `Box<dyn WorkerQueue<W>>`.
pub data BoxedQueue {ℓ} (W : Type ℓ) : Type ℓ where
  stack : WorkerStack W → BoxedQueue W
  loop_queue : LoopQueue W → BoxedQueue W

-- `struct QueueType(i32)`.
pub record QueueType : Type 0 where
  pub code : ℤ

abbrev pub stack_type : QueueType
stack_type = record { code = pos 1 }

abbrev pub loop_queue_type : QueueType
loop_queue_type = record { code = pos 2 }

module _ {ℓ} {W : Type ℓ} where
  -- `none` is the panic of the `expect`.
  unfoldable pub new_worker_queue : QueueType → ℤ → Option (BoxedQueue W)
  new_worker_queue queue_type size =
      if eqb_ℤ queue_type.code loop_queue_type.code
      then elim (LoopQueue.new {W = W} size) [ none ↦ none | some q ↦ some (loop_queue q) ]
      else some (stack WorkerStack.new)

  pub len : BoxedQueue W → ℕ
  len (stack s) = WorkerStack.len s
  len (loop_queue q) = LoopQueue.len q

  pub is_empty : BoxedQueue W → Bool
  is_empty (stack s) = WorkerStack.is_empty s
  is_empty (loop_queue q) = LoopQueue.is_empty q

  unfoldable pub insert : BoxedQueue W → W → Result (Unit {0}) × BoxedQueue W
  insert (stack s) w = let (r, s') = WorkerStack.insert s w in (r, stack s')
  insert (loop_queue q) w = let (r, q') = LoopQueue.insert q w in (r, loop_queue q')

  unfoldable pub detach : BoxedQueue W → Option W × BoxedQueue W
  detach (stack s) = let (w, s') = WorkerStack.detach s in (w, stack s')
  detach (loop_queue q) = let (w, q') = LoopQueue.detach q in (w, loop_queue q')

  unfoldable pub reset : BoxedQueue W → List W × BoxedQueue W
  reset (stack s) = let (ws, s') = WorkerStack.reset s in (ws, stack s')
  reset (loop_queue q) = let (ws, q') = LoopQueue.reset q in (ws, loop_queue q')

  pub refresh : (W → ℤ) → ℤ → BoxedQueue W → Duration → Option (List W × BoxedQueue W)
  refresh last_used now (stack s) d = elim (WorkerStack.refresh last_used now s d) [
    | none ↦ none
    | some r ↦ some (r.0, stack r.1)
  ]
  refresh last_used now (loop_queue q) d = elim (LoopQueue.refresh last_used now q d) [
    | none ↦ none
    | some r ↦ some (r.0, loop_queue r.1)
  ]

-- The operations, as the pool calls them, and what they promise. `Fits` is the queue's own bound
-- on its size under which `refresh` is known to return.
pub record WorkerQueue {ℓ} (W : Type ℓ) : Type (ℓ + 1) where
  pub Queue : Type ℓ
  pub q_len : Queue → ℕ
  pub q_insert : Queue → W → Result (Unit {0}) × Queue
  pub q_detach : Queue → Option W × Queue
  pub q_refresh : (W → ℤ) → ℤ → Queue → Duration → Option (List W × Queue)
  pub q_reset : Queue → List W × Queue
  pub Idle : Queue → List W → Type ℓ
  pub len_law : (q : Queue) (ws : List W) → Idle q ws → q_len q ≡ length ws
  pub insert_ok :
      (q : Queue) (ws : List W) (w : W)
      → Idle q ws
      → (q_insert q w).0 ≡ ok tt
      → Idle (q_insert q w).1 (ws ++ (w ∷ []))
  pub insert_err :
      (q : Queue) (ws : List W) (w : W) (e : Error)
      → Idle q ws
      → (q_insert q w).0 ≡ err e
      → (q_insert q w).1 ≡ q
  pub detach_none :
      (q : Queue) (ws : List W)
      → Idle q ws
      → (q_detach q).0 ≡ none
      → (ws ≡ []) × ((q_detach q).1 ≡ q)
  pub detach_some :
      (q : Queue) (ws : List W) (w : W)
      → Idle q ws
      → (q_detach q).0 ≡ some w
      → (before : List W) × (after : List W) × (ws ≡ before ++ (w ∷ after))
        × Idle (q_detach q).1 (before ++ after)
  pub reset_law :
      (q : Queue) (ws : List W) → Idle q ws → ((q_reset q).0 ≡ ws) × Idle (q_reset q).1 []
  pub Fits : Queue → Type 0
  pub refresh_law :
      (last_used : W → ℤ) (now : ℤ) (q : Queue) (ws : List W) (d : Duration)
      → Idle q ws
      → Fits q
      → (gone left : List W) × (q' : Queue) × (q_refresh last_used now q d ≡ some (gone, q'))
        × Idle q' left
        × Perm (gone ++ left) ws
  -- What `Fits` asks of the queue itself, once and for all.
  pub Small : Queue → Type 0
  pub small_fits : (q : Queue) (ws : List W) → Idle q ws → Small q → length ws < i32_half → Fits q
  pub small_insert : (q : Queue) (w : W) → Small q → Small (q_insert q w).1
  pub small_detach : (q : Queue) → Small q → Small (q_detach q).1
  pub small_reset : (q : Queue) → Small q → Small (q_reset q).1
  pub small_refresh :
      (last_used : W → ℤ) (now : ℤ) (q : Queue) (d : Duration) (r : List W × Queue)
      → Small q
      → q_refresh last_used now q d ≡ some r
      → Small r.1

-- ===== src/LoopQueue.antt =====
-- The pre-allocated worker queue, a ring buffer: src/worker_loop_queue.rs.
-- A slot is an `Option W`. A result `none` is a panic: an index out of bounds, or the remainder by
-- zero of an empty ring.
pub mod Holds
pub mod Advance
pub mod Size
pub mod Slots
pub mod Expire
pub mod Position
pub mod Refresh
pub mod Runs
use ants.Base.{
  ℕ, zero, suc, ◌+◌, ◌-◌, ◌%◌, Bool, true, false, not, ◌&&◌, ◌||◌, Option, none, some, List, [],
  ◌∷◌, ◌++◌, ltb, leb, ◌==◌, if◌then◌else◌, length, get_elem?, set, get_or, replicate,
}
use ants.Base.Int.{ℤ, pos, negsuc, leb_ℤ, ltb_ℤ, eqb_ℤ}
use ants.Base.Word.{rem_i32, add_i32, sub_i64, usize_as_i32, i32_as_usize}
use ants.Search.{search_loop}
use ants.Duration.{Duration, as_nanos}
use ants.Error.{Result, ok, err, queue_is_full}

pub record LoopQueue {ℓ} (W : Type ℓ) : Type ℓ where
  pub items : List (Option W)
  pub head : ℕ
  pub tail : ℕ
  pub size : ℕ
  pub is_full : Bool

module _ {ℓ} {W : Type ℓ} where
  pub new : ℤ → Option (LoopQueue W)
  new size =
      if leb_ℤ size (pos 0)
      then none
      else some (record {
        items = replicate (i32_as_usize size) none;
        head = 0;
        tail = 0;
        size = i32_as_usize size;
        is_full = false;
      })

  pub is_empty : LoopQueue W → Bool
  is_empty q = q.head == q.tail && not q.is_full

  pub len : LoopQueue W → ℕ
  unfolding is_empty
  len q =
      if q.size == 0 || is_empty q
      then 0
      else if q.head == q.tail && q.is_full
      then q.size
      else if ltb q.head q.tail
      then q.tail - q.head
      else q.size - q.head + q.tail

  -- A write past the ring's end would panic; `IsValid` keeps `tail` inside.
  pub insert : LoopQueue W → W → Result (Unit {0}) × LoopQueue W
  insert q worker =
      if q.is_full
      then (err queue_is_full, q)
      else let tail = (q.tail + 1) % q.size in
        (
          ok tt,
          record q {
            items = set q.items q.tail (some worker);
            tail = tail;
            is_full = (tail == q.head) || q.is_full;
          },
        )

  -- `self.items[index]`, for an index that `IsValid` keeps inside.
  abbrev pub slot : List (Option W) → ℕ → Option W
  slot items i = get_or items i none

  pub detach : LoopQueue W → Option W × LoopQueue W
  unfolding is_empty
  detach q = if is_empty q then (none, q) else (
    slot q.items q.head,
    record q { items = set q.items q.head none; head = (q.head + 1) % q.size; is_full = false },
  )

  -- `while let Some(worker) = self.detach() { worker.finish() }`, with the workers told to finish.
  pub drain : ℕ → LoopQueue W → List W × LoopQueue W
  drain zero q = ([], q)
  drain (suc fuel) q = elim (detach q).0 [
    | none ↦ ([], (detach q).1)
    | some w ↦ let (ws, q') = drain fuel (detach q).1 in (w ∷ ws, q')
  ]

  -- A ring holds at most as many workers as it has slots.
  pub reset : LoopQueue W → List W × LoopQueue W
  unfolding is_empty drain
  reset q =
      if is_empty q
      then ([], q)
      else let (ws, q') = drain (suc (length q.items)) q in (ws, record q' { head = 0; tail = 0 })

  -- `expiry.extend(slot.take())` over `n` slots from `a` on.
  pub take_slots : List (Option W) → ℕ → ℕ → List W × List (Option W)
  take_slots items a zero = ([], items)
  take_slots items a (suc n) =
      let (ws, items') = take_slots (set items a none) (a + 1) n in
      (elim (slot items a) [ none ↦ ws | some w ↦ w ∷ ws ], items')

  -- What `refresh` does with the index of the last expired worker.
  pub expire_to : LoopQueue W → ℕ → List W × LoopQueue W
  expire_to q index =
      let n = length q.items in
      let (expiry, items) : List W × List (Option W) =
        if leb q.head index
        then take_slots q.items q.head (index + 1 - q.head)
        else let (first, items) = take_slots q.items 0 (index + 1) in
          let (second, items') = take_slots items q.head (n - q.head) in
          (first ++ second, items') in
      (expiry, record q { items = items })

pub is_nil {ℓ} : {A : Type ℓ} → List A → Bool
is_nil [] = true
is_nil (x ∷ xs) = false

module _ {ℓ} {W : Type ℓ} (last_used : W → ℤ) where
  pub last_used_at : LoopQueue W → ℕ → Option ℤ
  last_used_at q index = elim (get_elem? q.items index) [
    | none ↦ none
    | some s ↦ elim s [ none ↦ some (pos 0) | some w ↦ some (last_used w) ]
  ]

  -- `expiry_time < self.last_used(index)`.
  pub is_later : LoopQueue W → ℤ → ℕ → Option Bool
  unfolding last_used_at
  is_later q expiry_time index = elim (last_used_at q index) [
    | none ↦ none
    | some t ↦ some (ltb_ℤ expiry_time t)
  ]

  -- The true position of the mapped position `r`: `(r + base as i32 + n as i32) % n as i32`.
  pub true_position : LoopQueue W → ℤ → ℤ
  true_position q r =
      let n = usize_as_i32 (length q.items) in
      rem_i32 (add_i32 (add_i32 r (usize_as_i32 q.head)) n) n

  -- One round more than the ring has slots.
  pub binary_search : LoopQueue W → ℤ → Option ℤ
  binary_search q expiry_time =
      if is_empty q then some (negsuc 0) else elim (is_later q expiry_time q.head) [
        | none ↦ none
        | some all_live ↦
            if all_live
            then some (negsuc 0)
            else let n = length q.items in
              let probe = λ (mid : ℤ). is_later q expiry_time ((i32_as_usize mid + q.head) % n) in
              elim (search_loop (suc n) probe (pos 0)
                (usize_as_i32 ((q.tail + n - 1 - q.head) % n))) [
                  | none ↦ none
                  | some r ↦ some (true_position q r)
                ]
      ]

  -- The end of `refresh`, from the index of the last expired worker.
  pub finish_refresh : LoopQueue W → ℤ → Option (List W × LoopQueue W)
  finish_refresh q index =
      if eqb_ℤ index (negsuc 0)
      then some ([], q)
      else let i = i32_as_usize index in
        let (expiry, q') = expire_to q i in
        if ltb i (length q.items)
        then some (
          expiry,
          record q' {
            head = (i + 1) % q.size;
            is_full = if is_nil expiry then q.is_full else false;
          },
        )
        else none

  pub refresh : ℤ → LoopQueue W → Duration → Option (List W × LoopQueue W)
  refresh now q duration = elim (binary_search q (sub_i64 now (as_nanos duration))) [
    | none ↦ none
    | some index ↦ finish_refresh q index
  ]

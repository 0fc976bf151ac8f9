-- ===== src/LoopQueue/Runs.antt =====
-- A ring as its users see it: a queue of bounded length, first in first out. Whatever is called, in
-- whatever order, the ring and the queue give the same answers.
use ants.Base.{
  ℕ, suc, ◌≡◌, refl, ap, ap₂, ◌∙◌, inl, inr, Option, none, some, List, [], ◌∷◌, ◌++◌, arith, ltb,
  if◌then◌else◌, length, true, false,
}
use ants.Base.Int.{pos}
use ants.Error.{Result, ok, err, queue_is_full}
use ants.LoopQueue
use ants.LoopQueue.{LoopQueue}
use ants.LoopQueue.Holds.{Holds, new-Holds, len-Holds, insert-cases}
use ants.LoopQueue.Advance.{detach-nil, detach-cons, reset-Holds}
use ants.LoopQueue.Size.{insert-size, detach-size, reset-size, new-size}

-- A call of an operation that does not look at the clock.
pub data Call (W : Type 0) : Type 0 where
  insert : W → Call W
  detach : Call W
  reset : Call W
  len : Call W

pub data Answer (W : Type 0) : Type 0 where
  inserted : Result (Unit {0}) → Answer W
  detached : Option W → Answer W
  finished : List W → Answer W
  counted : ℕ → Answer W

module _ {W : Type 0} where
  unfoldable pub perform : LoopQueue W → Call W → Answer W × LoopQueue W
  perform q (insert w) = (inserted (LoopQueue.insert q w).0, (LoopQueue.insert q w).1)
  perform q detach = (detached (LoopQueue.detach q).0, (LoopQueue.detach q).1)
  perform q reset = (finished (LoopQueue.reset q).0, (LoopQueue.reset q).1)
  perform q len = (counted (LoopQueue.len q), q)

  -- The same of a list of at most `size` elements.
  unfoldable pub perform_fifo : ℕ → List W → Call W → Answer W × List W
  perform_fifo size xs (insert w) =
      if ltb (length xs) size
      then (inserted (ok tt), xs ++ (w ∷ []))
      else (inserted (err queue_is_full), xs)
  perform_fifo size [] detach = (detached none, [])
  perform_fifo size (x ∷ xs) detach = (detached (some x), xs)
  perform_fifo size xs reset = (finished xs, [])
  perform_fifo size xs len = (counted (length xs), xs)

  unfoldable pub answers : LoopQueue W → List (Call W) → List (Answer W)
  answers q [] = []
  answers q (c ∷ calls) = (perform q c).0 ∷ answers (perform q c).1 calls

  unfoldable pub answers_fifo : ℕ → List W → List (Call W) → List (Answer W)
  answers_fifo size xs [] = []
  answers_fifo size xs (c ∷ calls) =
      (perform_fifo size xs c).0 ∷ answers_fifo size (perform_fifo size xs c).1 calls

  -- One call keeps the ring and the list in step.
  perform-Holds :
      (size : ℕ) (q : LoopQueue W) (xs : List W) (c : Call W)
      → Holds q xs
      → q.size ≡ size
      → ((perform q c).0 ≡ (perform_fifo size xs c).0)
        × Holds (perform q c).1 (perform_fifo size xs c).1
        × ((perform q c).1.size ≡ size)
  unfolding perform perform_fifo
  perform-Holds size q xs (insert w) v sized = elim (insert-cases xs w v) [
    | inl (full, eq) ↦
        let no_room : ltb (length xs) size ≡ false = ground (arith, full, sized) in
        rw (no_room, eq) (refl, v, sized)
    | inr (room, done, holds) ↦
        let some_room : ltb (length xs) size ≡ true = ground (arith, room, sized) in
        rw some_room (ap inserted done, holds, insert-size q w ∙ sized)
  ]
  perform-Holds size q [] detach v sized = rw (detach-nil v) (refl, v, sized)
  perform-Holds size q (x ∷ xs) detach v sized =
      let (first, holds) = detach-cons x xs v in (ap detached first, holds, detach-size q ∙ sized)
  perform-Holds size q xs reset v sized =
      let (all, holds) = reset-Holds xs v in (ap finished all, holds, reset-size q ∙ sized)
  perform-Holds size q xs len v sized = (ap counted (len-Holds xs v).0, v, sized)

  answers-fifo :
      (size : ℕ) (q : LoopQueue W) (xs : List W) (calls : List (Call W))
      → Holds q xs
      → q.size ≡ size
      → answers q calls ≡ answers_fifo size xs calls
  unfolding answers answers_fifo
  answers-fifo size q xs [] v sized = refl
  answers-fifo size q xs (c ∷ calls) v sized =
      let (same, holds, sized') = perform-Holds size q xs c v sized in
      ap₂ (λ a rest. a ∷ rest) same
        (answers-fifo size (perform q c).1 (perform_fifo size xs c).1 calls holds sized')

  -- For every positive size, `new` makes a ring whose answers to any calls of `insert`, `detach`,
  -- `reset` and `len`, in any order, are those of a first-in first-out queue of that size.
  pub new-fifo :
      (n : ℕ) (calls : List (Call W))
      → (q : LoopQueue W) × (LoopQueue.new (pos (suc n)) ≡ some q)
        × (answers q calls ≡ answers_fifo (suc n) [] calls)
  new-fifo n calls =
      let (q, made, holds) = new-Holds (suc n) (omega arith) in
      (q, made, answers-fifo (suc n) q [] calls holds (new-size n q made))

-- ===== src/Deques.antt =====
-- flute/common/BoundedBlockingDeque.h: a queue between threads. A method holds the lock from its first
-- test on, so that it is one step, or a wait for a condition that leaves the queue alone. The numbers
-- of the elements are without bound.
pub mod Order
mod Tests
use flute.Prelude.{
  ℕ, ◌+◌, Bool, true, false, not, ◌&&◌, Option, none, some, List, [], ◌∷◌, ◌++◌, length, leb, ltb,
  ◌==◌, if◌then◌else◌,
}

-- A call waits, fails an `assert`, or is done.
pub data Call {ℓ} (A : Type ℓ) : Type ℓ where
  waits aborts : Call A
  done : A → Call A

-- An element has a number and a value.
pub record BoundedBlockingDeque {ℓ} (A : Type ℓ) : Type ℓ where
  pub max_queue_size : ℕ
  pub id_counter : ℕ
  pub deque : List (ℕ × A)

module _ {ℓ} {A : Type ℓ} where
  abbrev pub new : ℕ → BoundedBlockingDeque A
  new max_deque_size = record { max_queue_size = max_deque_size; id_counter = 0; deque = [] }

  unfoldable pub push : Bool → A → BoundedBlockingDeque A → Call (BoundedBlockingDeque A)
  push push_back x q =
      let e : ℕ × A = (q.id_counter + 1, x) in
      if length q.deque == q.max_queue_size
      then waits
      else if ltb (length q.deque) q.max_queue_size
      then done (record q {
        id_counter = q.id_counter + 1;
        deque = if push_back then q.deque ++ (e ∷ []) else e ∷ q.deque;
      })
      else aborts

  abbrev take_from : BoundedBlockingDeque A → List (ℕ × A) → Call ((ℕ × A) × BoundedBlockingDeque A)
  take_from q [] = waits
  take_from q (front ∷ rest) = done (front, record q { deque = rest })

  unfoldable pub take_front : BoundedBlockingDeque A → Call ((ℕ × A) × BoundedBlockingDeque A)
  take_front q = take_from q q.deque

  abbrev pub is_full : BoundedBlockingDeque A → Bool
  is_full q = length q.deque == q.max_queue_size

  abbrev pub set_size : ℕ → BoundedBlockingDeque A → BoundedBlockingDeque A
  set_size size q = record q { max_queue_size = size }

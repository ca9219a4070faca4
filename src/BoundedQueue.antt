-- ===== src/BoundedQueue.antt =====
-- include/airuntime/bounded_queue.hpp: the bounded blocking queue.
-- Every method holds the mutex but for its waits. A wait is modelled by what the thread finds when
-- it wakes: a list of wake-ups, each with the queue as other threads left it (for a timed wait also
-- whether `wait_until` reported a timeout). `none` as a result: the call is still waiting.
pub mod Laws
pub mod Waits
mod Tests
use adaptive_ai_inference_ru.Prelude.{
  ℕ, Bool, true, false, not, ◌&&◌, ◌||◌, Option, none, some, List, [], ◌∷◌, ◌++◌, if◌then◌else◌,
  ltb, leb, ◌==◌, length,
}
use adaptive_ai_inference_ru.Status.{ErrorCode, Status, success, error}

pub record BoundedQueue {ℓ} (T : Type ℓ) : Type ℓ where
  pub capacity : ℕ
  pub queue : List T  -- front first
  pub closed : Bool

-- What a timed wait returns: whether it timed out, and the queue at that moment.
pub record WakeUp {ℓ} (T : Type ℓ) : Type ℓ where
  pub timeout : Bool
  pub state : BoundedQueue T

abbrev pub queue_closed_error : Status
queue_closed_error = error ErrorCode.queue_closed "queue is closed"

abbrev pub queue_full_error : Status
queue_full_error = error ErrorCode.queue_full "queue is full"

abbrev pub push_timeout_error : Status
push_timeout_error = error ErrorCode.timed_out "queue push deadline exceeded"

module _ {ℓ} {T : Type ℓ} where
  -- `none`: the constructor throws `std::invalid_argument`.
  unfoldable pub make : ℕ → Option (BoundedQueue T)
  make capacity =
      if capacity == 0
      then none
      else some (record { capacity = capacity; queue = []; closed = false })

  unfoldable pub size : BoundedQueue T → ℕ
  size q = length q.queue

  abbrev is_full : BoundedQueue T → Bool
  is_full q = leb q.capacity (length q.queue)

  abbrev push_back : T → BoundedQueue T → BoundedQueue T
  push_back value q = record q { queue = q.queue ++ (value ∷ []) }

  unfoldable pub try_push : T → BoundedQueue T → Status × BoundedQueue T
  try_push value q =
      if q.closed
      then (queue_closed_error, q)
      else if is_full q
      then (queue_full_error, q)
      else (success, push_back value q)

  -- What follows the wait of `wait_push`.
  abbrev push_unless_closed : T → BoundedQueue T → Status × BoundedQueue T
  push_unless_closed value q =
      if q.closed then (queue_closed_error, q) else (success, push_back value q)

  unfoldable pub wait_push :
      T → BoundedQueue T → List (BoundedQueue T) → Option (Status × BoundedQueue T)
  wait_push value q [] =
      if ltb (length q.queue) q.capacity || q.closed
      then some (push_unless_closed value q)
      else none
  wait_push value q (w ∷ ws) =
      let rest = wait_push value w ws in
      if ltb (length q.queue) q.capacity || q.closed
      then some (push_unless_closed value q)
      else rest

  -- What follows the wait of `wait_push_until`.
  abbrev push_if_room : T → BoundedQueue T → Status × BoundedQueue T
  push_if_room value q =
      if q.closed
      then (queue_closed_error, q)
      else if is_full q
      then (push_timeout_error, q)
      else (success, push_back value q)

  unfoldable pub wait_push_until :
      T → BoundedQueue T → List (WakeUp T) → Option (Status × BoundedQueue T)
  wait_push_until value q [] =
      if is_full q && not q.closed then none else some (push_if_room value q)
  wait_push_until value q (w ∷ ws) =
      let rest = wait_push_until value w.state ws in
      if is_full q && not q.closed
      then (if w.timeout then some (push_timeout_error, w.state) else rest)
      else some (push_if_room value q)

  abbrev pub is_empty : List T → Bool
  is_empty [] = true
  is_empty (x ∷ xs) = false

  -- What follows the waits of the two pops: the front, or nothing if the queue is empty.
  abbrev pub pop_front : List T → BoundedQueue T → Option T × BoundedQueue T
  pop_front [] q = (none, q)
  pop_front (x ∷ xs) q = (some x, record q { queue = xs })

  unfoldable pub wait_pop :
      BoundedQueue T → List (BoundedQueue T) → Option (Option T × BoundedQueue T)
  wait_pop q [] = if not (is_empty q.queue) || q.closed then some (pop_front q.queue q) else none
  wait_pop q (w ∷ ws) =
      let rest = wait_pop w ws in
      if not (is_empty q.queue) || q.closed then some (pop_front q.queue q) else rest

  unfoldable pub wait_pop_until :
      BoundedQueue T → List (WakeUp T) → Option (Option T × BoundedQueue T)
  wait_pop_until q [] =
      if is_empty q.queue && not q.closed then none else some (pop_front q.queue q)
  wait_pop_until q (w ∷ ws) =
      let rest = wait_pop_until w.state ws in
      if is_empty q.queue && not q.closed
      then (if w.timeout then some (pop_front w.state.queue w.state) else rest)
      else some (pop_front q.queue q)

  unfoldable pub close : BoundedQueue T → BoundedQueue T
  close q = record q { closed = true }

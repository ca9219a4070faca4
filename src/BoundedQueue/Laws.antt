-- ===== src/BoundedQueue/Laws.antt =====
-- The bounded queue as a first-in first-out list: nothing is lost, reordered or over capacity.
use mathlib.Core.List.{append_assoc, append-nil}
use adaptive_ai_inference_ru.Prelude.{
  ℕ, ◌≤◌, ◌≡◌, refl, true, Option, none, some, List, [], ◌∷◌, ◌++◌, arith, length, length-append,
  replicate, sym, if◌then◌else◌,
}
use adaptive_ai_inference_ru.Status.{Status, ok}
use adaptive_ai_inference_ru.BoundedQueue.{BoundedQueue, make, try_push, wait_pop, close}

-- What the threads do with a queue, in the order in which they hold the mutex. A pop that finds
-- nothing to take waits on, and is tried again as a later command.
pub data Op (T : Type 0) : Type 0 where
  push_op : T → Op T
  pop_op : Op T
  close_op : Op T

-- A queue with the values accepted and the values handed out so far, in order.
pub record History (T : Type 0) : Type 0 where
  pub now : BoundedQueue T
  pub accepted : List T
  pub popped : List T

module _ {T : Type 0} where
  abbrev record_push : T → History T → Status × BoundedQueue T → History T
  record_push v h (s, q) = record h {
    now = q;
    accepted = h.accepted ++ (if ok s then v ∷ [] else []);
  }

  abbrev record_pop : History T → Option (Option T × BoundedQueue T) → History T
  record_pop h none = h
  record_pop h (some (none, q)) = record h { now = q }
  record_pop h (some (some v, q)) = record h { now = q; popped = h.popped ++ (v ∷ []) }

  unfoldable pub step : History T → Op T → History T
  unfolding try_push wait_pop close
  step h (push_op v) = record_push v h (try_push v h.now)
  step h pop_op = record_pop h (wait_pop h.now [])
  step h close_op = record h { now = close h.now }

  unfoldable pub run : History T → List (Op T) → History T
  run h [] = h
  run h (o ∷ os) = run (step h o) os

  pub record IsFifo (h : History T) : Type 0 where
    pub in_order : h.accepted ≡ h.popped ++ h.now.queue
    pub bounded : length h.now.queue ≤ h.now.capacity

  step_pop :
      (h : History T) (x : T) (xs : List T)
      → h.now.queue ≡ x ∷ xs
      → step h pop_op
        ≡ record h { now = record (h.now) { queue = xs }; popped = h.popped ++ (x ∷ []) }
  unfolding step
  step_pop h x xs e = ground arith

  pop-IsFifo : (h : History T) (xs : List T) → IsFifo h → h.now.queue ≡ xs → IsFifo (step h pop_op)
  unfolding step
  pop-IsFifo h [] f e = ground arith
  pop-IsFifo h (x ∷ xs) f e = ground (arith, append_assoc h.popped (x ∷ []) xs)

  pop_closed :
      (h : History T) (xs : List T)
      → h.now.closed ≡ true
      → h.now.queue ≡ xs
      → ((step h pop_op).now.closed ≡ true) × ((step h pop_op).accepted ≡ h.accepted)
  unfolding step
  pop_closed h [] c e = ground arith
  pop_closed h (x ∷ xs) c e = ground arith

  step-IsFifo : (h : History T) (o : Op T) → IsFifo h → IsFifo (step h o)
  unfolding step
  step-IsFifo h (push_op v) f = ground (
    arith,
    append_assoc h.popped h.now.queue (v ∷ []),
    append-nil h.accepted,
    length-append h.now.queue (v ∷ []),
  )
  step-IsFifo h pop_op f = pop-IsFifo h h.now.queue f refl
  step-IsFifo h close_op f = record { in_order = f.in_order; bounded = f.bounded }

  run-IsFifo : (h : History T) (os : List (Op T)) → IsFifo h → IsFifo (run h os)
  unfolding run
  run-IsFifo h [] f = f
  run-IsFifo h (o ∷ os) f = run-IsFifo (step h o) os (step-IsFifo h o f)

  abbrev pub start : BoundedQueue T → History T
  start q = record { now = q; accepted = []; popped = [] }

  -- Of a queue that the constructor gives, and any pushes, pops and closings by any threads: the
  -- values accepted are those popped and then those still queued, all in the order of the pushes,
  -- and the queue never holds more than its capacity.
  pub run-make-IsFifo :
      (capacity : ℕ) (q : BoundedQueue T) (os : List (Op T))
      → make capacity ≡ some q
      → IsFifo (run (start q) os)
  unfolding make
  run-make-IsFifo capacity q os e = run-IsFifo (start q) os (ground arith)

  step_closed :
      (h : History T) (o : Op T)
      → h.now.closed ≡ true
      → ((step h o).now.closed ≡ true) × ((step h o).accepted ≡ h.accepted)
  unfolding step
  step_closed h (push_op v) c = ground (arith, append-nil h.accepted)
  step_closed h pop_op c = pop_closed h h.now.queue c refl
  step_closed h close_op c = (refl, refl)

  -- A closed queue stays closed and accepts nothing more.
  pub run_closed :
      (h : History T) (os : List (Op T))
      → h.now.closed ≡ true
      → ((run h os).now.closed ≡ true) × ((run h os).accepted ≡ h.accepted)
  unfolding run
  run_closed h [] c = (c, refl)
  run_closed h (o ∷ os) c = ground (arith, step_closed h o c, run_closed (step h o) os)

  -- As many pops as there are values hand out all of them in order, closed or not.
  pub run_drain :
      (h : History T) (xs : List T)
      → h.now.queue ≡ xs
      → ((run h (replicate (length xs) pop_op)).popped ≡ h.popped ++ xs)
        × ((run h (replicate (length xs) pop_op)).now.queue ≡ [])
  unfolding run
  run_drain h [] e = (sym (append-nil h.popped), e)
  run_drain h (x ∷ xs) e =
      ground
        (arith, step_pop h x xs e, run_drain (step h pop_op) xs, append_assoc h.popped (x ∷ []) xs)

-- ===== src/BoundedQueue/Tests.antt =====
-- Small queues, and the queue's theorems at concrete inputs.
use adaptive_ai_inference_ru.Prelude.{
  ℕ, ◌≡◌, refl, ◌⊎◌, true, false, not, ◌&&◌, some, List, [], ◌∷◌, ◌++◌, leb, length, replicate,
}
use adaptive_ai_inference_ru.Status.{Status, success}
use adaptive_ai_inference_ru.BoundedQueue.{
  BoundedQueue, WakeUp, make, try_push, wait_push, wait_push_until, wait_pop, push_timeout_error,
  queue_full_error,
}
use adaptive_ai_inference_ru.BoundedQueue.Laws.{
  Op, push_op, pop_op, close_op, start, run, IsFifo, run-make-IsFifo, run_closed, run_drain,
}
use adaptive_ai_inference_ru.BoundedQueue.Waits.{
  Seen, Popped, Reaches, GivesUp, wait_push_until-try_push, wait_pop_lem,
}

abbrev two : BoundedQueue ℕ
two = record { capacity = 2; queue = 1 ∷ 2 ∷ []; closed = false }

abbrev one : BoundedQueue ℕ
one = record { capacity = 2; queue = 2 ∷ []; closed = false }

abbrev empty : BoundedQueue ℕ
empty = record { capacity = 2; queue = []; closed = false }

full_refuses : try_push 3 two ≡ (queue_full_error, two)
unfolding try_push
full_refuses = refl

waits_for_room :
    wait_push 3 two (two ∷ one ∷ []) ≡ some (success, record one { queue = 2 ∷ 3 ∷ [] })
unfolding wait_push
waits_for_room = refl

gives_up :
    wait_push_until 3 two (record { timeout = true; state = one } ∷ [])
    ≡ some (push_timeout_error, one)
unfolding wait_push_until
gives_up = refl

abbrev commands : List (Op ℕ)
commands = push_op 1 ∷ push_op 2 ∷ push_op 3 ∷ pop_op ∷ close_op ∷ push_op 4 ∷ pop_op ∷ pop_op ∷ []

run-make-IsFifo_example : IsFifo (run (start empty) commands)
unfolding make
run-make-IsFifo_example = run-make-IsFifo 2 empty commands refl

run_closed_example :
    ((run (start (record two { closed = true })) commands).now.closed ≡ true)
    × ((run (start (record two { closed = true })) commands).accepted ≡ [])
run_closed_example = run_closed (start (record two { closed = true })) commands refl

run_drain_example :
    ((run (start two) (replicate 2 pop_op)).popped ≡ [] ++ (1 ∷ 2 ∷ []))
    × ((run (start two) (replicate 2 pop_op)).now.queue ≡ [])
run_drain_example = run_drain (start two) (1 ∷ 2 ∷ []) refl

wait_push_until-try_push_example :
    let wakes : List (WakeUp ℕ) = record { timeout = true; state = one } ∷ [] in
    (p : BoundedQueue ℕ) × ((Reaches two wakes p
        × (◌≡◌ {A = Status × BoundedQueue ℕ} (push_timeout_error, one) (try_push 3 p))
        × ((leb p.capacity (length p.queue) && not p.closed) ≡ false))
      ⊎ (GivesUp two wakes p
          × (◌≡◌ {A = Status × BoundedQueue ℕ} (push_timeout_error, one) (push_timeout_error, p))))
wait_push_until-try_push_example =
    wait_push_until-try_push 3 two (record { timeout = true; state = one } ∷ []) gives_up

wait_pop_lem_example : (p : BoundedQueue ℕ) × Seen p empty (one ∷ []) × Popped p (some 2, empty)
unfolding wait_pop
wait_pop_lem_example = wait_pop_lem empty (one ∷ []) refl

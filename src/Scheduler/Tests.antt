-- ===== src/Scheduler/Tests.antt =====
-- The first-in first-out scheduler on a small queue: a null pointer, a cancelled request, an expired
-- one and a live one.
use adaptive_ai_inference_ru.Prelude.{ℕ, zero, suc, ◌≡◌, refl, false, none, some, [], ◌∷◌}
use adaptive_ai_inference_ru.Prelude.Bytes.{bytes}
use adaptive_ai_inference_ru.Request.{
  cancelled, queued, timed_out, InferenceRequest, new, is_terminal, is_expired, is_valid_transition,
  try_timeout_if_expired,
}
use adaptive_ai_inference_ru.Store.{Ref, Store, apply, is_dead_request}
use adaptive_ai_inference_ru.Scheduler.{item, waiting, FifoScheduler, next_from, fifo_next}
use adaptive_ai_inference_ru.Scheduler.Fifo.{Nexts, fifo_next-Nexts}

abbrev request_at : Ref → InferenceRequest
unfolding new
request_at (suc zero) = record (new (bytes "r1") (bytes "m") (bytes "hi") 16) { state = cancelled }
request_at (suc (suc zero)) = record (new (bytes "r2") (bytes "m") (bytes "hi") 16) {
  state = queued;
  deadline = some 5;
}
request_at r = record (new (bytes "r3") (bytes "m") (bytes "hi") 16) {
  state = queued;
  deadline = some 9;
}

abbrev requests : Store
requests = record { requests = request_at; calls = [] }

abbrev four : FifoScheduler
four = record { capacity = 4; queue = none ∷ some 1 ∷ some 2 ∷ some 3 ∷ []; closed = false }

abbrev at_six : ℕ → ℕ
at_six i = 6

hands_out_the_live_one : (fifo_next at_six requests four).0 ≡ item (some 3)
unfolding fifo_next next_from is_dead_request apply is_terminal is_expired is_valid_transition
    try_timeout_if_expired request_at
hands_out_the_live_one = refl

times_the_expired_one_out : ((fifo_next at_six requests four).1.requests 2).state ≡ timed_out
unfolding fifo_next next_from is_dead_request apply is_terminal is_expired is_valid_transition
    try_timeout_if_expired request_at
times_the_expired_one_out = refl

waits_with_none_left : (fifo_next (λ i. 20) requests four).0 ≡ waiting
unfolding fifo_next next_from is_dead_request apply is_terminal is_expired is_valid_transition
    try_timeout_if_expired request_at
waits_with_none_left = refl

fifo_next-Nexts_example : Nexts at_six four.queue requests four (fifo_next at_six requests four)
fifo_next-Nexts_example = fifo_next-Nexts at_six requests four

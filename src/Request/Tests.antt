-- ===== src/Request/Tests.antt =====
-- Runs of the request model, and the theorems at concrete inputs.
use adaptive_ai_inference_ru.Prelude.{◌+◌, ◌≤◌, ◌≡◌, refl, ◌⊎◌, true, some, List, [], ◌∷◌, ◌↔◌}
use adaptive_ai_inference_ru.Prelude.Bytes.{bytes}
use adaptive_ai_inference_ru.Status.{InferenceResult, success_result}
use adaptive_ai_inference_ru.Request.{
  received, queued, running, completed, timed_out, InferenceRequest, new, is_terminal_state,
  is_valid_transition, invoke_observers,
}
use adaptive_ai_inference_ru.Request.Ops.{
  Op, step, run, set_deadline_op, add_observer_op, transition_op, complete_op, cancel_op,
  timeout_op, timeout_if_expired_op,
}
use adaptive_ai_inference_ru.Request.Lifecycle.{◌⟶◌, valid_iff, step-⟶, changes, changes-le}
use adaptive_ai_inference_ru.Request.Terminal.{run_terminal, Fits, run-new-Fits}
use adaptive_ai_inference_ru.Request.Observers.{terminal_calls, adds, count, observers_told}

abbrev fresh : InferenceRequest
unfolding new
fresh = new (bytes "r1") (bytes "m") (bytes "hi") 16

abbrev answer : InferenceResult
answer = success_result (record { text = bytes "ok"; output_tokens = 1 })

-- Two observers, a finished inference, a late cancellation and a late observer.
abbrev history : List Op
history =
    add_observer_op (some 4)
    ∷ transition_op queued
    ∷ add_observer_op (some 5)
    ∷ transition_op running
    ∷ complete_op answer
    ∷ cancel_op
    ∷ add_observer_op (some 4)
    ∷ []

history_completes : (run fresh history).0.state ≡ completed
unfolding run step new is_valid_transition
history_completes = refl

history_tells : terminal_calls 4 (run fresh history).1 ≡ 2
unfolding run step new is_valid_transition invoke_observers
history_tells = refl

expired_while_queued :
    (run fresh
      (set_deadline_op (some 10) ∷ transition_op queued ∷ timeout_if_expired_op 10 ∷ [])).0.state
    ≡ timed_out
unfolding run step new is_valid_transition
expired_while_queued = refl

valid_iff_example : (is_valid_transition queued running ≡ true) ↔ (queued ⟶ running)
valid_iff_example = valid_iff queued running

step-⟶_example :
    ((step fresh cancel_op).request.state ≡ received)
    ⊎ (received ⟶ (step fresh cancel_op).request.state)
unfolding new
step-⟶_example = step-⟶ fresh cancel_op

changes-le_example : changes fresh history ≤ 3
changes-le_example = changes-le fresh history

run_terminal_example :
    ((run (run fresh history).0 (cancel_op ∷ timeout_op ∷ [])).0.state
      ≡ (run fresh history).0.state)
    × ((run (run fresh history).0 (cancel_op ∷ timeout_op ∷ [])).0.result
        ≡ (run fresh history).0.result)
unfolding run step new is_valid_transition
run_terminal_example = run_terminal (run fresh history).0 (cancel_op ∷ timeout_op ∷ []) refl

run-new-Fits_example :
    let r = (run (new (bytes "r1") (bytes "m") (bytes "hi") 16) history).0 in Fits r.state r.result
run-new-Fits_example =
    run-new-Fits (bytes "r1") (bytes "m") (bytes "hi") 16 history
      (tt, (refl, (tt, (refl, (tt, (tt, (tt, tt)))))))

observers_told_example :
    let (r, calls) = run (new (bytes "r1") (bytes "m") (bytes "hi") 16) history in
    (is_terminal_state r.state ≡ true → terminal_calls 4 calls ≡ adds 4 history)
    × (terminal_calls 4 calls + count 4 r.observers ≡ adds 4 history)
observers_told_example = observers_told 4 (bytes "r1") (bytes "m") (bytes "hi") 16 history

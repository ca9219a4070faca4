-- ===== src/Request/Terminal.antt =====
-- The first terminal transition wins, and every terminal request carries the result that fits it.
use adaptive_ai_inference_ru.Prelude.{
  ℕ, ◌≡◌, refl, ◌↔◌, true, false, not, Option, none, some, List, [], ◌∷◌, arith,
}
use adaptive_ai_inference_ru.Prelude.Bytes.{Bytes}
use adaptive_ai_inference_ru.Status.{ErrorCode, Status, InferenceResult, error, failure_result}
use adaptive_ai_inference_ru.Request.{
  RequestState, completed, rejected, failed, cancelled, timed_out, InferenceRequest, new,
  is_terminal_state, try_cancel, try_timeout_if_expired, is_terminal, is_expired,
  is_valid_transition,
}
use adaptive_ai_inference_ru.Request.Ops.{Op, step, run, transition_op}

terminal_refuses :
    (s t : RequestState) → is_terminal_state s ≡ true → is_valid_transition s t ≡ false
unfolding is_valid_transition
terminal_refuses s t h = ground arith

step_terminal :
    (r : InferenceRequest) (o : Op)
    → is_terminal_state r.state ≡ true
    → ((step r o).request.state ≡ r.state)
      × ((step r o).request.result ≡ r.result)
      × ((step r o).woken ≡ false)
unfolding step
step_terminal r (Op.set_deadline_op d) h = (refl, refl, refl)
step_terminal r (Op.add_observer_op none) h = (refl, refl, refl)
step_terminal r (Op.add_observer_op (some o)) h = ground arith
step_terminal r (Op.transition_op s) h = ground (arith, terminal_refuses r.state s)
step_terminal r o h = ground (
  arith,
  terminal_refuses r.state completed,
  terminal_refuses r.state failed,
  terminal_refuses r.state rejected,
  terminal_refuses r.state cancelled,
  terminal_refuses r.state timed_out,
)

-- After a terminal transition no list of commands changes the state or the result.
pub run_terminal :
    (r : InferenceRequest) (os : List Op)
    → is_terminal_state r.state ≡ true
    → ((run r os).0.state ≡ r.state) × ((run r os).0.result ≡ r.result)
unfolding run
run_terminal r [] h = (refl, refl)
run_terminal r (o ∷ os) h = ground (arith, step_terminal r o, run_terminal (step r o).request os)

-- A cancellation succeeds exactly on a live request, and leaves it cancelled.
pub try_cancel_lem :
    (r : InferenceRequest)
    → ((try_cancel r).value ≡ not (is_terminal r))
      × ((try_cancel r).woken ≡ not (is_terminal r))
      × (is_terminal r ≡ false → (try_cancel r).request.state ≡ cancelled)
      × (is_terminal r ≡ true → (try_cancel r).request ≡ r)
unfolding try_cancel is_terminal is_valid_transition
try_cancel_lem r = ground arith

-- A request is timed out exactly if it is live and its deadline has come.
try_timeout_if_expired_iff :
    (now : ℕ) (r : InferenceRequest)
    → ((try_timeout_if_expired now r).value ≡ true)
      ↔ ((is_terminal r ≡ false) × (is_expired now r ≡ true))
unfolding try_timeout_if_expired is_terminal is_expired is_valid_transition
try_timeout_if_expired_iff now r = (λ h. ground arith, λ h. ground arith)

-- What the result is in each state.
abbrev pub Fits : RequestState → Option InferenceResult → Type 0
Fits completed res = (v : InferenceResult) × (res ≡ some v)
Fits failed res = (e : Status) × (res ≡ some (failure_result e))
Fits rejected res = (e : Status) × (res ≡ some (failure_result e))
Fits cancelled res = res ≡ some (failure_result (error ErrorCode.cancelled "request cancelled"))
Fits timed_out res = res ≡ some (failure_result (error ErrorCode.timed_out "request timed out"))
Fits _ res = res ≡ none

-- The runtime moves a request by `transition_to` to Queued and Running only.
abbrev pub IsRuntimeOp : Op → Type 0
IsRuntimeOp (transition_op s) = is_terminal_state s ≡ false
IsRuntimeOp _ = Unit

abbrev pub AllRuntimeOps : List Op → Type 0
AllRuntimeOps [] = Unit
AllRuntimeOps (o ∷ os) = IsRuntimeOp o × AllRuntimeOps os

step-Fits :
    (r : InferenceRequest) (o : Op)
    → IsRuntimeOp o
    → Fits r.state r.result
    → Fits (step r o).request.state (step r o).request.result
unfolding step is_valid_transition
step-Fits r (Op.set_deadline_op d) h f = f
step-Fits r (Op.add_observer_op none) h f = f
step-Fits r (Op.add_observer_op (some o)) h f = ground arith
step-Fits r (Op.transition_op s) h f = ground arith
step-Fits r (Op.complete_op v) h f = ground arith
step-Fits r o h f = ground arith

run-Fits :
    (r : InferenceRequest) (os : List Op)
    → AllRuntimeOps os
    → Fits r.state r.result
    → Fits (run r os).0.state (run r os).0.result
unfolding run
run-Fits r [] h f = f
run-Fits r (o ∷ os) h f = run-Fits (step r o).request os h.1 (step-Fits r o h.0 f)

-- From a new request on, a result is there exactly from the terminal transition on, and it is the
-- one that the transition gave.
pub run-new-Fits :
    (id model prompt : Bytes) (tokens : ℕ) (os : List Op)
    → AllRuntimeOps os
    → let r = (run (new id model prompt tokens) os).0 in Fits r.state r.result
unfolding new
run-new-Fits id model prompt tokens os h = run-Fits (new id model prompt tokens) os h refl

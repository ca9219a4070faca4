-- ===== src/RequestHandler.antt =====
-- src/serving/request_handler.cpp and include/airuntime/serving/request_handler.hpp: the names of
-- states and errors, the HTTP status of a request, the answers to inference and to GET requests,
-- over any JSON library.
pub mod Json
pub mod Parse
pub mod Get
pub mod Checks
pub mod Accepts
pub mod Responses
mod Tests
use adaptive_ai_inference_ru.Prelude.{
  ℕ, ◌+◌, Bool, true, false, not, ◌&&◌, Option, none, some, List, [], ◌∷◌, ◌++◌, map, if◌then◌else◌,
  u64,
}
use adaptive_ai_inference_ru.Prelude.Bytes.{Bytes, bytes, bytes_eq}
use adaptive_ai_inference_ru.Status.{ErrorCode, Status, ok, InferenceOutput, InferenceResult}
use adaptive_ai_inference_ru.Request.{RequestState, RequestSnapshot}
use adaptive_ai_inference_ru.ModelManager.{ResidencyMetrics}
use adaptive_ai_inference_ru.Worker.{WorkerBatchMetrics}
use adaptive_ai_inference_ru.Scheduler.{IRequestScheduler}
use adaptive_ai_inference_ru.Runtime.{
  Runtime, is_healthy, WorkerRuntimeSnapshot, RuntimeSnapshot, MetricsSnapshot,
  ModelRuntimeSnapshot, snapshot as runtime_snapshot, metrics_snapshot, model_snapshots,
}
use adaptive_ai_inference_ru.RequestHandler.Json.{IJson}

pub record HandlerResponse : Type 0 where
  pub status_code : ℕ
  pub content_type : Bytes
  pub body : Bytes

-- The handler's own state is the counter. `std::to_string` is an argument.
unfoldable pub next_request_id : (ℕ → Bytes) → ℕ → Bytes × ℕ
next_request_id to_string next_id = (bytes "req-" ++ to_string next_id, u64 (next_id + 1))

unfoldable pub state_to_string : RequestState → Bytes
state_to_string RequestState.received = bytes "Received"
state_to_string RequestState.queued = bytes "Queued"
state_to_string RequestState.running = bytes "Running"
state_to_string RequestState.completed = bytes "Completed"
state_to_string RequestState.rejected = bytes "Rejected"
state_to_string RequestState.failed = bytes "Failed"
state_to_string RequestState.cancelled = bytes "Cancelled"
state_to_string RequestState.timed_out = bytes "TimedOut"

unfoldable pub error_code_to_string : ErrorCode → Bytes
error_code_to_string ErrorCode.no_error = bytes "None"
error_code_to_string ErrorCode.invalid_state_transition = bytes "InvalidStateTransition"
error_code_to_string ErrorCode.queue_full = bytes "QueueFull"
error_code_to_string ErrorCode.queue_closed = bytes "QueueClosed"
error_code_to_string ErrorCode.model_not_found = bytes "ModelNotFound"
error_code_to_string ErrorCode.model_load_failed = bytes "ModelLoadFailed"
error_code_to_string ErrorCode.inference_failed = bytes "InferenceFailed"
error_code_to_string ErrorCode.runtime_stopped = bytes "RuntimeStopped"
error_code_to_string ErrorCode.internal_error = bytes "InternalError"
error_code_to_string ErrorCode.insufficient_memory = bytes "InsufficientMemory"
error_code_to_string ErrorCode.no_feasible_worker = bytes "NoFeasibleWorker"
error_code_to_string ErrorCode.cancelled = bytes "Cancelled"
error_code_to_string ErrorCode.timed_out = bytes "TimedOut"
error_code_to_string ErrorCode.context_length_exceeded = bytes "ContextLengthExceeded"

unfoldable pub http_status_for_code : ErrorCode → ℕ
http_status_for_code ErrorCode.model_not_found = 404
http_status_for_code ErrorCode.context_length_exceeded = 400
http_status_for_code ErrorCode.queue_full = 503
http_status_for_code ErrorCode.runtime_stopped = 503
http_status_for_code ErrorCode.no_feasible_worker = 503
http_status_for_code ErrorCode.insufficient_memory = 503
http_status_for_code _ = 500

abbrev pub http_status_for_result : Option InferenceResult → ℕ
http_status_for_result none = 500
http_status_for_result (some r) = http_status_for_code r.status.code

abbrev pub http_status_for_state : RequestState → Option InferenceResult → ℕ
http_status_for_state RequestState.completed r = 200
http_status_for_state RequestState.cancelled r = 409
http_status_for_state RequestState.timed_out r = 504
http_status_for_state _ r = http_status_for_result r

unfoldable pub http_status_for_snapshot : RequestSnapshot → ℕ
http_status_for_snapshot snap = http_status_for_state snap.state snap.result

abbrev pub application_json : Bytes
application_json = bytes "application/json"

-- The output of a completed request that has one.
abbrev pub output_of : RequestState → Option InferenceResult → Option InferenceOutput
output_of RequestState.completed (some r) = r.output
output_of _ _ = none

module _ {J : Type 0} (json : IJson J) where
  unfoldable pub output_json : Option InferenceOutput → J
  output_json none = json.null
  output_json (some o) = json.object (
      (bytes "text", json.string o.text)
      ∷ (bytes "output_tokens", json.number o.output_tokens)
      ∷ [])

  unfoldable pub status_json : Status → J
  status_json e =
      if ok e
      then json.null
      else json.object (
          (bytes "code", json.string (error_code_to_string e.code))
          ∷ (bytes "message", json.string (bytes e.message))
          ∷ [])

  abbrev pub result_json : Option InferenceResult → J
  result_json none = json.null
  result_json (some r) = status_json r.status

  -- The error is left out where there is an output.
  unfoldable pub error_json : Option InferenceOutput → Option InferenceResult → J
  error_json (some o) r = json.null
  error_json none r = result_json r

  -- The members that the answer and the terminal event share.
  abbrev pub outcome_json : RequestSnapshot → List (Bytes × J)
  outcome_json snap =
      let output = output_of snap.state snap.result in
      (bytes "request_id", json.string snap.request_id)
      ∷ (bytes "model_id", json.string snap.model_id)
      ∷ (bytes "state", json.string (state_to_string snap.state))
      ∷ (bytes "output", output_json output)
      ∷ (bytes "error", error_json output snap.result)
      ∷ []

  unfoldable pub serialize_infer_response : RequestSnapshot → HandlerResponse
  serialize_infer_response snap = record {
    status_code = http_status_for_snapshot snap;
    content_type = application_json;
    body = json.dump (json.object (outcome_json snap));
  }

  abbrev newline : Bytes
  newline = 10 ∷ []

  unfoldable pub serialize_state_event : RequestSnapshot → Bytes
  serialize_state_event snap =
      json.dump (
        json.object (
          (bytes "event", json.string (bytes "state"))
          ∷ (bytes "request_id", json.string snap.request_id)
          ∷ (bytes "state", json.string (state_to_string snap.state))
          ∷ []))
      ++ newline

  unfoldable pub serialize_terminal_event : RequestSnapshot → Bytes
  serialize_terminal_event snap =
      json.dump (json.object ((bytes "event", json.string (bytes "terminal")) ∷ outcome_json snap))
      ++ newline

  unfoldable pub health_response : ℕ → Bytes → HandlerResponse
  health_response code status = record {
    status_code = code;
    content_type = application_json;
    body = json.dump (json.object ((bytes "status", json.string status) ∷ []));
  }

  unfoldable pub handle_health : {S R : Type 0} → Runtime S R → HandlerResponse
  handle_health rt =
      if is_healthy rt
      then health_response 200 (bytes "healthy")
      else if not rt.accepting
      then health_response 503 (bytes "shutting_down")
      else health_response 503 (bytes "unhealthy")

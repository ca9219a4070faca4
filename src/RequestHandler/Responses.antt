-- ===== src/RequestHandler/Responses.antt =====
-- What a client is told of a request.
use adaptive_ai_inference_ru.Prelude.{
  ℕ, String, ◌≡◌, ◌≢◌, ◌⊎◌, inl, inr, ◌∙◌, refl, Option, none, some, List, [], ◌∷◌, arith,
  Bool-cases, Option-cases,
}
use adaptive_ai_inference_ru.Prelude.Bytes.{Bytes, bytes}
use adaptive_ai_inference_ru.Status.{
  ErrorCode, Status, ok, InferenceOutput, InferenceResult, failure_result,
}
use adaptive_ai_inference_ru.Request.{RequestState, RequestSnapshot, new, snapshot}
use adaptive_ai_inference_ru.Request.Ops.{Op, run}
use adaptive_ai_inference_ru.Request.Terminal.{AllRuntimeOps, Fits, run-new-Fits}
use adaptive_ai_inference_ru.RequestHandler.{
  HandlerResponse, state_to_string, error_code_to_string, http_status_for_code,
  http_status_for_snapshot, output_json, status_json, error_json, serialize_infer_response,
}
use adaptive_ai_inference_ru.RequestHandler.Json.{IJson}

-- An answer with that status, name of the state, output and error.
abbrev pub answer_of :
    {J : Type 0} → IJson J → RequestSnapshot → ℕ → String → J → J → HandlerResponse
answer_of json snap code state output error = record {
  status_code = code;
  content_type = bytes "application/json";
  body = json.dump (
      json.object (
        (bytes "request_id", json.string snap.request_id)
        ∷ (bytes "model_id", json.string snap.model_id)
        ∷ (bytes "state", json.string (bytes state))
        ∷ (bytes "output", output)
        ∷ (bytes "error", error)
        ∷ []));
}

-- The HTTP status of an error: 404 for an unknown model, 400 for too long a context, 503 where the
-- server has no room or stops, and 500 for any other.
abbrev pub IsUnavailable : ErrorCode → Type 0
IsUnavailable c =
    (c ≡ ErrorCode.queue_full)
    ⊎ (c ≡ ErrorCode.runtime_stopped)
    ⊎ (c ≡ ErrorCode.no_feasible_worker)
    ⊎ (c ≡ ErrorCode.insufficient_memory)

abbrev pub IsHttpStatus : ErrorCode → ℕ → Type 0
IsHttpStatus c n =
    ((c ≡ ErrorCode.model_not_found) × (n ≡ 404))
    ⊎ ((c ≡ ErrorCode.context_length_exceeded) × (n ≡ 400))
    ⊎ (IsUnavailable c × (n ≡ 503))
    ⊎ ((c ≢ ErrorCode.model_not_found)
        × (c ≢ ErrorCode.context_length_exceeded)
        × (¬ (IsUnavailable c))
        × (n ≡ 500))

abbrev pub error_object : {J : Type 0} → IJson J → Bytes → String → J
error_object json code message =
    json.object
      ((bytes "code", json.string code) ∷ (bytes "message", json.string (bytes message)) ∷ [])

-- The names of the codes on the wire.
abbrev pub code_names : List (ErrorCode × String)
code_names =
    (ErrorCode.no_error, "None")
    ∷ (ErrorCode.invalid_state_transition, "InvalidStateTransition")
    ∷ (ErrorCode.queue_full, "QueueFull")
    ∷ (ErrorCode.queue_closed, "QueueClosed")
    ∷ (ErrorCode.model_not_found, "ModelNotFound")
    ∷ (ErrorCode.model_load_failed, "ModelLoadFailed")
    ∷ (ErrorCode.inference_failed, "InferenceFailed")
    ∷ (ErrorCode.runtime_stopped, "RuntimeStopped")
    ∷ (ErrorCode.internal_error, "InternalError")
    ∷ (ErrorCode.insufficient_memory, "InsufficientMemory")
    ∷ (ErrorCode.no_feasible_worker, "NoFeasibleWorker")
    ∷ (ErrorCode.cancelled, "Cancelled")
    ∷ (ErrorCode.timed_out, "TimedOut")
    ∷ (ErrorCode.context_length_exceeded, "ContextLengthExceeded")
    ∷ []

abbrev pub IsNameIn : List (ErrorCode × String) → ErrorCode → Bytes → Type 0
IsNameIn [] c name = ⊥
IsNameIn ((d, text) ∷ rest) c name = ((c ≡ d) × (name ≡ bytes text)) ⊎ IsNameIn rest c name

error_code_to_string-IsNameIn : (c : ErrorCode) → IsNameIn code_names c (error_code_to_string c)
unfolding error_code_to_string
error_code_to_string-IsNameIn ErrorCode.no_error = inl (refl, refl)
error_code_to_string-IsNameIn c = search (inl, inr) depth 16

-- The member for an error: its code's name and its message, or null if it is none.
abbrev pub IsErrorMember : {J : Type 0} → IJson J → Status → J → Type 0
IsErrorMember json e j =
    ((e.code ≡ ErrorCode.no_error) × (j ≡ json.null))
    ⊎ ((e.code ≢ ErrorCode.no_error)
        × ((name : Bytes) × IsNameIn code_names e.code name
            × (j ≡ error_object json name e.message)))

-- The output and error members of a completed request: the output with its text and number of tokens
-- and no error, or without an output the error of the result.
abbrev pub AreMembers : {J : Type 0} → IJson J → InferenceResult → J → J → Type 0
AreMembers json v output error =
    ((o : InferenceOutput) × (v.output ≡ some o)
      × (output
          ≡ json.object (
              (bytes "text", json.string o.text)
              ∷ (bytes "output_tokens", json.number o.output_tokens)
              ∷ []))
      × (error ≡ json.null))
    ⊎ ((v.output ≡ none) × (output ≡ json.null) × IsErrorMember json v.status error)

-- The answer for an error that the request ended with.
abbrev pub IsFailure : {J : Type 0} → IJson J → RequestSnapshot → String → HandlerResponse → Type 0
IsFailure {J} json snap state answer =
    (e : Status) × (code : ℕ) × (error : J) × (snap.result ≡ some (failure_result e))
    × IsHttpStatus e.code code
    × IsErrorMember json e error
    × (answer ≡ answer_of json snap code state json.null error)

-- The answer that fits a state.
abbrev pub IsAnswered :
    {J : Type 0} → IJson J → RequestState → RequestSnapshot → HandlerResponse → Type 0
IsAnswered {J} json RequestState.completed snap answer =
    (v : InferenceResult) × (output : J) × (error : J) × (snap.result ≡ some v)
    × AreMembers json v output error
    × (answer ≡ answer_of json snap 200 "Completed" output error)
IsAnswered json RequestState.cancelled snap answer =
    answer
    ≡ answer_of json snap 409 "Cancelled" json.null
        (error_object json (bytes "Cancelled") "request cancelled")
IsAnswered json RequestState.timed_out snap answer =
    answer
    ≡ answer_of json snap 504 "TimedOut" json.null
        (error_object json (bytes "TimedOut") "request timed out")
IsAnswered json RequestState.failed snap answer = IsFailure json snap "Failed" answer
IsAnswered json RequestState.rejected snap answer = IsFailure json snap "Rejected" answer
IsAnswered json RequestState.received snap answer =
    answer ≡ answer_of json snap 500 "Received" json.null json.null
IsAnswered json RequestState.queued snap answer =
    answer ≡ answer_of json snap 500 "Queued" json.null json.null
IsAnswered json RequestState.running snap answer =
    answer ≡ answer_of json snap 500 "Running" json.null json.null

http_status_for_code-IsHttpStatus : (c : ErrorCode) → IsHttpStatus c (http_status_for_code c)
unfolding http_status_for_code
http_status_for_code-IsHttpStatus ErrorCode.model_not_found = inl (refl, refl)
http_status_for_code-IsHttpStatus c = ground arith

status_json-IsErrorMember :
    {J : Type 0} (json : IJson J) (e : Status) → IsErrorMember json e (status_json json e)
unfolding status_json
status_json-IsErrorMember json e = elim (Bool-cases (ok e)) [
  | inl t ↦ rw t (inl (ground arith, refl))
  | inr f ↦ rw f (
      inr (ground arith, (error_code_to_string e.code, error_code_to_string-IsNameIn e.code, refl)))
]

result-AreMembers :
    {J : Type 0} (json : IJson J) (v : InferenceResult)
    → AreMembers json v (output_json json v.output) (error_json json v.output (some v))
unfolding output_json error_json
result-AreMembers json v = elim (Option-cases v.output) [
  | inl e ↦ rw e (inr (refl, refl, status_json-IsErrorMember json v.status))
  | inr (o, e) ↦ rw e (inl (o, refl, refl, refl))
]

answer-IsFailure :
    {J : Type 0} (json : IJson J) (snap : RequestSnapshot) (state : String) (e : Status)
    (answer : HandlerResponse)
    → snap.result ≡ some (failure_result e)
    → answer
      ≡ answer_of json snap (http_status_for_code e.code) state json.null (status_json json e)
    → IsFailure json snap state answer
answer-IsFailure json snap state e answer is same = (
  e,
  http_status_for_code e.code,
  status_json json e,
  is,
  http_status_for_code-IsHttpStatus e.code,
  status_json-IsErrorMember json e,
  same,
)

Fits-IsAnswered :
    {J : Type 0} (json : IJson J) (snap : RequestSnapshot) (s : RequestState)
    (res : Option InferenceResult)
    → snap.state ≡ s
    → snap.result ≡ res
    → Fits s res
    → IsAnswered json s snap (serialize_infer_response json snap)
unfolding serialize_infer_response http_status_for_snapshot output_json error_json state_to_string
    status_json error_code_to_string
Fits-IsAnswered json snap RequestState.completed res at is (v, e) = (
  v,
  output_json json v.output,
  error_json json v.output (some v),
  is ∙ e,
  result-AreMembers json v,
  rw (at, is ∙ e) refl,
)
Fits-IsAnswered json snap RequestState.cancelled res at is h = rw (at, is ∙ h) refl
Fits-IsAnswered json snap RequestState.timed_out res at is h = rw (at, is ∙ h) refl
Fits-IsAnswered json snap RequestState.failed res at is (e, h) =
    answer-IsFailure json snap "Failed" e (serialize_infer_response json snap) (is ∙ h)
      (rw (at, is ∙ h) refl)
Fits-IsAnswered json snap RequestState.rejected res at is (e, h) =
    answer-IsFailure json snap "Rejected" e (serialize_infer_response json snap) (is ∙ h)
      (rw (at, is ∙ h) refl)
Fits-IsAnswered json snap RequestState.received res at is h = rw (at, is ∙ h) refl
Fits-IsAnswered json snap RequestState.queued res at is h = rw (at, is ∙ h) refl
Fits-IsAnswered json snap RequestState.running res at is h = rw (at, is ∙ h) refl

-- Whatever methods a new request has gone through, short of a transition_to into a terminal state, the
-- answer to its client names the request, its model and its state. A Completed one has status 200, the
-- text and number of tokens of its output and no error (without an output, the error of its result);
-- a cancelled one 409 and a timed out one 504, each with that error; a failed or rejected one the name
-- of its error's code and the message, with 404 for an unknown model, 400 for too long a context, 503
-- for a full queue, a stopped runtime, no feasible worker or too little memory, and 500 for the rest;
-- and one that has not ended 500 with neither output nor error.
pub serialize_infer_response-IsAnswered :
    {J : Type 0} (json : IJson J) (id model prompt : Bytes) (tokens : ℕ) (os : List Op)
    → AllRuntimeOps os
    → (let r = (run (new id model prompt tokens) os).0 in
        IsAnswered json r.state (snapshot r) (serialize_infer_response json (snapshot r)))
unfolding snapshot
serialize_infer_response-IsAnswered json id model prompt tokens os h =
    let r = (run (new id model prompt tokens) os).0 in
    Fits-IsAnswered json (snapshot r) r.state r.result refl refl
      (run-new-Fits id model prompt tokens os h)

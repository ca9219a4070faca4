-- ===== src/Status.antt =====
-- include/airuntime/status.hpp: error codes, statuses and inference results.
use adaptive_ai_inference_ru.Prelude.{ℕ, String, Bool, true, false, Option, none, some}
use adaptive_ai_inference_ru.Prelude.Bytes.{Bytes}

pub data ErrorCode : Type 0 where
  no_error invalid_state_transition queue_full queue_closed model_not_found : ErrorCode
  model_load_failed inference_failed runtime_stopped internal_error insufficient_memory : ErrorCode
  no_feasible_worker cancelled timed_out context_length_exceeded : ErrorCode

pub record Status : Type 0 where
  pub code : ErrorCode
  pub message : String

abbrev pub is_no_error : ErrorCode → Bool
is_no_error no_error = true
is_no_error _ = false

abbrev pub ok : Status → Bool
ok s = is_no_error s.code

abbrev pub success : Status
success = record { code = no_error; message = "" }

abbrev pub error : ErrorCode → String → Status
error c m = record { code = c; message = m }

pub record InferenceOutput : Type 0 where
  pub text : Bytes
  pub output_tokens : ℕ

pub record InferenceResult : Type 0 where
  pub status : Status
  pub output : Option InferenceOutput

abbrev pub success_result : InferenceOutput → InferenceResult
success_result o = record { status = success; output = some o }

abbrev pub failure_result : Status → InferenceResult
failure_result s = record { status = s; output = none }

abbrev pub result_ok : InferenceResult → Bool
result_ok r = ok r.status

-- A `Status` with an out-parameter, which is written on success only.
pub data Result {ℓ} (A : Type ℓ) : Type ℓ where
  found : A → Result A
  fails : Status → Result A

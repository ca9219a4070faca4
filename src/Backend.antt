-- ===== src/Backend.antt =====
-- include/airuntime/backend.hpp: the model backend as a worker sees it, an interface over a state
-- of the backend's own. `throws`: the call leaves by an exception, with its message. An exception of
-- `load` or `unload` is an argument of `execute_batch` (Worker/Execute).
use adaptive_ai_inference_ru.Prelude.{String, Bool, List}
use adaptive_ai_inference_ru.Prelude.Bytes.{Bytes}
use adaptive_ai_inference_ru.Status.{Status, InferenceResult}
use adaptive_ai_inference_ru.Request.{InferenceRequest}
use adaptive_ai_inference_ru.ModelRegistry.{ModelSpec}

pub data BatchResults : Type 0 where
  results : List InferenceResult → BatchResults
  throws : String → BatchResults

pub record IModelBackend (S : Type 0) : Type 0 where
  pub load : ModelSpec → S → Status × S
  pub unload : Bytes → S → Status × S
  pub is_loaded : Bytes → S → Bool
  pub infer : InferenceRequest → S → InferenceResult × S
  pub infer_batch : List InferenceRequest → S → BatchResults × S

-- ===== src/SyntheticBackend.antt =====
-- src/synthetic_backend.cpp and include/airuntime/synthetic_backend.hpp: the backend that simulates
-- models. Pointers to requests may be null here. Latencies are natural numbers of microseconds, and
-- their sums do not overflow; `std::size_t` counts wrap as written.
pub mod Laws
mod Tests
use adaptive_ai_inference_ru.Prelude.{
  ℕ, ◌+◌, ◌*◌, Bool, true, false, Option, none, some, List, [], ◌∷◌, ◌++◌, map, if◌then◌else◌,
  length, u64,
}
use adaptive_ai_inference_ru.Prelude.Bytes.{Bytes, bytes, bytes_eq}
use adaptive_ai_inference_ru.Prelude.Assoc.{lookup, insert}
use adaptive_ai_inference_ru.Status.{
  ErrorCode, Status, InferenceResult, success, error, success_result, failure_result,
}
use adaptive_ai_inference_ru.Request.{InferenceRequest}
use adaptive_ai_inference_ru.ModelRegistry.{ModelSpec}
use adaptive_ai_inference_ru.ModelManager.{ModelState, unloaded, resident, failed, is_resident}
use adaptive_ai_inference_ru.Backend.{IModelBackend, results}

pub record SyntheticModelConfig : Type 0 where
  pub load_latency : ℕ
  pub prefill_latency : ℕ
  pub per_token_latency : ℕ
  pub fail_load : Bool
  pub fail_infer : Bool

pub record SyntheticBackendMetrics : Type 0 where
  pub load_count : ℕ
  pub inference_count : ℕ
  pub batch_inference_count : ℕ
  pub last_batch_size : ℕ
  pub last_simulated_load_cost : ℕ
  pub total_simulated_load_cost : ℕ
  pub last_simulated_inference_cost : ℕ
  pub total_simulated_inference_cost : ℕ
  pub last_simulated_batch_cost : ℕ
  pub total_simulated_batch_cost : ℕ

pub record ModelEntry : Type 0 where
  pub config : SyntheticModelConfig
  pub state : ModelState

pub record SyntheticModelBackend : Type 0 where
  pub models : List (Bytes × ModelEntry)
  pub metrics : SyntheticBackendMetrics

abbrev pub not_registered : Status
not_registered = error ErrorCode.model_not_found "model profile not registered"

unfoldable pub register_model :
    Bytes → SyntheticModelConfig → SyntheticModelBackend → SyntheticModelBackend
register_model id config b = record b {
  models = insert id (record { config = config; state = unloaded }) b.models;
}

abbrev count_load : SyntheticModelConfig → SyntheticBackendMetrics → SyntheticBackendMetrics
count_load config c = record c {
  last_simulated_load_cost = config.load_latency;
  total_simulated_load_cost = c.total_simulated_load_cost + config.load_latency;
  load_count = u64 (c.load_count + 1);
}

unfoldable pub load_found :
    Bytes → Option ModelEntry → SyntheticModelBackend → Status × SyntheticModelBackend
load_found id none b = (not_registered, b)
load_found id (some e) b =
    if is_resident e.state
    then (success, b)
    else if e.config.fail_load
    then (
      error ErrorCode.model_load_failed "synthetic load failure",
      record {
        models = insert id (record e { state = failed }) b.models;
        metrics = count_load e.config b.metrics;
      },
    )
    else (
      success,
      record {
        models = insert id (record e { state = resident }) b.models;
        metrics = count_load e.config b.metrics;
      },
    )

unfoldable pub load : ModelSpec → SyntheticModelBackend → Status × SyntheticModelBackend
load model b = load_found model.model_id (lookup model.model_id b.models) b

abbrev state_unloaded : ModelState → ModelState
state_unloaded resident = unloaded
state_unloaded failed = unloaded
state_unloaded s = s

unfoldable pub unload_found :
    Bytes → Option ModelEntry → SyntheticModelBackend → Status × SyntheticModelBackend
unload_found id none b = (not_registered, b)
unload_found id (some e) b = (
  success,
  record b { models = insert id (record e { state = state_unloaded e.state }) b.models },
)

unfoldable pub unload : Bytes → SyntheticModelBackend → Status × SyntheticModelBackend
unload id b = unload_found id (lookup id b.models) b

abbrev pub entry_loaded : Option ModelEntry → Bool
entry_loaded none = false
entry_loaded (some e) = is_resident e.state

unfoldable pub is_loaded : Bytes → SyntheticModelBackend → Bool
is_loaded id b = entry_loaded (lookup id b.models)

-- The same failure for each request of a batch.
abbrev pub all_fail : Status → List (Option InferenceRequest) → List InferenceResult
all_fail e rs = map (λ r. failure_result e) rs

-- The loop that adds up the tokens; `none` if it meets a null pointer or another model.
unfoldable pub total_tokens : Bytes → List (Option InferenceRequest) → ℕ → Option ℕ
total_tokens id [] total = some total
total_tokens id (none ∷ rs) total = none
total_tokens id (some r ∷ rs) total =
    let rest = total_tokens id rs (u64 (total + r.max_output_tokens)) in
    if bytes_eq r.model_id id then rest else none

unfoldable pub answer : SyntheticModelConfig → InferenceRequest → InferenceResult
answer config r =
    if config.fail_infer
    then failure_result (error ErrorCode.inference_failed "synthetic inference failure")
    else success_result
        (record { text = bytes "synthetic:" ++ r.request_id; output_tokens = r.max_output_tokens })

-- The last loop. No pointer is null here, since the tokens have been added up.
unfoldable pub answers :
    SyntheticModelConfig → List (Option InferenceRequest) → List InferenceResult
answers config [] = []
answers config (none ∷ rs) = answers config rs
answers config (some r ∷ rs) = answer config r ∷ answers config rs

abbrev pub count_batch : ℕ → ℕ → SyntheticBackendMetrics → SyntheticBackendMetrics
count_batch cost size c = record c {
  last_simulated_batch_cost = cost;
  total_simulated_batch_cost = c.total_simulated_batch_cost + cost;
  last_batch_size = size;
  batch_inference_count = u64 (c.batch_inference_count + 1);
  last_simulated_inference_cost = cost;
  total_simulated_inference_cost = c.total_simulated_inference_cost + cost;
  inference_count = u64 (c.inference_count + size);
}

abbrev pub batch_cost : SyntheticModelConfig → ℕ → ℕ
batch_cost config tokens = config.prefill_latency + config.per_token_latency * tokens

-- On a resident model, with the tokens of the batch if all its members go together.
unfoldable pub run_batch :
    SyntheticModelConfig
    → Option ℕ
    → List (Option InferenceRequest)
    → SyntheticModelBackend
    → List InferenceResult × SyntheticModelBackend
run_batch config none rs b =
    (all_fail (error ErrorCode.internal_error "incompatible batch member") rs, b)
run_batch config (some tokens) rs b = (
  answers config rs,
  record b { metrics = count_batch (batch_cost config tokens) (length rs) b.metrics },
)

unfoldable pub batch_found :
    Bytes
    → Option ModelEntry
    → List (Option InferenceRequest)
    → SyntheticModelBackend
    → List InferenceResult × SyntheticModelBackend
batch_found id none rs b = (all_fail not_registered rs, b)
batch_found id (some e) rs b =
    if is_resident e.state
    then run_batch e.config (total_tokens id rs 0) rs b
    else (all_fail (error ErrorCode.inference_failed "model is not resident") rs, b)

unfoldable pub infer_batch :
    List (Option InferenceRequest)
    → SyntheticModelBackend
    → List InferenceResult × SyntheticModelBackend
infer_batch [] b = ([], b)
infer_batch (none ∷ rs) b =
    (all_fail (error ErrorCode.internal_error "null request in batch") (none ∷ rs), b)
infer_batch (some r ∷ rs) b = batch_found r.model_id (lookup r.model_id b.models) (some r ∷ rs) b

-- `results.front()` if there is exactly one.
abbrev only : List InferenceResult → InferenceResult
only (r ∷ []) = r
only _ = failure_result (error ErrorCode.internal_error "synthetic infer_batch cardinality error")

unfoldable pub infer :
    InferenceRequest → SyntheticModelBackend → InferenceResult × SyntheticModelBackend
infer r b = let (rs, b') = infer_batch (some r ∷ []) b in (only rs, b')

abbrev pub entry_state : Option ModelEntry → ModelState
entry_state none = unloaded
entry_state (some e) = e.state

unfoldable pub model_state : Bytes → SyntheticModelBackend → ModelState
model_state id b = entry_state (lookup id b.models)

-- The backend as the worker sees it; it throws nothing.
abbrev pub synthetic_backend : IModelBackend SyntheticModelBackend
synthetic_backend = record {
  load = load;
  unload = unload;
  is_loaded = is_loaded;
  infer = infer;
  infer_batch = λ rs b. let (out, b') = infer_batch (map (λ r. some r) rs) b in (results out, b');
}

-- ===== src/SyntheticBackend/Tests.antt =====
-- A synthetic backend with a model that loads and one that does not.
use adaptive_ai_inference_ru.Prelude.{
  ◌≡◌, refl, true, false, Option, none, some, List, [], ◌∷◌, length,
}
use adaptive_ai_inference_ru.Prelude.Bytes.{bytes, bytes_eq}
use adaptive_ai_inference_ru.Prelude.Assoc.{lookup}
use adaptive_ai_inference_ru.Status.{ok}
use adaptive_ai_inference_ru.Request.{InferenceRequest, new}
use adaptive_ai_inference_ru.ModelRegistry.{ModelSpec}
use adaptive_ai_inference_ru.ModelManager.{unloaded, resident}
use adaptive_ai_inference_ru.SyntheticBackend.{
  SyntheticModelConfig, SyntheticModelBackend, ModelEntry, load, load_found, infer_batch,
  batch_found, run_batch, total_tokens,
}
use adaptive_ai_inference_ru.SyntheticBackend.Laws.{
  IsBatchAnswer, infer_batch-length, infer_batch-answer,
}

abbrev config : SyntheticModelConfig
config = record {
  load_latency = 100;
  prefill_latency = 10;
  per_token_latency = 2;
  fail_load = false;
  fail_infer = false;
}

abbrev entry : ModelEntry
entry = record { config = config; state = resident }

abbrev backend : SyntheticModelBackend
backend = record {
  models =
      (bytes "a", entry)
      ∷ (bytes "b", record { config = record config { fail_load = true }; state = unloaded })
      ∷ [];
  metrics = record {
    load_count = 0;
    inference_count = 0;
    batch_inference_count = 0;
    last_batch_size = 0;
    last_simulated_load_cost = 0;
    total_simulated_load_cost = 0;
    last_simulated_inference_cost = 0;
    total_simulated_inference_cost = 0;
    last_simulated_batch_cost = 0;
    total_simulated_batch_cost = 0;
  };
}

abbrev spec_b : ModelSpec
spec_b = record { model_id = bytes "b"; estimated_memory_bytes = 1; estimated_load_cost = 1 }

abbrev first : InferenceRequest
unfolding new
first = new (bytes "r1") (bytes "a") (bytes "hi") 16

abbrev second : InferenceRequest
unfolding new
second = new (bytes "r2") (bytes "a") (bytes "ho") 4

abbrev batch : List (Option InferenceRequest)
batch = some first ∷ some second ∷ []

-- One prefill and twenty tokens.
shares_the_prefill : (infer_batch batch backend).1.metrics.last_simulated_batch_cost ≡ 50
unfolding infer_batch batch_found run_batch total_tokens lookup bytes_eq first second
shares_the_prefill = refl

fails_to_load : ok (load spec_b backend).0 ≡ false
unfolding load load_found lookup bytes_eq
fails_to_load = refl

infer_batch-length_example : length (infer_batch (some first ∷ none ∷ []) backend).0 ≡ 2
infer_batch-length_example = infer_batch-length (some first ∷ none ∷ []) backend

infer_batch-answer_example : IsBatchAnswer backend batch (infer_batch batch backend).0
infer_batch-answer_example = infer_batch-answer (some first) (some second ∷ []) backend

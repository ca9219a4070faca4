-- ===== src/LlamaConfig/Tests.antt =====
-- A configuration with one model.
use adaptive_ai_inference_ru.Prelude.{ℕ, ◌≤◌, ◌≡◌, ◌≢◌, ◌↔◌, refl, true, none, some, [], ◌∷◌, All}
use adaptive_ai_inference_ru.Prelude.Bytes.{bytes}
use adaptive_ai_inference_ru.Prelude.Integers.{pos}
use adaptive_ai_inference_ru.Status.{ok}
use adaptive_ai_inference_ru.LlamaConfig.{
  LlamaCppBackendConfig, validate, check_models, check_model, problem,
}
use adaptive_ai_inference_ru.LlamaConfig.Valid.{IsModel, validate_iff}

abbrev config : ℕ → LlamaCppBackendConfig
config sequences = record {
  models =
      (
        bytes "a",
        record {
          gguf_path = bytes "a.gguf";
          context_tokens_per_sequence = 2048;
          n_batch = 512;
          n_ubatch = 512;
          n_gpu_layers = none;
          n_threads = some (pos 4);
          n_threads_batch = none;
        },
      )
      ∷ [];
  max_sequences = sequences;
}

config_passes : ok (validate (config 4)) ≡ true
unfolding validate check_models check_model
config_passes = refl

config_fails : validate (config 513) ≡ problem "n_batch must be >= max_sequences"
unfolding validate check_models check_model
config_fails = refl

validate_iff_example :
    (ok (validate (config 4)) ≡ true)
    ↔ ((1 ≤ 4) × ((config 4).models ≢ []) × All (IsModel 4) (config 4).models)
validate_iff_example = validate_iff (config 4)

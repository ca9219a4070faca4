-- ===== src/LlamaConfig.antt =====
-- src/llama/llama_cpp_backend_config.cpp and include/airuntime/llama/llama_cpp_backend_config.hpp:
-- the check of a configuration. The models are listed in the map's order of iteration.
pub mod Valid
mod Tests
use adaptive_ai_inference_ru.Prelude.{
  ℕ, String, Bool, true, false, Option, none, some, List, [], ◌∷◌, if◌then◌else◌, ltb, ◌==◌,
}
use adaptive_ai_inference_ru.Prelude.Bytes.{Bytes}
use adaptive_ai_inference_ru.Prelude.Integers.{ℤ, pos, negsuc}
use adaptive_ai_inference_ru.Status.{ErrorCode, Status, ok, success, error}

pub record LlamaModelConfig : Type 0 where
  pub gguf_path : Bytes
  pub context_tokens_per_sequence : ℕ
  pub n_batch : ℕ
  pub n_ubatch : ℕ
  pub n_gpu_layers : Option ℤ
  pub n_threads : Option ℤ
  pub n_threads_batch : Option ℤ

pub record LlamaCppBackendConfig : Type 0 where
  pub models : List (Bytes × LlamaModelConfig)
  pub max_sequences : ℕ

abbrev pub is_empty {ℓ} : {A : Type ℓ} → List A → Bool
is_empty [] = true
is_empty (x ∷ xs) = false

-- A number of threads that is given and not positive.
abbrev pub is_bad_count : Option ℤ → Bool
is_bad_count none = false
is_bad_count (some (pos n)) = n == 0
is_bad_count (some (negsuc n)) = true

abbrev pub problem : String → Status
problem message = error ErrorCode.internal_error message

unfoldable pub check_model : ℕ → Bytes → LlamaModelConfig → Status
check_model max_sequences id m =
    if is_empty id
    then problem "empty model_id in llama config"
    else if is_empty m.gguf_path
    then problem "empty gguf_path in llama config"
    else if m.context_tokens_per_sequence == 0
    then problem "context_tokens_per_sequence must be > 0"
    else if m.n_batch == 0
    then problem "n_batch must be > 0"
    else if m.n_ubatch == 0
    then problem "n_ubatch must be > 0"
    else if ltb m.n_batch m.n_ubatch
    then problem "n_ubatch must be <= n_batch"
    else if ltb m.n_batch max_sequences
    then problem "n_batch must be >= max_sequences"
    else if is_bad_count m.n_threads
    then problem "n_threads must be > 0"
    else if is_bad_count m.n_threads_batch
    then problem "n_threads_batch must be > 0"
    else success

unfoldable pub check_models : ℕ → List (Bytes × LlamaModelConfig) → Status
check_models max_sequences [] = success
check_models max_sequences ((id, m) ∷ models) =
    let rest = check_models max_sequences models in
    if ok (check_model max_sequences id m) then rest else check_model max_sequences id m

unfoldable pub validate : LlamaCppBackendConfig → Status
validate config =
    if ltb config.max_sequences 1
    then problem "max_sequences must be >= 1"
    else if is_empty config.models
    then problem "llama backend config has no models"
    else check_models config.max_sequences config.models

-- ===== src/LlamaConfig/Valid.antt =====
-- Which configurations are valid.
use adaptive_ai_inference_ru.Prelude.{
  ℕ, ◌≤◌, ◌≡◌, ◌≢◌, ◌↔◌, refl, true, false, Option, none, some, List, [], ◌∷◌, All, ltb, arith,
  Bool-cases, inl, inr,
}
use adaptive_ai_inference_ru.Prelude.Bytes.{Bytes}
use adaptive_ai_inference_ru.Prelude.Integers.{ℤ, pos, negsuc}
use adaptive_ai_inference_ru.Status.{ok}
use adaptive_ai_inference_ru.LlamaConfig.{
  LlamaModelConfig, LlamaCppBackendConfig, is_empty, is_bad_count, check_model, check_models,
  validate,
}

-- A number of threads that is left out, or positive.
abbrev pub IsCount : Option ℤ → Type 0
IsCount none = Unit
IsCount (some (pos n)) = 1 ≤ n
IsCount (some (negsuc n)) = ⊥

abbrev pub IsModel : ℕ → Bytes × LlamaModelConfig → Type 0
IsModel max_sequences (id, m) =
    (id ≢ [])
    × (m.gguf_path ≢ [])
    × (1 ≤ m.context_tokens_per_sequence)
    × (1 ≤ m.n_ubatch)
    × (m.n_ubatch ≤ m.n_batch)
    × (max_sequences ≤ m.n_batch)
    × IsCount m.n_threads
    × IsCount m.n_threads_batch

is_empty_iff {ℓ} : {A : Type ℓ} (xs : List A) → (is_empty xs ≡ false) ↔ (xs ≢ [])
is_empty_iff [] = (λ h. ground arith, λ h. absurd (h refl))
is_empty_iff (x ∷ xs) = (λ h. ground arith, λ h. refl)

is_bad_count_iff : (o : Option ℤ) → (is_bad_count o ≡ false) ↔ IsCount o
is_bad_count_iff none = (λ h. tt, λ h. refl)
is_bad_count_iff (some (pos n)) = (λ h. ground arith, λ h. ground arith)
is_bad_count_iff (some (negsuc n)) = (λ h. ground arith, λ h. absurd h)

check_model_iff :
    (max_sequences : ℕ) (id : Bytes) (m : LlamaModelConfig)
    → (ok (check_model max_sequences id m) ≡ true) ↔ IsModel max_sequences (id, m)
unfolding check_model
check_model_iff max_sequences id m = (
  λ h. ground (
    arith,
    is_empty_iff id,
    is_empty_iff m.gguf_path,
    is_bad_count_iff m.n_threads,
    is_bad_count_iff m.n_threads_batch,
  ),
  λ h. ground (
    arith,
    is_empty_iff id,
    is_empty_iff m.gguf_path,
    is_bad_count_iff m.n_threads,
    is_bad_count_iff m.n_threads_batch,
  ),
)

check_models_iff :
    (max_sequences : ℕ) (models : List (Bytes × LlamaModelConfig))
    → (ok (check_models max_sequences models) ≡ true) ↔ All (IsModel max_sequences) models
unfolding check_models
check_models_iff max_sequences [] = (λ h. tt, λ h. refl)
check_models_iff max_sequences ((id, m) ∷ models) =
    let first = check_model_iff max_sequences id m in
    let rest = check_models_iff max_sequences models in
    elim (Bool-cases (ok (check_model max_sequences id m))) [
      | inl t ↦ rw t (λ h. (first.0 t, rest.0 h), λ h. rest.1 h.1)
      | inr f ↦ rw f (λ h. ground arith, λ h. ground (arith, first.1 h.0))
    ]

-- A configuration passes the check exactly if it allows at least one sequence and has a model, and
-- every model has an id and a path, a context, batches no smaller than the micro-batches and the
-- number of sequences, and numbers of threads that are left out or positive; whatever the order in
-- which the map lists the models.
pub validate_iff :
    (config : LlamaCppBackendConfig)
    → (ok (validate config) ≡ true) ↔ (
        (1 ≤ config.max_sequences)
        × (config.models ≢ [])
        × All (IsModel config.max_sequences) config.models)
unfolding validate
validate_iff config =
    let models = check_models_iff config.max_sequences config.models in
    let listed = is_empty_iff config.models in
    elim (Bool-cases (ltb config.max_sequences 1)) [
      | inl t ↦ rw t (λ h. ground arith, λ h. ground arith)
      | inr f ↦ elim (Bool-cases (is_empty config.models)) [
        | inl e ↦ rw (f, e) (λ h. ground arith, λ h. ground (arith, listed.1 h.1))
        | inr e ↦ rw (f, e) (λ h. (ground arith, listed.0 e, models.0 h), λ h. models.1 h.2)
      ]
    ]

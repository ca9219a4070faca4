-- ===== src/ModelRegistry.antt =====
-- src/model_registry.cpp and include/airuntime/model.hpp: the models that a server knows.
pub mod Laws
mod Tests
use adaptive_ai_inference_ru.Prelude.{
  ℕ, Bool, true, false, Option, none, some, List, [], ◌∷◌, ◌++◌, if◌then◌else◌, ◌==◌, length, map,
}
use adaptive_ai_inference_ru.Prelude.Bytes.{Bytes, bytes_lt}
use adaptive_ai_inference_ru.Prelude.Assoc.{lookup}
use adaptive_ai_inference_ru.Prelude.Sort.{sort}
use adaptive_ai_inference_ru.Status.{ErrorCode, Status, success, error, Result, found, fails}

pub record ModelSpec : Type 0 where
  pub model_id : Bytes
  pub estimated_memory_bytes : ℕ
  pub estimated_load_cost : ℕ

-- The map of the registry, and of its builder, in iteration order.
abbrev pub Models : Type 0
Models = List (Bytes × ModelSpec)

abbrev has : Option ModelSpec → Bool
has none = false
has (some s) = true

abbrev pub is_empty_id : Bytes → Bool
is_empty_id [] = true
is_empty_id (c ∷ cs) = false

unfoldable pub contains : Bytes → Models → Bool
contains id m = has (lookup id m)

-- `Builder::add`
unfoldable pub add : ModelSpec → Models → Status × Models
unfolding contains
add spec m =
    if is_empty_id spec.model_id
    then (error ErrorCode.internal_error "empty model_id", m)
    else if spec.estimated_memory_bytes == 0
    then (error ErrorCode.internal_error "estimated_memory_bytes must be > 0", m)
    else if spec.estimated_load_cost == 0
    then (error ErrorCode.internal_error "estimated_load_cost must be > 0", m)
    else if contains spec.model_id m
    then (error ErrorCode.internal_error "duplicate model_id", m)
    else (success, (spec.model_id, spec) ∷ m)

-- `Builder::build`
unfoldable pub build : Models → Result Models
build [] = fails (error ErrorCode.internal_error "empty model registry")
build (m ∷ ms) = found (m ∷ ms)

unfoldable pub find : Bytes → Models → Result ModelSpec
find id m = elim (lookup id m) [
  | none ↦ fails (error ErrorCode.model_not_found "model not found in registry")
  | some spec ↦ found spec
]

unfoldable pub size : Models → ℕ
size m = length m

abbrev pub spec_less : ModelSpec → ModelSpec → Bool
spec_less a b = bytes_lt a.model_id b.model_id

unfoldable pub models : Models → List ModelSpec
models m = sort spec_less (map (λ e. e.1) m)

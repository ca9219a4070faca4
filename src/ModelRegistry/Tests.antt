-- ===== src/ModelRegistry/Tests.antt =====
-- A small registry, and the registry's theorems at concrete inputs.
use mathlib.Core.List.{Perm}
use adaptive_ai_inference_ru.Prelude.{
  ◌<◌, ◌≡◌, refl, List, [], ◌∷◌, map, ◌==◌, ◌&&◌, not, if◌then◌else◌, All,
}
use adaptive_ai_inference_ru.Prelude.Bytes.{bytes, bytes_eq, bytes_lt}
use adaptive_ai_inference_ru.Prelude.Sort.{sort}
use adaptive_ai_inference_ru.Status.{found, ok}
use adaptive_ai_inference_ru.ModelRegistry.{ModelSpec, add, find, contains, models}
use adaptive_ai_inference_ru.ModelRegistry.Laws.{
  IsRegistry, Ascending, add_all, add_all-IsRegistry, find-facts, find-add, models_sorted,
}
use adaptive_ai_inference_ru.Prelude.Assoc.{lookup}

abbrev small : ModelSpec
small = record { model_id = bytes "s"; estimated_memory_bytes = 10; estimated_load_cost = 1 }

abbrev large : ModelSpec
large = record { model_id = bytes "l"; estimated_memory_bytes = 90; estimated_load_cost = 7 }

abbrev specs : List ModelSpec
specs = small ∷ large ∷ small ∷ []

lists_in_order : models (add_all specs []) ≡ large ∷ small ∷ []
unfolding models add_all add contains lookup bytes_eq sort bytes_lt
lists_in_order = refl

add_all-IsRegistry_example : IsRegistry (add_all specs [])
add_all-IsRegistry_example = add_all-IsRegistry specs [] tt

find-facts_example :
    (large.model_id ≡ bytes "l")
    × (0 < large.estimated_memory_bytes)
    × (0 < large.estimated_load_cost)
unfolding find add_all add contains lookup bytes_eq
find-facts_example =
    find-facts (bytes "l") (add_all specs []) large (add_all-IsRegistry specs [] tt) refl

find-add_example :
    (find (bytes "l") (add large []).1 ≡ (
      if ok (add large []).0 && bytes_eq large.model_id (bytes "l")
      then found large
      else find (bytes "l") []))
    × (ok (add large []).0 ≡ (
        not (bytes_eq large.model_id [])
        && not (large.estimated_memory_bytes == 0)
        && not (large.estimated_load_cost == 0)
        && not (contains large.model_id [])))
find-add_example = find-add large [] (bytes "l")

models_sorted_example :
    let m = add_all specs [] in
    Perm (models m) (map (λ e. e.1) m)
    × Ascending (models m)
    × All (λ s. find s.model_id m ≡ found s) (models m)
models_sorted_example = models_sorted (add_all specs []) (add_all-IsRegistry specs [] tt)

-- ===== src/ModelManager/Tests.antt =====
-- A manager over two models that do not fit together, and its theorems at concrete inputs.
use mathlib.Core.Option
use adaptive_ai_inference_ru.Prelude.{
  ℕ, ◌+◌, ◌≤◌, ◌≡◌, ◌≢◌, ◌⊎◌, refl, true, false, none, some, List, [], ◌∷◌, arith,
}
use adaptive_ai_inference_ru.Prelude.Bytes.{Bytes, bytes, bytes_eq, bytes_lt}
use adaptive_ai_inference_ru.Prelude.Assoc.{lookup, insert}
use adaptive_ai_inference_ru.Prelude.Sort.{sort}
use adaptive_ai_inference_ru.Status.{success}
use adaptive_ai_inference_ru.ResourceManager.{
  can_reserve, available, reserve, release, make as make_resources,
}
use adaptive_ai_inference_ru.ModelRegistry.{ModelSpec, Models, find}
use adaptive_ai_inference_ru.EvictionPolicy.{lru, lru_less}
use adaptive_ai_inference_ru.Backend.{IModelBackend, results}
use adaptive_ai_inference_ru.ModelManager.{
  ModelState, resident, unloaded, Entry, ModelManager, Outcome, make, model_state,
}
use adaptive_ai_inference_ru.ModelManager.Evict.{
  candidate, candidates, choose, free_memory_for, evict_one, evict_found, evict_resident,
  finish_eviction,
}
use adaptive_ai_inference_ru.ModelManager.Ensure.{
  touch, count_miss, finish_load, load_reserved, load_model, load_missing, miss, ensure_found,
  ensure_resident,
}
use adaptive_ai_inference_ru.ModelManager.Entries.{total, memory_of}
use adaptive_ai_inference_ru.ModelManager.Invariant.{make-IsManager}
use adaptive_ai_inference_ru.ModelManager.Loading.{Ensured, Loads}
use adaptive_ai_inference_ru.ModelManager.Residency.{ensure_resident_total}
use adaptive_ai_inference_ru.ModelManager.Behaviour.{
  IsHit, Decided, ensure_resident-Decided, ensure_resident_fits, ensure_all, ensure_all-make,
}

-- A backend that always succeeds, and counts its calls.
abbrev counting : IModelBackend ℕ
counting = record {
  load = λ s n. (success, n + 1);
  unload = λ id n. (success, n + 1);
  is_loaded = λ id n. false;
  infer = λ r n. (record { status = success; output = none }, n);
  infer_batch = λ rs n. (results [], n);
}

abbrev spec : Bytes → ℕ → ModelSpec
spec id size = record { model_id = id; estimated_memory_bytes = size; estimated_load_cost = 1 }

abbrev registry : Models
registry =
    (bytes "a", spec (bytes "a") 60)
    ∷ (bytes "b", spec (bytes "b") 70)
    ∷ (bytes "c", spec (bytes "c") 170)
    ∷ []

abbrev history : List Bytes
history = bytes "a" ∷ bytes "b" ∷ bytes "c" ∷ bytes "b" ∷ []

abbrev seen : ModelManager × ℕ → ModelState × ModelState × ℕ
seen r = (model_state (bytes "a") r.0, model_state (bytes "b") r.0, r.1)

evicts_for_second :
    Option.map seen (ensure_all counting registry lru history (make 100) 0)
    ≡ some (unloaded, resident, 3)
unfolding ensure_all ensure_resident ensure_found miss load_missing load_model load_reserved
    finish_load touch count_miss make make_resources lookup insert bytes_eq find free_memory_for
    can_reserve available reserve release choose candidates candidate evict_one evict_found
    evict_resident finish_eviction sort lru_less bytes_lt model_state
evicts_for_second = refl

abbrev held : Entry
held = record {
  state = resident;
  estimated_memory_bytes = 60;
  last_used = 1;
  use_count = 1;
  previously_loaded = true;
}

abbrev holding : ModelManager
unfolding make make_resources
holding = record (make 100) {
  resources = record { budget = 100; used = 60 };
  entries = (bytes "a", held) ∷ [];
}

ensure_resident_total_example :
    (r : Outcome ℕ) × (ensure_resident counting registry lru (bytes "a") (make 100) 0 ≡ some r)
    × Ensured (bytes "a") (make 100) r.status r.manager
ensure_resident_total_example =
    ensure_resident_total counting registry lru (bytes "a") (make 100) 0
      (make-IsManager 100 (omega arith))

ensure_resident-Decided_example :
    (r : Outcome ℕ) × (ensure_resident counting registry lru (bytes "c") (make 100) 0 ≡ some r)
    × (((model_state (bytes "c") (make 100) ≡ resident)
          × IsHit counting registry lru (bytes "c") (make 100) 0 r)
        ⊎ ((model_state (bytes "c") (make 100) ≢ resident)
            × Decided counting registry lru (bytes "c") (make 100) 0 r))
ensure_resident-Decided_example =
    ensure_resident-Decided counting registry lru (bytes "c") (make 100) 0
      (make-IsManager 100 (omega arith))

ensure_resident_fits_example :
    (r : Outcome ℕ) × (ensure_resident counting registry lru (bytes "a") (make 100) 0 ≡ some r)
    × Loads (bytes "a") (spec (bytes "a") 60) (make 100) (success, 1) r
    × ((j : Bytes)
        → bytes_eq (bytes "a") j ≡ false
        → lookup j r.manager.entries ≡ lookup j (make 100).entries)
    × (r.manager.metrics.unloads ≡ (make 100).metrics.unloads)
unfolding make make_resources lookup bytes_eq find model_state can_reserve available
ensure_resident_fits_example =
    ensure_resident_fits counting registry lru (bytes "a") (make 100) 0 (spec (bytes "a") 60)
      (make-IsManager 100 (omega arith)) refl refl (omega arith) refl

ensure_all-make_example :
    (r : ModelManager × ℕ) × (ensure_all counting registry lru history (make 100) 0 ≡ some r)
    × (r.0.resources.used ≡ total memory_of r.0.entries)
    × (r.0.resources.used ≤ 100)
ensure_all-make_example = ensure_all-make counting registry lru 100 history 0 (omega arith)

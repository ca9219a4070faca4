-- ===== src/ModelManager/Evict.antt =====
-- src/model_manager.cpp: `evict_one` and `free_memory_for`. The backend, the registry and the
-- eviction policy are the manager's parameters.
use adaptive_ai_inference_ru.Prelude.{
  ℕ, zero, suc, ◌+◌, true, false, Option, none, some, List, [], ◌∷◌, if◌then◌else◌, u64,
}
use adaptive_ai_inference_ru.Prelude.Bytes.{Bytes}
use adaptive_ai_inference_ru.Prelude.Assoc.{lookup}
use adaptive_ai_inference_ru.Status.{ErrorCode, Status, ok, success, error, Result, found, fails}
use adaptive_ai_inference_ru.ResourceManager.{can_reserve, release}
use adaptive_ai_inference_ru.ModelRegistry.{ModelSpec, Models, find}
use adaptive_ai_inference_ru.EvictionPolicy.{EvictionCandidate, IEvictionPolicy}
use adaptive_ai_inference_ru.Backend.{IModelBackend}
use adaptive_ai_inference_ru.ModelManager.{
  unloaded, resident, evicting, Entry, Entries, ResidencyMetrics, ModelManager, Outcome,
  is_resident, put,
}

abbrev pub count_eviction : ResidencyMetrics → ResidencyMetrics
count_eviction c = record c { unloads = u64 (c.unloads + 1); evictions = u64 (c.evictions + 1) }

abbrev pub load_cost : Result ModelSpec → ℕ
load_cost (found spec) = spec.estimated_load_cost
load_cost (fails e) = 1

-- The end of `evict_one`, on the entry found after the unloading.
unfoldable pub finish_eviction :
    {S : Type 0} → EvictionCandidate → Status → Option Entry → ModelManager → S → Outcome S
finish_eviction victim unload_status none m b = record {
  status = error ErrorCode.internal_error "missing entry after eviction";
  manager = m;
  backend = b;
}
finish_eviction victim unload_status (some e) m b =
    if ok unload_status
    then (let (released, left) = release victim.estimated_memory_bytes m.resources in
        let m' = put victim.model_id (record e { state = unloaded }) m in
        record {
          status = released;
          manager =
              if ok released
              then record m' { resources = left; metrics = count_eviction m.metrics }
              else record m' { resources = left };
          backend = b;
        })
    else record {
      status = unload_status;
      manager = put victim.model_id (record e { state = resident }) m;
      backend = b;
    }

unfoldable pub not_resident : {S : Type 0} → ModelManager → S → Outcome S
not_resident m b = record {
  status = error ErrorCode.internal_error "eviction candidate not resident";
  manager = m;
  backend = b;
}

-- What `free_memory_for` collects of the map.
unfoldable pub candidate : Models → Bytes → Entry → EvictionCandidate
candidate registry id e = record {
  model_id = id;
  estimated_memory_bytes = e.estimated_memory_bytes;
  last_used = e.last_used;
  estimated_load_cost = load_cost (find id registry);
  use_count = e.use_count;
}

unfoldable pub candidates : Models → Entries → List EvictionCandidate
candidates registry [] = []
candidates registry ((id, e) ∷ es) =
    if is_resident e.state
    then candidate registry id e ∷ candidates registry es
    else candidates registry es

-- The victim of one round: the first that the policy names, or why there is none.
abbrev pub first_victim : List EvictionCandidate → List EvictionCandidate → Result EvictionCandidate
first_victim [] ordered = fails (error ErrorCode.insufficient_memory "no eviction candidates")
first_victim (c ∷ cs) [] =
    fails (error ErrorCode.insufficient_memory "eviction policy returned no victims")
first_victim (c ∷ cs) (v ∷ vs) = found v

unfoldable pub choose : Models → IEvictionPolicy → ModelManager → Result EvictionCandidate
choose registry policy m =
    let cs = candidates registry m.entries in first_victim cs (policy.order_victims cs)

module _ {S : Type 0} (backend : IModelBackend S) where
  unfoldable pub evict_resident : EvictionCandidate → Entry → ModelManager → S → Outcome S
  evict_resident victim e m b =
      let m' = put victim.model_id (record e { state = evicting }) m in
      let (unload_status, b') = backend.unload victim.model_id b in
      finish_eviction victim unload_status (lookup victim.model_id m'.entries) m' b'

  unfoldable pub evict_found : EvictionCandidate → Option Entry → ModelManager → S → Outcome S
  evict_found victim none m b = not_resident m b
  evict_found victim (some e) m b =
      if is_resident e.state then evict_resident victim e m b else not_resident m b

  unfoldable pub evict_one : EvictionCandidate → ModelManager → S → Outcome S
  evict_one victim m b = evict_found victim (lookup victim.model_id m.entries) m b

module _ {S : Type 0} (backend : IModelBackend S) (registry : Models)
    (policy : IEvictionPolicy) where
  -- The loop, with fuel: `none` if it runs out, which `Free` excludes.
  unfoldable pub free_memory_for : ℕ → ℕ → ModelManager → S → Option (Outcome S)
  free_memory_for zero needed m b = none
  free_memory_for (suc fuel) needed m b = elim (can_reserve needed m.resources) [
    | true ↦ some (record { status = success; manager = m; backend = b })
    | false ↦ elim (choose registry policy m) [
      | fails e ↦ some (record { status = e; manager = m; backend = b })
      | found victim ↦ elim (ok (evict_one backend victim m b).status) [
        | true ↦
            free_memory_for fuel needed (evict_one backend victim m b).manager
              (evict_one backend victim m b).backend
        | false ↦ some (evict_one backend victim m b)
      ]
    ]
  ]

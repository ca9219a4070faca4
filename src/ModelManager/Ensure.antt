-- ===== src/ModelManager/Ensure.antt =====
-- src/model_manager.cpp: `ensure_resident`.
use adaptive_ai_inference_ru.Prelude.{
  ℕ, suc, ◌+◌, Bool, true, Option, none, some, if◌then◌else◌, ltb, length, u64,
}
use adaptive_ai_inference_ru.Prelude.Bytes.{Bytes}
use adaptive_ai_inference_ru.Prelude.Assoc.{lookup, insert}
use adaptive_ai_inference_ru.Status.{ErrorCode, Status, ok, success, error, Result, found, fails}
use adaptive_ai_inference_ru.ResourceManager.{ResourceManager, reserve, release}
use adaptive_ai_inference_ru.ModelRegistry.{ModelSpec, Models, find}
use adaptive_ai_inference_ru.EvictionPolicy.{IEvictionPolicy}
use adaptive_ai_inference_ru.Backend.{IModelBackend}
use adaptive_ai_inference_ru.ModelManager.{
  loading, resident, failed, Entry, ResidencyMetrics, ModelManager, Outcome, is_resident,
  entry_or_new, put,
}
use adaptive_ai_inference_ru.ModelManager.Evict.{free_memory_for}

abbrev pub touched_entry : Entry → ModelManager → Entry
touched_entry e m = record e {
  last_used = u64 (m.touch_counter + 1);
  use_count = u64 (e.use_count + 1);
}

-- The model is there: count the hit, and touch the entry.
unfoldable pub touch : Bytes → Entry → ModelManager → ModelManager
touch id e m = record m {
  entries = insert id (touched_entry e m) m.entries;
  touch_counter = u64 (m.touch_counter + 1);
  metrics = record (m.metrics) { residency_hits = u64 (m.metrics.residency_hits + 1) };
}

unfoldable pub count_miss : ModelManager → ModelManager
count_miss m = record m {
  metrics = record (m.metrics) { residency_misses = u64 (m.metrics.residency_misses + 1) };
}

-- The metrics after a load.
abbrev pub count_load : Bool → ResidencyMetrics → ResidencyMetrics
count_load previously_loaded c = record c {
  loads = u64 (c.loads + 1);
  reloads = if previously_loaded then u64 (c.reloads + 1) else c.reloads;
}

-- The entry of a model that has been loaded.
abbrev pub loaded_entry : ℕ → Entry → Entry
loaded_entry touched e = record e {
  state = resident;
  last_used = touched;
  use_count = u64 (e.use_count + 1);
  previously_loaded = true;
}

-- After `backend_.load`: the entry becomes resident, or failed with its memory given back.
unfoldable pub finish_load :
    {S : Type 0} → Bytes → ModelSpec → Bool → Status → ModelManager → S → Outcome S
finish_load id spec previously_loaded load_status m b =
    let e = entry_or_new (lookup id m.entries) in
    if ok load_status
    then record {
      status = success;
      manager = record m {
        entries = insert id (loaded_entry (u64 (m.touch_counter + 1)) e) m.entries;
        touch_counter = u64 (m.touch_counter + 1);
        metrics = count_load previously_loaded m.metrics;
      };
      backend = b;
    }
    else record {
      status = load_status;
      manager = record m {
        resources = (release spec.estimated_memory_bytes m.resources).1;
        entries = insert id (record e { state = failed }) m.entries;
      };
      backend = b;
    }

abbrev pub too_large : Status
too_large = error ErrorCode.insufficient_memory "model larger than worker memory budget"

abbrev pub map_option :
    {S : Type 0} → Option (Outcome S) → (Outcome S → Outcome S) → Option (Outcome S)
map_option none f = none
map_option (some r) f = some (f r)

module _ {S : Type 0} (backend : IModelBackend S) where
  -- After the reservation: mark the entry as loading, load, and finish.
  unfoldable pub load_reserved : Bytes → ModelSpec → ResourceManager → ModelManager → S → Outcome S
  load_reserved id spec reserved m b =
      let e = entry_or_new (lookup id m.entries) in
      let m' = record m {
        resources = reserved;
        entries =
            insert id
              (record e { state = loading; estimated_memory_bytes = spec.estimated_memory_bytes })
              m.entries;
      } in
      let (load_status, b') = backend.load spec b in
      finish_load id spec e.previously_loaded load_status m' b'

  -- Once memory has been freed. `entries_[id]` makes an entry also if the reservation fails.
  unfoldable pub load_model : Bytes → ModelSpec → Outcome S → Outcome S
  load_model id spec freed =
      let m = freed.manager in
      let (reserve_status, reserved) = reserve spec.estimated_memory_bytes m.resources in
      if ok freed.status
      then (if ok reserve_status then load_reserved id spec reserved m freed.backend else record {
        status = reserve_status;
        manager = put id (entry_or_new (lookup id m.entries)) m;
        backend = freed.backend;
      })
      else freed

module _ {S : Type 0} (backend : IModelBackend S) (registry : Models)
    (policy : IEvictionPolicy) where
  -- A miss on a model of the registry.
  unfoldable pub load_missing : Bytes → ModelSpec → ModelManager → S → Option (Outcome S)
  load_missing id spec m b =
      if ltb m.resources.budget spec.estimated_memory_bytes
      then some (record { status = too_large; manager = m; backend = b })
      else map_option
          (free_memory_for backend registry policy (suc (length m.entries))
            spec.estimated_memory_bytes m b)
          (load_model backend id spec)

  unfoldable pub miss : Bytes → Result ModelSpec → ModelManager → S → Option (Outcome S)
  miss id (fails e) m b = some (record { status = e; manager = m; backend = b })
  miss id (found spec) m b = load_missing id spec m b

  unfoldable pub ensure_found : Bytes → Option Entry → ModelManager → S → Option (Outcome S)
  ensure_found id none m b = miss id (find id registry) (count_miss m) b
  ensure_found id (some e) m b =
      if is_resident e.state
      then some (record { status = success; manager = touch id e m; backend = b })
      else miss id (find id registry) (count_miss m) b

  unfoldable pub ensure_resident : Bytes → ModelManager → S → Option (Outcome S)
  ensure_resident id m b = ensure_found id (lookup id m.entries) m b

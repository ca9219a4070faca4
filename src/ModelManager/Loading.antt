-- ===== src/ModelManager/Loading.antt =====
-- Loading a model into reserved memory, whether the backend succeeds or not.
use adaptive_ai_inference_ru.Prelude.{
  ℕ, ◌+◌, ◌≤◌, ◌≡◌, refl, true, false, Option, none, some, arith, inl, inr, Bool-cases, u64, ◌⊎◌,
}
use adaptive_ai_inference_ru.Prelude.Bytes.{Bytes}
use adaptive_ai_inference_ru.Prelude.Assoc.{lookup, insert}
use adaptive_ai_inference_ru.Status.{Status, ok, success}
use adaptive_ai_inference_ru.ResourceManager.{
  ResourceManager, available, can_reserve, reserve, release,
}
use adaptive_ai_inference_ru.ModelRegistry.{ModelSpec}
use adaptive_ai_inference_ru.Backend.{IModelBackend}
use adaptive_ai_inference_ru.ModelManager.{
  loading, resident, failed, Entry, ModelManager, Outcome, is_resident, state_of, entry_or_new,
}
use adaptive_ai_inference_ru.ModelManager.Ensure.{
  count_load, finish_load, loaded_entry, load_reserved,
}
use adaptive_ai_inference_ru.ModelManager.Entries.{
  memory_of, resident_of, busy_of, total, total-insert, weight_at, weight_at-le, insert-Distinct,
  lookup-insert_self,
}
use adaptive_ai_inference_ru.ModelManager.Invariant.{IsManager}

abbrev pub IsResident : Bytes → ModelManager → Type 0
IsResident id m = is_resident (state_of (lookup id m.entries)) ≡ true

-- What a call leaves: a sound manager with the same budget, and the model resident on success.
pub record Ensured (id : Bytes) (m : ModelManager) (status : Status) (m' : ModelManager)
    : Type 0 where
  pub sound : IsManager m'
  pub same_budget : m'.resources.budget ≡ m.resources.budget
  pub there : ok status ≡ true → IsResident id m'

-- What a load into room that is there comes to: the backend is asked once. On its success the model is
-- resident, takes its memory and counts as a load; on its failure the answer is that error, the model
-- is marked as failed, and the memory is as before.
abbrev pub Loads : {S : Type 0} → Bytes → ModelSpec → ModelManager → Status × S → Outcome S → Type 0
Loads id spec m (st, b) r =
    (r.backend ≡ b)
    × (((ok st ≡ true)
          × (r.status ≡ success)
          × (state_of (lookup id r.manager.entries) ≡ resident)
          × (r.manager.resources.used ≡ m.resources.used + spec.estimated_memory_bytes)
          × (r.manager.metrics.loads ≡ u64 (m.metrics.loads + 1)))
        ⊎ ((ok st ≡ false)
            × (r.status ≡ st)
            × (state_of (lookup id r.manager.entries) ≡ failed)
            × (r.manager.resources ≡ m.resources)
            × (r.manager.metrics.loads ≡ m.metrics.loads)))

module _ (id : Bytes) (spec : ModelSpec) (m : ModelManager) (i : IsManager m)
    (out : is_resident (state_of (lookup id m.entries)) ≡ false)
    (room : can_reserve spec.estimated_memory_bytes m.resources ≡ true) where
  old : Entry
  old = entry_or_new (lookup id m.entries)

  abbrev start : Entry
  start = record (entry_or_new (lookup id m.entries)) {
    state = loading;
    estimated_memory_bytes = spec.estimated_memory_bytes;
  }

  pub reserved : ResourceManager
  reserved = record (m.resources) { used = m.resources.used + spec.estimated_memory_bytes }

  -- The sums after the writes to loading and to `x`, by a weight that the old entry does not have.
  total-loaded :
      (w : Entry → ℕ) (x : Entry)
      → weight_at w (lookup id m.entries) ≡ 0
      → total w (insert id x (insert id start m.entries)) ≡ total w m.entries + w x
  total-loaded w x z = ground (
    arith,
    total-insert w id start m.entries,
    total-insert w id x (insert id start m.entries),
    lookup-insert_self id start m.entries,
  )

  weight_out : (o : Option Entry) → is_resident (state_of o) ≡ false → weight_at memory_of o ≡ 0
  weight_out none h = refl
  weight_out (some e) h = rw h

  resident_out : (o : Option Entry) → is_resident (state_of o) ≡ false → weight_at resident_of o ≡ 0
  resident_out none h = refl
  resident_out (some e) h = rw h

  fits_budget : m.resources.used + spec.estimated_memory_bytes ≤ m.resources.budget
  unfolding can_reserve available
  fits_budget = ground (arith, i.fits, i.within, room)

  pub reserve_granted : reserve spec.estimated_memory_bytes m.resources ≡ (success, reserved)
  unfolding reserve available reserved
  reserve_granted = ground (arith, i.fits, i.within, fits_budget)

  -- The manager with the model loaded, or its loading failed.
  abbrev loaded : ModelManager
  loaded = record m {
    resources = reserved;
    entries =
        insert id (loaded_entry (u64 (m.touch_counter + 1)) start) (insert id start m.entries);
    touch_counter = u64 (m.touch_counter + 1);
    metrics = count_load (entry_or_new (lookup id m.entries)).previously_loaded m.metrics;
  }

  abbrev not_loaded : ModelManager
  not_loaded = record m {
    entries = insert id (record start { state = failed }) (insert id start m.entries);
  }

  loaded-Ensured : Ensured id m success loaded
  unfolding reserved
  loaded-Ensured =
      let x = loaded_entry (u64 (m.touch_counter + 1)) start in
      record {
        sound = record {
          fits = i.fits;
          accounted =
              ground (
                arith,
                i.accounted,
                total-loaded memory_of x (weight_out (lookup id m.entries) out),
              );
          within = fits_budget;
          settled =
              ground (arith, i.settled, total-loaded busy_of x, weight_at-le busy_of id m.entries);
          counted = ground (
            arith,
            i.counted,
            total-loaded resident_of x (resident_out (lookup id m.entries) out),
          );
          evicted = i.evicted;
          distinct = insert-Distinct id x _ (insert-Distinct id start m.entries i.distinct);
        };
        same_budget = refl;
        there = λ _. rw (lookup-insert_self id x (insert id start m.entries)) refl;
      }

  not_loaded-Ensured : (st : Status) → ok st ≡ false → Ensured id m st not_loaded
  not_loaded-Ensured st f =
      let x = record start { state = failed } in
      record {
        sound = record {
          fits = i.fits;
          accounted =
              ground (
                arith,
                i.accounted,
                total-loaded memory_of x (weight_out (lookup id m.entries) out),
              );
          within = i.within;
          settled =
              ground (arith, i.settled, total-loaded busy_of x, weight_at-le busy_of id m.entries);
          counted = ground (
            arith,
            i.counted,
            total-loaded resident_of x (resident_out (lookup id m.entries) out),
          );
          evicted = i.evicted;
          distinct = insert-Distinct id x _ (insert-Distinct id start m.entries i.distinct);
        };
        same_budget = refl;
        there = λ t. cc;
      }

  abbrev started : ModelManager
  started = record m { resources = reserved; entries = insert id start m.entries }

  finish_loaded :
      {S : Type 0} (st : Status) (b : S)
      → ok st ≡ true
      → finish_load id spec (entry_or_new (lookup id m.entries)).previously_loaded st started b
        ≡ record { status = success; manager = loaded; backend = b }
  unfolding finish_load
  finish_loaded st b h = rw (h, lookup-insert_self id start m.entries)

  release-reserved : (release spec.estimated_memory_bytes reserved).1 ≡ m.resources
  unfolding release reserved
  release-reserved = ground arith

  finish_not_loaded :
      {S : Type 0} (st : Status) (b : S)
      → ok st ≡ false
      → finish_load id spec (entry_or_new (lookup id m.entries)).previously_loaded st started b
        ≡ record { status = st; manager = not_loaded; backend = b }
  unfolding finish_load
  finish_not_loaded st b h = rw (h, lookup-insert_self id start m.entries, release-reserved)

  pub load_reserved-Ensured :
      {S : Type 0} (backend : IModelBackend S) (b : S)
      → let r = load_reserved backend id spec reserved m b in Ensured id m r.status r.manager
  unfolding load_reserved
  load_reserved-Ensured backend b =
      let (st, b') = backend.load spec b in
      elim (Bool-cases (ok st)) [
        | inl t ↦ rw (finish_loaded st b' t) loaded-Ensured
        | inr f ↦ rw (finish_not_loaded st b' f) (not_loaded-Ensured st f)
      ]

  pub load_reserved-Loads :
      {S : Type 0} (backend : IModelBackend S) (b : S)
      → Loads id spec m (backend.load spec b) (load_reserved backend id spec reserved m b)
  unfolding load_reserved reserved
  load_reserved-Loads backend b =
      let (st, b') = backend.load spec b in
      let x = loaded_entry (u64 (m.touch_counter + 1)) start in
      elim (Bool-cases (ok st)) [
        | inl t ↦ rw (finish_loaded st b' t) (
          refl,
          inl (t, refl, rw (lookup-insert_self id x (insert id start m.entries)) refl, refl, refl),
        )
        | inr f ↦ rw (finish_not_loaded st b' f) (
          refl,
          inr (
            f,
            refl,
            rw (lookup-insert_self id (record start { state = failed }) (insert id start m.entries))
                refl,
            refl,
            refl,
          ),
        )
      ]

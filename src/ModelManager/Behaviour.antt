-- ===== src/ModelManager/Behaviour.antt =====
-- `ensure_resident` branch by branch: hits, refusals, and loads that fit; and whole histories.
use mathlib.Core.Option.{some-injective}
use adaptive_ai_inference_ru.Prelude.{
  ℕ, ◌+◌, ◌^◌, ◌≤◌, ◌<◌, ◌≡◌, refl, Bool, true, false, Option, none, some, List, [], ◌∷◌, arith,
  inl, inr, Bool-cases, ◌∙◌, ◌⊎◌, ◌≢◌, sym, subst, u64, ltb, ltb→lt, ap,
}
use adaptive_ai_inference_ru.Prelude.Bytes.{Bytes, bytes_eq, bytes_eq_iff}
use adaptive_ai_inference_ru.Prelude.Assoc.{lookup, lookup-insert}
use adaptive_ai_inference_ru.Status.{ErrorCode, Status, ok, success, Result, found, fails}
use adaptive_ai_inference_ru.ResourceManager.{
  ResourceManager, can_reserve, reserve, make as make_resources,
}
use adaptive_ai_inference_ru.ModelRegistry.{ModelSpec, Models, find}
use adaptive_ai_inference_ru.EvictionPolicy.{IEvictionPolicy}
use adaptive_ai_inference_ru.Backend.{IModelBackend}
use adaptive_ai_inference_ru.ModelManager.{
  resident, Entry, ModelManager, Outcome, is_resident, state_of, model_state, make, use_count,
}
use adaptive_ai_inference_ru.ModelManager.Evict.{free_memory_for}
use adaptive_ai_inference_ru.ModelManager.Ensure.{
  touched_entry, touch, count_miss, finish_load, load_reserved, load_model, load_missing, miss,
  ensure_found, ensure_resident, too_large,
}
use adaptive_ai_inference_ru.ModelManager.Entries.{
  total, memory_of, lookup-insert_self, lookup-insert_ne,
}
use adaptive_ai_inference_ru.ModelManager.Invariant.{IsManager, make-IsManager}
use adaptive_ai_inference_ru.ModelManager.Loading.{Loads, load_reserved-Loads, reserve_granted}
use adaptive_ai_inference_ru.ModelManager.Residency.{ensure_resident_total, count_miss-IsManager}

finish_load-others :
    {S : Type 0} (id : Bytes) (spec : ModelSpec) (p : Bool) (st : Status) (m : ModelManager) (b : S)
    (j : Bytes)
    → bytes_eq id j ≡ false
    → lookup j (finish_load id spec p st m b).manager.entries ≡ lookup j m.entries
unfolding finish_load
finish_load-others id spec p st m b j h = elim (Bool-cases (ok st)) [
  | inl t ↦ rw t (lookup-insert_ne id j _ m.entries h)
  | inr f ↦ rw f (lookup-insert_ne id j _ m.entries h)
]

load_reserved-others :
    {S : Type 0} (backend : IModelBackend S) (id : Bytes) (spec : ModelSpec) (res : ResourceManager)
    (m : ModelManager) (b : S) (j : Bytes)
    → bytes_eq id j ≡ false
    → lookup j (load_reserved backend id spec res m b).manager.entries ≡ lookup j m.entries
unfolding load_reserved
load_reserved-others backend id spec res m b j h =
    finish_load-others id spec _ _ _ _ j h ∙ lookup-insert_ne id j _ m.entries h

load_model-others :
    {S : Type 0} (backend : IModelBackend S) (id : Bytes) (spec : ModelSpec) (freed : Outcome S)
    (j : Bytes)
    → bytes_eq id j ≡ false
    → lookup j (load_model backend id spec freed).manager.entries ≡ lookup j freed.manager.entries
unfolding load_model
load_model-others backend id spec freed j h = elim (Bool-cases (ok freed.status)) [
  | inl t ↦ elim (Bool-cases (ok (reserve spec.estimated_memory_bytes freed.manager.resources).0)) [
    | inl g ↦ rw (t, g) (load_reserved-others backend id spec _ freed.manager freed.backend j h)
    | inr n ↦ rw (t, n) (lookup-insert_ne id j _ freed.manager.entries h)
  ]
  | inr f ↦ rw f
]

load_model-unloads :
    {S : Type 0} (backend : IModelBackend S) (id : Bytes) (spec : ModelSpec) (freed : Outcome S)
    → (load_model backend id spec freed).manager.metrics.unloads ≡ freed.manager.metrics.unloads
unfolding load_model load_reserved finish_load
load_model-unloads backend id spec freed = ground arith

module _ {S : Type 0} (backend : IModelBackend S) (registry : Models)
    (policy : IEvictionPolicy) where
  -- A hit: a success without the backend; no model changes its state, the memory is as it was, and
  -- the use and the hit are counted, and no miss.
  abbrev pub IsHit : Bytes → ModelManager → S → Outcome S → Type 0
  IsHit id m b r =
      (r.status ≡ success)
      × (r.backend ≡ b)
      × ((j : Bytes) → model_state j r.manager ≡ model_state j m)
      × (r.manager.resources ≡ m.resources)
      × (use_count id r.manager ≡ u64 (use_count id m + 1))
      × (r.manager.metrics.residency_hits ≡ u64 (m.metrics.residency_hits + 1))
      × (r.manager.metrics.residency_misses ≡ m.metrics.residency_misses)

  -- A refusal with that error: nothing changes but for one more miss.
  abbrev pub IsRefusal : ModelManager → S → Status → Outcome S → Type 0
  IsRefusal m b e r =
      (r.status ≡ e)
      × (r.backend ≡ b)
      × (r.manager ≡ record m {
        metrics = record (m.metrics) { residency_misses = u64 (m.metrics.residency_misses + 1) };
      })

  touch-IsHit :
      (id : Bytes) (m : ModelManager) (b : S) (e : Entry)
      → lookup id m.entries ≡ some e
      → e.state ≡ resident
      → IsHit id m b (record { status = success; manager = touch id e m; backend = b })
  unfolding model_state touch use_count
  touch-IsHit id m b e h s = (
    refl,
    refl,
    λ j. ground (arith, lookup-insert id j (touched_entry e m) m.entries, bytes_eq_iff id j),
    refl,
    rw (lookup-insert_self id (touched_entry e m) m.entries, h) refl,
    refl,
    refl,
  )

  ensure_found-miss :
      (id : Bytes) (o : Option Entry) (m : ModelManager) (b : S)
      → is_resident (state_of o) ≡ false
      → ensure_found backend registry policy id o m b
        ≡ miss backend registry policy id (find id registry) (count_miss m) b
  unfolding ensure_found
  ensure_found-miss id none m b out = refl
  ensure_found-miss id (some e) m b out = rw out

  -- How a miss is answered that the registry or the budget decides.
  abbrev pub Decided : Bytes → ModelManager → S → Outcome S → Type 0
  Decided id m b r =
      ((e : Status) × (find id registry ≡ fails e) × IsRefusal m b e r)
      ⊎ ((spec : ModelSpec) × (find id registry ≡ found spec)
          × (((m.resources.budget < spec.estimated_memory_bytes)
                × (r.status.code ≡ ErrorCode.insufficient_memory)
                × IsRefusal m b r.status r)
              ⊎ (spec.estimated_memory_bytes ≤ m.resources.budget)))

  miss-Decided :
      (id : Bytes) (answer : Result ModelSpec) (m : ModelManager) (b : S) (r : Outcome S)
      → find id registry ≡ answer
      → miss backend registry policy id answer (count_miss m) b ≡ some r
      → Decided id m b r
  unfolding miss load_missing count_miss
  miss-Decided id (fails e) m b r q h =
      inl (e, q, subst (IsRefusal m b e) (some-injective _ r h) (refl, refl, refl))
  miss-Decided id (found spec) m b r q h =
      elim (Bool-cases (ltb m.resources.budget spec.estimated_memory_bytes)) [
        | inr f ↦ inr (spec, q, inr (ground arith))
        | inl t ↦
            let same : some (record {
              status = too_large;
              manager = record m {
                metrics = record (m.metrics) {
                  residency_misses = u64 (m.metrics.residency_misses + 1);
                };
              };
              backend = b;
            })
                ≡ some r =
              sym (rw t refl) ∙ h in
            let refused =
              subst
                (λ (o : Outcome S).
                  (o.status.code ≡ ErrorCode.insufficient_memory) × IsRefusal m b o.status o)
                (some-injective _ r same) (refl, (refl, refl, refl)) in
            inr (spec, q, inl (ltb→lt _ _ t, refused.0, refused.1))
      ]

  miss_fits :
      (id : Bytes) (m : ModelManager) (b : S) (spec : ModelSpec)
      → find id registry ≡ found spec
      → spec.estimated_memory_bytes ≤ m.resources.budget
      → can_reserve spec.estimated_memory_bytes m.resources ≡ true
      → miss backend registry policy id (find id registry) (count_miss m) b
        ≡ some (
            load_model backend id spec
              (record { status = success; manager = count_miss m; backend = b }))
  unfolding miss load_missing count_miss free_memory_for
  miss_fits id m b spec q fits room = rw q (ground arith)

  load_model-Loads :
      (id : Bytes) (m : ModelManager) (b : S) (spec : ModelSpec)
      → IsManager m
      → is_resident (state_of (lookup id m.entries)) ≡ false
      → can_reserve spec.estimated_memory_bytes m.resources ≡ true
      → Loads id spec m (backend.load spec b) (
          load_model backend id spec
            (record { status = success; manager = count_miss m; backend = b }))
  unfolding load_model count_miss
  load_model-Loads id m b spec i out room =
      let i' : IsManager (count_miss m) = count_miss-IsManager m i in
      rw (reserve_granted id spec _ i' out room)
        (load_reserved-Loads id spec _ i' out room backend b)

  abbrev IsAnswer : Bytes → ModelManager → S → Outcome S → Type 0
  IsAnswer id m b r =
      ((model_state id m ≡ resident) × IsHit id m b r)
      ⊎ ((model_state id m ≢ resident) × Decided id m b r)

  ensure_found-IsAnswer :
      (id : Bytes) (m : ModelManager) (b : S) (r : Outcome S) (o : Option Entry)
      → lookup id m.entries ≡ o
      → ensure_found backend registry policy id o m b ≡ some r
      → IsAnswer id m b r
  unfolding ensure_found model_state
  ensure_found-IsAnswer id m b r none q h =
      inr ((λ s. ground arith), miss-Decided id (find id registry) m b r refl h)
  ensure_found-IsAnswer id m b r (some e) q h = elim (Bool-cases (is_resident e.state)) [
    | inl t ↦
        let there : e.state ≡ resident = ground arith in
        inl (
          ap state_of q ∙ there,
          subst (IsHit id m b) (some-injective _ r (sym (rw t refl) ∙ h))
              (touch-IsHit id m b e q there),
        )
    | inr f ↦
        inr
          ((λ s. ground arith), miss-Decided id (find id registry) m b r refl (sym (rw f refl) ∙ h))
  ]

  -- On a sound manager ensure_resident comes to an answer. For a model that is resident it is a
  -- success without the backend, where no model changes its state, the memory is as it was, and the
  -- use and the hit are counted and no miss. For any other that the registry does not know it is the
  -- registry's error, and for one that is larger than the whole budget InsufficientMemory: the
  -- backend is not called, and nothing changes but for one more miss.
  pub ensure_resident-Decided :
      (id : Bytes) (m : ModelManager) (b : S)
      → IsManager m
      → (r : Outcome S) × (ensure_resident backend registry policy id m b ≡ some r)
        × (((model_state id m ≡ resident) × IsHit id m b r)
            ⊎ ((model_state id m ≢ resident) × Decided id m b r))
  ensure_resident-Decided id m b i =
      let (r, e, g) = ensure_resident_total backend registry policy id m b i in
      (
        r,
        e,
        ensure_found-IsAnswer id m b r (lookup id m.entries) refl (unfold ensure_resident in e),
      )

  -- A model of the registry that is not resident and fits in what is left of the budget is loaded
  -- without evicting: the backend is asked to load it once; on its success the model is resident,
  -- takes its memory and counts as a load; on its failure the answer is its error, the model is marked
  -- as failed and the memory is as before. Either way the entries of all other models stay as they
  -- were, and nothing is unloaded.
  pub ensure_resident_fits :
      (id : Bytes) (m : ModelManager) (b : S) (spec : ModelSpec)
      → IsManager m
      → is_resident (model_state id m) ≡ false
      → find id registry ≡ found spec
      → spec.estimated_memory_bytes ≤ m.resources.budget
      → can_reserve spec.estimated_memory_bytes m.resources ≡ true
      → (r : Outcome S) × (ensure_resident backend registry policy id m b ≡ some r)
        × Loads id spec m (backend.load spec b) r
        × ((j : Bytes) → bytes_eq id j ≡ false → lookup j r.manager.entries ≡ lookup j m.entries)
        × (r.manager.metrics.unloads ≡ m.metrics.unloads)
  unfolding ensure_resident model_state
  ensure_resident_fits id m b spec i out q fits room =
      let freed : Outcome S = record { status = success; manager = count_miss m; backend = b } in
      (
        load_model backend id spec freed,
        ensure_found-miss id (lookup id m.entries) m b out ∙ miss_fits id m b spec q fits room,
        load_model-Loads id m b spec i out room,
        unfold count_miss in load_model-others backend id spec freed,
        unfold count_miss in load_model-unloads backend id spec freed,
      )

  -- A history of calls, each on what the one before left.
  unfoldable pub ensure_all : List Bytes → ModelManager → S → Option (ModelManager × S)
  ensure_all [] m b = some (m, b)
  ensure_all (id ∷ ids) m b = elim (ensure_resident backend registry policy id m b) [
    | none ↦ none
    | some r ↦ ensure_all ids r.manager r.backend
  ]

  ensure_all-IsManager :
      (ids : List Bytes) (m : ModelManager) (b : S)
      → IsManager m
      → (r : ModelManager × S) × (ensure_all ids m b ≡ some r)
        × IsManager r.0
        × (r.0.resources.budget ≡ m.resources.budget)
  unfolding ensure_all
  ensure_all-IsManager [] m b i = ((m, b), refl, i, refl)
  ensure_all-IsManager (id ∷ ids) m b i =
      let (r, e, g) = ensure_resident_total backend registry policy id m b i in
      let (r', e', i', q) = ensure_all-IsManager ids r.manager r.backend g.sound in
      (r', ground (arith, e, e'), i', q ∙ g.same_budget)

  -- From a new manager with a 64-bit budget, any history of calls runs to its end, whatever the
  -- backend answers: the memory used is that of the resident models and stays within the budget.
  pub ensure_all-make :
      (budget : ℕ) (ids : List Bytes) (b : S)
      → budget < 2 ^ 64
      → (r : ModelManager × S) × (ensure_all ids (make budget) b ≡ some r)
        × (r.0.resources.used ≡ total memory_of r.0.entries)
        × (r.0.resources.used ≤ budget)
  unfolding make make_resources
  ensure_all-make budget ids b h =
      let (r, e, i, q) = ensure_all-IsManager ids (make budget) b (make-IsManager budget h) in
      (r, e, i.accounted, omega (arith, i.within, q))

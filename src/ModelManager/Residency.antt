-- ===== src/ModelManager/Residency.antt =====
-- `ensure_resident` always returns, keeps the invariant, and on success the model is resident.
use adaptive_ai_inference_ru.Prelude.{
  suc, ◌+◌, ◌≡◌, refl, true, false, Option, none, some, arith, inl, inr, Bool-cases, ◌∙◌, length,
  u64, ltb,
}
use adaptive_ai_inference_ru.Prelude.Bytes.{Bytes}
use adaptive_ai_inference_ru.Prelude.Assoc.{lookup}
use adaptive_ai_inference_ru.Status.{Status, ok, success, Result, found, fails}
use adaptive_ai_inference_ru.ModelRegistry.{ModelSpec, Models, find}
use adaptive_ai_inference_ru.EvictionPolicy.{IEvictionPolicy}
use adaptive_ai_inference_ru.Backend.{IModelBackend}
use adaptive_ai_inference_ru.ModelManager.{Entry, ModelManager, Outcome, is_resident, state_of}
use adaptive_ai_inference_ru.ModelManager.Ensure.{
  touch, count_miss, load_model, load_missing, miss, ensure_found, ensure_resident, too_large,
}
use adaptive_ai_inference_ru.ModelManager.Entries.{
  memory_of, resident_of, busy_of, total-insert, total_resident-le, insert-Distinct,
  lookup-insert_self,
}
use adaptive_ai_inference_ru.ModelManager.Invariant.{IsManager}
use adaptive_ai_inference_ru.ModelManager.Free.{Freed, free_memory_for-total}
use adaptive_ai_inference_ru.ModelManager.Loading.{Ensured, load_reserved-Ensured, reserve_granted}

-- A hit.
touch-Ensured :
    (id : Bytes) (e : Entry) (m : ModelManager)
    → IsManager m
    → lookup id m.entries ≡ some e
    → is_resident e.state ≡ true
    → Ensured id m success (touch id e m)
unfolding touch
touch-Ensured id e m i h r =
    let x = record e { last_used = u64 (m.touch_counter + 1); use_count = u64 (e.use_count + 1) } in
    record {
      sound = record {
        fits = i.fits;
        accounted = ground (arith, i.accounted, total-insert memory_of id x m.entries);
        within = i.within;
        settled = ground (arith, i.settled, total-insert busy_of id x m.entries);
        counted = ground (arith, i.counted, total-insert resident_of id x m.entries);
        evicted = i.evicted;
        distinct = insert-Distinct id x m.entries i.distinct;
      };
      same_budget = refl;
      there = λ _. rw (lookup-insert_self id x m.entries) r;
    }

pub count_miss-IsManager : (m : ModelManager) → IsManager m → IsManager (count_miss m)
unfolding count_miss
count_miss-IsManager m i = record {
  fits = i.fits;
  accounted = i.accounted;
  within = i.within;
  settled = i.settled;
  counted = i.counted;
  evicted = i.evicted;
  distinct = i.distinct;
}

-- Once memory has been freed for it.
load_model-Ensured :
    {S : Type 0} (backend : IModelBackend S) (id : Bytes) (spec : ModelSpec) (m : ModelManager)
    (freed : Outcome S)
    → is_resident (state_of (lookup id m.entries)) ≡ false
    → Freed spec.estimated_memory_bytes m freed.status freed.manager
    → let r = load_model backend id spec freed in Ensured id m r.status r.manager
unfolding load_model
load_model-Ensured backend id spec m freed out fr = elim (Bool-cases (ok freed.status)) [
  | inl t ↦
      let g = reserve_granted id spec freed.manager fr.sound (fr.none_new id out) (fr.room t) in
      let e =
        load_reserved-Ensured id spec freed.manager fr.sound (fr.none_new id out) (fr.room t)
          backend freed.backend in
      rw (t, g)
        (record { sound = e.sound; same_budget = e.same_budget ∙ fr.same_budget; there = e.there })
  | inr f ↦ rw f (record { sound = fr.sound; same_budget = fr.same_budget; there = λ t. cc })
]

module _ {S : Type 0} (backend : IModelBackend S) (registry : Models)
    (policy : IEvictionPolicy) where
  -- A result that a call gives, and what it leaves.
  abbrev pub Ensures : Bytes → ModelManager → Option (Outcome S) → Type 0
  Ensures id m o = (r : Outcome S) × (o ≡ some r) × Ensured id m r.status r.manager

  load_missing-Ensures :
      (id : Bytes) (spec : ModelSpec) (m : ModelManager) (b : S)
      → IsManager m
      → is_resident (state_of (lookup id m.entries)) ≡ false
      → Ensures id m (load_missing backend registry policy id spec m b)
  unfolding load_missing
  load_missing-Ensures id spec m b i out =
      elim (Bool-cases (ltb m.resources.budget spec.estimated_memory_bytes)) [
        | inl t ↦ (
          record { status = too_large; manager = m; backend = b },
          rw t,
          record { sound = i; same_budget = refl; there = λ t. cc },
        )
        | inr f ↦
            let (r, e, fr) =
              free_memory_for-total backend registry policy (suc (length m.entries))
                spec.estimated_memory_bytes m b i (omega (arith, total_resident-le m.entries)) in
            (load_model backend id spec r, rw (f, e), load_model-Ensured backend id spec m r out fr)
      ]

  find-fails : (id : Bytes) (e : Status) → find id registry ≡ fails e → ok e ≡ false
  unfolding find
  find-fails id e h = ground arith

  miss-Ensures :
      (id : Bytes) (found_spec : Result ModelSpec) (m : ModelManager) (b : S)
      → find id registry ≡ found_spec
      → IsManager m
      → is_resident (state_of (lookup id m.entries)) ≡ false
      → Ensures id m (miss backend registry policy id found_spec m b)
  unfolding miss
  miss-Ensures id (fails e) m b q i out =
      let f = find-fails id e q in
      (
        record { status = e; manager = m; backend = b },
        refl,
        record { sound = i; same_budget = refl; there = λ t. cc },
      )
  miss-Ensures id (found spec) m b q i out = load_missing-Ensures id spec m b i out

  counted-Ensures :
      (id : Bytes) (m : ModelManager) (o : Option (Outcome S))
      → Ensures id (count_miss m) o
      → Ensures id m o
  unfolding count_miss
  counted-Ensures id m o (r, q, e) =
      (r, q, record { sound = e.sound; same_budget = e.same_budget; there = e.there })

  ensure_found-Ensures :
      (id : Bytes) (o : Option Entry) (m : ModelManager) (b : S)
      → lookup id m.entries ≡ o
      → IsManager m
      → Ensures id m (ensure_found backend registry policy id o m b)
  unfolding ensure_found
  ensure_found-Ensures id none m b q i = counted-Ensures id m _ (
      miss-Ensures id (find id registry) (count_miss m) b refl (count_miss-IsManager m i)
        (unfold count_miss in rw q refl))
  ensure_found-Ensures id (some e) m b q i = elim (Bool-cases (is_resident e.state)) [
    | inl r ↦ (
      record { status = success; manager = touch id e m; backend = b },
      rw r,
      touch-Ensured id e m i q r,
    )
    | inr n ↦ rw n (
        counted-Ensures id m _ (
          miss-Ensures id (find id registry) (count_miss m) b refl (count_miss-IsManager m i)
            (unfold count_miss in rw q n)))
  ]

  -- Whatever the backend answers, `ensure_resident` returns; it keeps the invariant of the
  -- manager and the budget; and if its status is a success the model is resident.
  pub ensure_resident_total :
      (id : Bytes) (m : ModelManager) (b : S)
      → IsManager m
      → (r : Outcome S) × (ensure_resident backend registry policy id m b ≡ some r)
        × Ensured id m r.status r.manager
  unfolding ensure_resident
  ensure_resident_total id m b i = ensure_found-Ensures id (lookup id m.entries) m b refl i

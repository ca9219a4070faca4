-- ===== src/ModelManager/Eviction.antt =====
-- One eviction keeps the invariant, whatever the backend answers.

use adaptive_ai_inference_ru.Prelude.{
  ℕ, ◌+◌, ◌-◌, ◌≤◌, ◌≡◌, refl, true, false, Option, none, some, arith, ltb, inl, inr, Bool-cases,
}
use adaptive_ai_inference_ru.Prelude.Bytes.{Bytes, bytes_eq_iff}
use adaptive_ai_inference_ru.Prelude.Assoc.{lookup, insert, lookup-insert}
use adaptive_ai_inference_ru.Status.{Status, ok, success}
use adaptive_ai_inference_ru.ResourceManager.{release}
use adaptive_ai_inference_ru.EvictionPolicy.{EvictionCandidate}
use adaptive_ai_inference_ru.Backend.{IModelBackend}
use adaptive_ai_inference_ru.ModelManager.{
  unloaded, resident, evicting, Entry, ModelManager, is_resident, put, state_of,
}
use adaptive_ai_inference_ru.ModelManager.Evict.{
  count_eviction, evict_one, evict_found, evict_resident, finish_eviction,
}
use adaptive_ai_inference_ru.ModelManager.Entries.{
  memory_of, resident_of, busy_of, total, total-insert, weight_at-le, insert-Distinct,
  lookup-insert_self,
}
use adaptive_ai_inference_ru.ModelManager.Invariant.{IsManager, is_victim}

-- What an eviction leaves: a sound manager with the same budget, in which every model that was
-- not resident is not; and if it succeeded, one resident model less.
pub record Evicted (m : ModelManager) (status : Status) (m' : ModelManager) : Type 0 where
  pub sound : IsManager m'
  pub same_budget : m'.resources.budget ≡ m.resources.budget
  pub fewer : ok status ≡ true → total resident_of m'.entries + 1 ≡ total resident_of m.entries
  pub none_new :
      (id : Bytes)
      → is_resident (state_of (lookup id m.entries)) ≡ false
      → is_resident (state_of (lookup id m'.entries)) ≡ false

module _ (v : EvictionCandidate) (e : Entry) (m : ModelManager) where
  abbrev marked : Entry
  marked = record e { state = evicting }

  abbrev marked_manager : ModelManager
  marked_manager = put v.model_id marked m

  -- The sums after the two writes of an eviction, to evicting and to the entry `x`.
  total-twice :
      (w : Entry → ℕ) (x : Entry)
      → lookup v.model_id m.entries ≡ some e
      → total w (insert v.model_id x (insert v.model_id marked m.entries)) + w e
        ≡ total w m.entries + w x
  total-twice w x h = ground (
    arith,
    total-insert w v.model_id marked m.entries,
    total-insert w v.model_id x (insert v.model_id marked m.entries),
    lookup-insert_self v.model_id marked m.entries,
  )

  none_new-twice :
      (x : Entry) (id : Bytes)
      → lookup v.model_id m.entries ≡ some e
      → is_resident e.state ≡ true
      → is_resident (state_of (lookup id m.entries)) ≡ false
      → is_resident
          (state_of (lookup id (insert v.model_id x (insert v.model_id marked m.entries))))
        ≡ false
  none_new-twice x id h r n = ground (
    arith,
    lookup-insert v.model_id id x (insert v.model_id marked m.entries),
    lookup-insert v.model_id id marked m.entries,
    bytes_eq_iff v.model_id id,
  )

  -- The manager after an unloading that succeeded, and after one that failed.
  abbrev gone : ModelManager
  gone = record (put v.model_id (record marked { state = unloaded }) marked_manager) {
    resources = record (m.resources) { used = m.resources.used - v.estimated_memory_bytes };
    metrics = count_eviction m.metrics;
  }

  abbrev kept : ModelManager
  kept = put v.model_id (record marked { state = resident }) marked_manager

  finish_gone :
      {S : Type 0} (st : Status) (b : S)
      → ok st ≡ true
      → ltb m.resources.used v.estimated_memory_bytes ≡ false
      → finish_eviction v st (some marked) marked_manager b
        ≡ record { status = success; manager = gone; backend = b }
  unfolding finish_eviction release
  finish_gone st b h k = rw (h, k)

  finish_kept :
      {S : Type 0} (st : Status) (b : S)
      → ok st ≡ false
      → finish_eviction v st (some marked) marked_manager b
        ≡ record { status = st; manager = kept; backend = b }
  unfolding finish_eviction
  finish_kept st b h = rw h

  module _ (i : IsManager m) (h : lookup v.model_id m.entries ≡ some e)
      (r : is_resident e.state ≡ true)
      (s : e.estimated_memory_bytes ≡ v.estimated_memory_bytes) where
    enough_used : v.estimated_memory_bytes ≤ m.resources.used
    enough_used = ground (arith, weight_at-le memory_of v.model_id m.entries, i.accounted)

    gone-IsManager : IsManager gone
    gone-IsManager = record {
      fits = i.fits;
      accounted = ground (
        arith,
        i.accounted,
        enough_used,
        total-twice memory_of (record marked { state = unloaded }) h,
      );
      within = omega (arith, i.within);
      settled =
          ground (arith, i.settled, total-twice busy_of (record marked { state = unloaded }) h);
      counted =
          ground (arith, i.counted, total-twice resident_of (record marked { state = unloaded }) h);
      evicted = ground (arith, i.evicted);
      distinct =
          insert-Distinct v.model_id _ _ (insert-Distinct v.model_id marked m.entries i.distinct);
    }

    kept-IsManager : IsManager kept
    kept-IsManager = record {
      fits = i.fits;
      accounted =
          ground (arith, i.accounted, total-twice memory_of (record marked { state = resident }) h);
      within = i.within;
      settled =
          ground (arith, i.settled, total-twice busy_of (record marked { state = resident }) h);
      counted =
          ground (arith, i.counted, total-twice resident_of (record marked { state = resident }) h);
      evicted = i.evicted;
      distinct =
          insert-Distinct v.model_id _ _ (insert-Distinct v.model_id marked m.entries i.distinct);
    }

    gone-Evicted : Evicted m success gone
    gone-Evicted = record {
      sound = gone-IsManager;
      same_budget = refl;
      fewer = λ _. ground (arith, total-twice resident_of (record marked { state = unloaded }) h);
      none_new = λ id n. none_new-twice (record marked { state = unloaded }) id h r n;
    }

    kept-Evicted : (st : Status) → ok st ≡ false → Evicted m st kept
    kept-Evicted st f = record {
      sound = kept-IsManager;
      same_budget = refl;
      fewer = λ t. cc;
      none_new = λ id n. none_new-twice (record marked { state = resident }) id h r n;
    }

    finish-Evicted :
        {S : Type 0} (st : Status) (b : S)
        → let r = finish_eviction v st (some marked) marked_manager b in
          Evicted m r.status r.manager
    finish-Evicted st b = elim (Bool-cases (ok st)) [
      | inl t ↦ rw (finish_gone st b t (ground (arith, enough_used))) gone-Evicted
      | inr f ↦ rw (finish_kept st b f) (kept-Evicted st f)
    ]

    evict_resident-Evicted :
        {S : Type 0} (backend : IModelBackend S) (b : S)
        → let r = evict_resident backend v e m b in Evicted m r.status r.manager
    unfolding evict_resident
    evict_resident-Evicted backend b =
        rw (lookup-insert_self v.model_id marked m.entries)
          (finish-Evicted (backend.unload v.model_id b).0 (backend.unload v.model_id b).1)

evict_found-Evicted :
    {S : Type 0} (backend : IModelBackend S) (v : EvictionCandidate) (o : Option Entry)
    (m : ModelManager) (b : S)
    → IsManager m
    → lookup v.model_id m.entries ≡ o
    → is_victim v o ≡ true
    → let r = evict_found backend v o m b in Evicted m r.status r.manager
unfolding evict_found
evict_found-Evicted backend v none m b i q t = cc
evict_found-Evicted backend v (some e) m b i q t =
    let r : is_resident e.state ≡ true = ground arith in
    rw r (evict_resident-Evicted v e m i q r (ground arith) backend b)

-- Evicting a candidate that stands for a resident entry, whatever the backend answers, keeps the
-- invariant and the budget; on success one model less is resident, and no model becomes resident.
pub evict_one-Evicted :
    {S : Type 0} (backend : IModelBackend S) (v : EvictionCandidate) (m : ModelManager) (b : S)
    → IsManager m
    → is_victim v (lookup v.model_id m.entries) ≡ true
    → Evicted m (evict_one backend v m b).status (evict_one backend v m b).manager
unfolding evict_one
evict_one-Evicted backend v m b i h =
    evict_found-Evicted backend v (lookup v.model_id m.entries) m b i refl h

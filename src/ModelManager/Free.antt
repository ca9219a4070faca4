-- ===== src/ModelManager/Free.antt =====
-- Making room: the loop of `free_memory_for` ends, and on success there is room.
use mathlib.Core.List.{Mem, Perm, mem-cons, not-mem-nil, mem-cons_self}
use mathlib.Core.List.Perm
use mathlib.Core.Bool.{false≢true}
use mathlib.Core.Logic.Or
use adaptive_ai_inference_ru.Prelude.{
  ℕ, zero, suc, ◌<◌, ◌≡◌, refl, Bool, true, false, some, List, [], ◌∷◌, arith, All, inl, inr,
  Bool-cases, ◌∙◌, ◌⊎◌, sym,
}
use adaptive_ai_inference_ru.Prelude.Bytes.{Bytes}
use adaptive_ai_inference_ru.Prelude.Assoc.{lookup}
use adaptive_ai_inference_ru.Status.{Status, ok, success, Result, found, fails}
use adaptive_ai_inference_ru.ResourceManager.{can_reserve}
use adaptive_ai_inference_ru.ModelRegistry.{Models}
use adaptive_ai_inference_ru.EvictionPolicy.{EvictionCandidate, IEvictionPolicy}
use adaptive_ai_inference_ru.Backend.{IModelBackend}
use adaptive_ai_inference_ru.ModelManager.{ModelManager, Outcome, is_resident, state_of}
use adaptive_ai_inference_ru.ModelManager.Evict.{
  evict_one, candidates, first_victim, choose, free_memory_for,
}
use adaptive_ai_inference_ru.ModelManager.Entries.{resident_of, total}
use adaptive_ai_inference_ru.ModelManager.Invariant.{IsManager, is_victim, candidates-victims}
use adaptive_ai_inference_ru.ModelManager.Eviction.{Evicted, evict_one-Evicted}

bool_prop : (a b : Bool) → IsProp (a ≡ b)
bool_prop = hlevel

-- A fact about a test of every entry holds of any member.
All-mem :
    (f : EvictionCandidate → Bool) (xs : List EvictionCandidate) {v : EvictionCandidate}
    → All (λ x. f x ≡ true) xs
    → Mem v xs
    → f v ≡ true
All-mem f [] h m = absurd (not-mem-nil m)
All-mem f (x ∷ xs) h m = Or.elim (bool_prop _ _) (mem-cons.0 m) (λ e. rw e h.0) (All-mem f xs h.1)

first_victim-mem :
    (cs vs : List EvictionCandidate) (v : EvictionCandidate)
    → first_victim cs vs ≡ found v
    → Perm vs cs
    → Mem v cs
first_victim-mem [] vs v e p = cc
first_victim-mem (c ∷ cs) [] v e p = cc
first_victim-mem (c ∷ cs) (w ∷ ws) v e p =
    let h : v ≡ w = cc in (Perm.mem_iff p).0 (rw h mem-cons_self)

-- The victim that a policy names stands for a resident entry.
choose-is_victim :
    (registry : Models) (policy : IEvictionPolicy) (m : ModelManager) (v : EvictionCandidate)
    → IsManager m
    → choose registry policy m ≡ found v
    → is_victim v (lookup v.model_id m.entries) ≡ true
unfolding choose
choose-is_victim registry policy m v i h =
    let cs = candidates registry m.entries in
    All-mem (λ c. is_victim c (lookup c.model_id m.entries)) cs
      (candidates-victims registry m.entries i.distinct)
      (first_victim-mem cs (policy.order_victims cs) v h (policy.order_victims-perm cs))

-- What the loop leaves of a manager: a sound one with the same budget, no model that was not
-- resident before, and room for what is needed if the status is a success.
pub record Freed (needed : ℕ) (m : ModelManager) (status : Status) (m' : ModelManager)
    : Type 0 where
  pub sound : IsManager m'
  pub same_budget : m'.resources.budget ≡ m.resources.budget
  pub room : ok status ≡ true → can_reserve needed m'.resources ≡ true
  pub none_new :
      (id : Bytes)
      → is_resident (state_of (lookup id m.entries)) ≡ false
      → is_resident (state_of (lookup id m'.entries)) ≡ false

Freed-refl :
    (needed : ℕ) (m : ModelManager) (status : Status)
    → IsManager m
    → (ok status ≡ true → can_reserve needed m.resources ≡ true)
    → Freed needed m status m
Freed-refl needed m status i h = record {
  sound = i;
  same_budget = refl;
  room = h;
  none_new = λ id n. n;
}

Freed-trans :
    (needed : ℕ) (m m' m'' : ModelManager) (s t : Status)
    → Evicted m s m'
    → Freed needed m' t m''
    → Freed needed m t m''
Freed-trans needed m m' m'' s t e f = record {
  sound = f.sound;
  same_budget = f.same_budget ∙ e.same_budget;
  room = f.room;
  none_new = λ id n. f.none_new id (e.none_new id n);
}

Freed-failed :
    (needed : ℕ) (m m' : ModelManager) (s : Status)
    → Evicted m s m'
    → ok s ≡ false
    → Freed needed m s m'
Freed-failed needed m m' s e h = record {
  sound = e.sound;
  same_budget = e.same_budget;
  room = λ t. cc;
  none_new = e.none_new;
}

first_victim-fails :
    (cs vs : List EvictionCandidate) (e : Status) → first_victim cs vs ≡ fails e → ok e ≡ false
first_victim-fails [] vs e h = ground arith
first_victim-fails (c ∷ cs) [] e h = ground arith
first_victim-fails (c ∷ cs) (v ∷ vs) e h = cc

choose-fails :
    (registry : Models) (policy : IEvictionPolicy) (m : ModelManager) (e : Status)
    → choose registry policy m ≡ fails e
    → ok e ≡ false
unfolding choose
choose-fails registry policy m e h =
    first_victim-fails (candidates registry m.entries)
      (policy.order_victims (candidates registry m.entries)) e h

Result-cases :
    (r : Result EvictionCandidate)
    → ((e : Status) × (r ≡ fails e)) ⊎ ((v : EvictionCandidate) × (r ≡ found v))
Result-cases (fails e) = inl (e, refl)
Result-cases (found v) = inr (v, refl)

module _ {S : Type 0} (backend : IModelBackend S) (registry : Models)
    (policy : IEvictionPolicy) where
  -- With more fuel than resident models the loop ends, whatever the backend answers, and what it
  -- leaves is as `Freed` says.
  pub free_memory_for-total :
      (fuel needed : ℕ) (m : ModelManager) (b : S)
      → IsManager m
      → total resident_of m.entries < fuel
      → (r : Outcome S) × (free_memory_for backend registry policy fuel needed m b ≡ some r)
        × Freed needed m r.status r.manager
  unfolding free_memory_for
  free_memory_for-total zero needed m b i lt = elim lt [ ]
  free_memory_for-total (suc fuel) needed m b i lt =
      elim (Bool-cases (can_reserve needed m.resources)) [
        | inl t ↦ (
          record { status = success; manager = m; backend = b },
          ground arith,
          Freed-refl needed m success i (λ _. t),
        )
        | inr f ↦ elim (Result-cases (choose registry policy m)) [
          | inl (e, q) ↦ (
            record { status = e; manager = m; backend = b },
            ground arith,
            Freed-refl needed m e i
                (λ t. absurd (false≢true (sym (choose-fails registry policy m e q) ∙ t))),
          )
          | inr (v, q) ↦
              let ev =
                evict_one-Evicted backend v m b i (choose-is_victim registry policy m v i q) in
              elim (Bool-cases (ok (evict_one backend v m b).status)) [
                | inl t ↦
                    let (r, e, fr) =
                      free_memory_for-total fuel needed (evict_one backend v m b).manager
                        (evict_one backend v m b).backend ev.sound (omega (arith, ev.fewer t)) in
                    (
                      r,
                      ground (arith, e),
                      Freed-trans needed m (evict_one backend v m b).manager r.manager
                          (evict_one backend v m b).status r.status ev fr,
                    )
                | inr n ↦ (
                  evict_one backend v m b,
                  ground arith,
                  Freed-failed needed m (evict_one backend v m b).manager
                      (evict_one backend v m b).status ev n,
                )
              ]
        ]
      ]

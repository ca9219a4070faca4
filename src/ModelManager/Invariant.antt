-- ===== src/ModelManager/Invariant.antt =====
-- What holds of a manager between two calls, and what its candidates stand for.

use adaptive_ai_inference_ru.Prelude.{
  ℕ, ◌+◌, ◌^◌, ◌≤◌, ◌<◌, ◌≡◌, Bool, true, false, ◌&&◌, Option, none, some, [], ◌∷◌, arith, ◌==◌,
  All, All-mono, inl, inr, Bool-cases, u64,
}
use adaptive_ai_inference_ru.Prelude.Bytes.{Bytes, bytes_eq_iff, bytes_eq_refl}
use adaptive_ai_inference_ru.Prelude.Assoc.{lookup}
use adaptive_ai_inference_ru.ResourceManager.{make as make_resources}
use adaptive_ai_inference_ru.ModelRegistry.{Models}
use adaptive_ai_inference_ru.EvictionPolicy.{EvictionCandidate}
use adaptive_ai_inference_ru.ModelManager.{Entry, Entries, ModelManager, is_resident, make}
use adaptive_ai_inference_ru.ModelManager.Evict.{candidate, candidates}
use adaptive_ai_inference_ru.ModelManager.Entries.{
  memory_of, resident_of, busy_of, total, Distinct, total-nil,
}

pub record IsManager (m : ModelManager) : Type 0 where
  pub fits : m.resources.budget < 2 ^ 64
  -- The memory used is that of the resident models.
  pub accounted : m.resources.used ≡ total memory_of m.entries
  pub within : m.resources.used ≤ m.resources.budget
  -- No entry is left loading or evicting.
  pub settled : total busy_of m.entries ≡ 0
  -- Loads less unloads, in 64 bits, is the number of resident models.
  pub counted : m.metrics.loads ≡ u64 (total resident_of m.entries + m.metrics.unloads)
  pub evicted : m.metrics.evictions ≡ m.metrics.unloads
  pub distinct : Distinct m.entries

pub make-IsManager : (budget : ℕ) → budget < 2 ^ 64 → IsManager (make budget)
unfolding make make_resources
make-IsManager budget h =
    ground (arith, total-nil memory_of, total-nil busy_of, total-nil resident_of)

-- The candidate tells the truth about a resident entry.
abbrev pub is_victim : EvictionCandidate → Option Entry → Bool
is_victim v none = false
is_victim v (some e) = is_resident e.state && e.estimated_memory_bytes == v.estimated_memory_bytes

candidates-later :
    (j : Bytes) (x : Entry) (es : Entries) (v : EvictionCandidate)
    → lookup j es ≡ none
    → is_victim v (lookup v.model_id es) ≡ true
    → is_victim v (lookup v.model_id ((j, x) ∷ es)) ≡ true
unfolding lookup
candidates-later j x es v d h = ground (arith, bytes_eq_iff j v.model_id)

candidate-victim :
    (registry : Models) (j : Bytes) (x : Entry) (es : Entries)
    → is_resident x.state ≡ true
    → is_victim (candidate registry j x) (lookup j ((j, x) ∷ es)) ≡ true
unfolding lookup candidate
candidate-victim registry j x es r = ground (arith, bytes_eq_refl j)

-- Every candidate stands for a resident entry of the map, with its size.
pub candidates-victims :
    (registry : Models) (es : Entries)
    → Distinct es
    → All (λ v. is_victim v (lookup v.model_id es) ≡ true) (candidates registry es)
unfolding candidates
candidates-victims registry [] d = tt
candidates-victims registry ((j, x) ∷ es) d =
    let later =
      All-mono (candidates registry es) (λ v. candidates-later j x es v d.0)
        (candidates-victims registry es d.1) in
    elim (Bool-cases (is_resident x.state)) [
      | inl r ↦ rw r (unfold candidate in candidate-victim registry j x es r, later)
      | inr n ↦ rw n later
    ]

-- ===== src/Router/Choice.antt =====
-- Which worker the load-based routers choose.
use mathlib.Core.Bool.{false≢true}
use adaptive_ai_inference_ru.Prelude.{
  ℕ, ◌+◌, ◌≤◌, ◌<◌, ◌≡◌, refl, ◌⊎◌, inl, inr, true, false, none, List, [], ◌∷◌, ap, sym, All,
  All-mono, ◌∙◌, arith, ◌==◌, if◌then◌else◌, u64, Bool-cases,
}
use adaptive_ai_inference_ru.Prelude.Bytes.{Bytes, bytes_eq, bytes_eq_sound, bytes_eq_iff}
use adaptive_ai_inference_ru.Status.{ErrorCode, Status, found, fails}
use adaptive_ai_inference_ru.ModelRegistry.{ModelSpec}
use adaptive_ai_inference_ru.Router.{
  WorkerSnapshot, RoutingResult, is_m2_feasible, least_loaded, result_of, residency_tier,
  RouterMetrics, count_tier, counted, residency_aware, has_id,
}
use adaptive_ai_inference_ru.Router.Minimum.{
  Some, NotAfter, IsLeast, loop-none, tier_loop-loop, least_loop-loop,
}

-- The worker accepts work and its whole budget holds the model.
abbrev pub CanServe : ModelSpec → WorkerSnapshot → Type 0
CanServe model w = (w.accepting ≡ true) × (model.estimated_memory_bytes ≤ w.memory_budget_bytes)

-- `b` is a worker of the list that can serve the model, and none that can comes before it, by tier, then
-- load, then id.
abbrev pub IsBest : ModelSpec → (WorkerSnapshot → ℕ) → WorkerSnapshot → List WorkerSnapshot → Type 0
IsBest model tier b ws =
    Some (λ w. (w ≡ b) × CanServe model w) ws
    × All (λ w. CanServe model w → NotAfter model tier b w) ws

feasible-CanServe :
    (model : ModelSpec) (w : WorkerSnapshot) → is_m2_feasible model w ≡ true → CanServe model w
unfolding is_m2_feasible
feasible-CanServe model w h = (ground arith, ground arith)

CanServe-feasible :
    (model : ModelSpec) (w : WorkerSnapshot) → CanServe model w → is_m2_feasible model w ≡ true
unfolding is_m2_feasible
CanServe-feasible model w h = ground arith

Some-CanServe :
    (model : ModelSpec) (b : WorkerSnapshot) (ws : List WorkerSnapshot)
    → Some (λ w. (w ≡ b) × (is_m2_feasible model w ≡ true)) ws
    → Some (λ w. (w ≡ b) × CanServe model w) ws
Some-CanServe model b [] h = elim h [ ]
Some-CanServe model b (w ∷ ws) (inl (e, f)) = inl (e, feasible-CanServe model w f)
Some-CanServe model b (w ∷ ws) (inr s) = inr (Some-CanServe model b ws s)

IsLeast-IsBest :
    (model : ModelSpec) (tier : WorkerSnapshot → ℕ) (b : WorkerSnapshot) (ws : List WorkerSnapshot)
    → IsLeast model tier b ws
    → IsBest model tier b ws
IsLeast-IsBest model tier b ws (found_there, all) = (
  Some-CanServe model b ws found_there,
  All-mono ws (λ w h can. h (CanServe-feasible model w can)) all,
)

none_CanServe :
    (model : ModelSpec) (ws : List WorkerSnapshot)
    → All (λ w. is_m2_feasible model w ≡ false) ws
    → All (λ w. ¬ (CanServe model w)) ws
none_CanServe model ws = All-mono ws (λ w f can. false≢true (sym f ∙ CanServe-feasible model w can))

-- No worker can serve the model, and the result says so.
abbrev pub Refused : ModelSpec → List WorkerSnapshot → RoutingResult → Type 0
Refused model ws r =
    ((e : Status) × (r ≡ fails e) × (e.code ≡ ErrorCode.no_feasible_worker))
    × All (λ w. ¬ (CanServe model w)) ws

-- The least-loaded router names a feasible worker of the list (it accepts work, and its whole budget
-- holds the model) whose load no feasible one has less than, and the smallest id among those of that
-- load; or it refuses with NoFeasibleWorker, and none is feasible.
pub least_loaded_lem :
    (model : ModelSpec) (ws : List WorkerSnapshot)
    → Refused model ws (least_loaded model ws)
      ⊎ ((b : WorkerSnapshot) × (least_loaded model ws ≡ found b.worker_id)
          × IsBest model (λ _. 0) b ws)
unfolding least_loaded
least_loaded_lem model [] = inl ((_, refl, refl), tt)
least_loaded_lem model (w ∷ ws) = elim (loop-none model (λ _. 0) (w ∷ ws)) [
  | inl (e, no_one) ↦ inl (
    (_, ap result_of (least_loop-loop model (w ∷ ws) none tt ∙ e), refl),
    none_CanServe model (w ∷ ws) no_one,
  )
  | inr (b, e, least) ↦ inr (
    b,
    ap result_of (least_loop-loop model (w ∷ ws) none tt ∙ e),
    IsLeast-IsBest model (λ _. 0) b (w ∷ ws) least,
  )
]

-- The id stands in the list.
abbrev pub Holds : Bytes → List Bytes → Type 0
Holds id [] = ⊥
Holds id (x ∷ xs) = (x ≡ id) ⊎ Holds id xs

-- What a worker is to a model: 0 if the model is resident there, 1 if it is not and fits in the memory
-- that is free, 2 if it neither is resident nor fits.
abbrev pub IsTier : ModelSpec → WorkerSnapshot → ℕ → Type 0
IsTier model w tier =
    (Holds model.model_id w.resident_model_ids × (tier ≡ 0))
    ⊎ (¬ (Holds model.model_id w.resident_model_ids)
        × (((w.memory_used_bytes + model.estimated_memory_bytes ≤ w.memory_budget_bytes)
              × (tier ≡ 1))
            ⊎ ((w.memory_budget_bytes < w.memory_used_bytes + model.estimated_memory_bytes)
                × (tier ≡ 2))))

-- One more selection of that tier, and no other.
abbrev pub Counts : ℕ → RouterMetrics → RouterMetrics → Type 0
Counts tier c c' =
    (c'.resident_selections
      ≡ (if tier == 0 then u64 (c.resident_selections + 1) else c.resident_selections))
    × (c'.no_eviction_load_selections ≡ (
        if tier == 1
        then u64 (c.no_eviction_load_selections + 1)
        else c.no_eviction_load_selections))
    × (c'.eviction_required_selections ≡ (
        if tier == 2
        then u64 (c.eviction_required_selections + 1)
        else c.eviction_required_selections))

has_id-Holds : (id : Bytes) (xs : List Bytes) → has_id id xs ≡ true → Holds id xs
unfolding has_id
has_id-Holds id [] h = absurd (false≢true h)
has_id-Holds id (x ∷ xs) h = elim (Bool-cases (bytes_eq x id)) [
  | inl t ↦ inl (bytes_eq_sound x id t)
  | inr f ↦ inr (has_id-Holds id xs (ground arith))
]

has_id-not_Holds : (id : Bytes) (xs : List Bytes) → has_id id xs ≡ false → ¬ (Holds id xs)
unfolding has_id
has_id-not_Holds id [] h k = k
has_id-not_Holds id (x ∷ xs) h (inl e) = ground (arith, bytes_eq_iff x id)
has_id-not_Holds id (x ∷ xs) h (inr k) = has_id-not_Holds id xs (ground arith) k

residency_tier-IsTier :
    (model : ModelSpec) (w : WorkerSnapshot)
    → 0 < model.estimated_memory_bytes
    → IsTier model w (residency_tier model w)
unfolding residency_tier
residency_tier-IsTier model w positive =
    elim (Bool-cases (has_id model.model_id w.resident_model_ids)) [
      | inl t ↦ inl (has_id-Holds model.model_id w.resident_model_ids t, rw t)
      | inr f ↦ rw f (inr (has_id-not_Holds model.model_id w.resident_model_ids f, ground arith))
    ]

count_tier-Counts :
    (model : ModelSpec) (w : WorkerSnapshot) (tier : ℕ) (c : RouterMetrics)
    → IsTier model w tier
    → Counts tier c (count_tier tier c)
count_tier-Counts model w tier c (inl (h, e)) = rw e (refl, refl, refl)
count_tier-Counts model w tier c (inr (h, inl (k, e))) = rw e (refl, refl, refl)
count_tier-Counts model w tier c (inr (h, inr (k, e))) = rw e (refl, refl, refl)

-- For a model of positive size, the residency-aware router names a feasible worker (it accepts work,
-- and its whole budget holds the model) that is least by tier (the model is resident there; it is
-- not, and fits in the memory that is free; neither), then by load, then by id, and counts one selection of its tier and of no other; or it refuses with NoFeasibleWorker, none is
-- feasible, and it counts nothing.
pub residency_aware_lem :
    (model : ModelSpec) (ws : List WorkerSnapshot) (c : RouterMetrics)
    → 0 < model.estimated_memory_bytes
    → (Refused model ws (residency_aware model ws c).0 × ((residency_aware model ws c).1 ≡ c))
      ⊎ ((b : WorkerSnapshot) × (tier : WorkerSnapshot → ℕ) × ((residency_aware model ws c).0
            ≡ found b.worker_id)
          × ((w : WorkerSnapshot) → IsTier model w (tier w))
          × IsBest model tier b ws
          × Counts (tier b) c (residency_aware model ws c).1)
unfolding residency_aware
residency_aware_lem model [] c positive = inl (((_, refl, refl), tt), refl)
residency_aware_lem model (w ∷ ws) c positive =
    elim (loop-none model (residency_tier model) (w ∷ ws)) [
      | inl (e, no_one) ↦
          let q = tier_loop-loop model (w ∷ ws) none ∙ e in
          inl (
            ((_, ap (λ o. (counted o c).0) q, refl), none_CanServe model (w ∷ ws) no_one),
            ap (λ o. (counted o c).1) q,
          )
      | inr (b, e, least) ↦
          let q = ap (λ o. counted o c) (tier_loop-loop model (w ∷ ws) none ∙ e) in
          let tiers = λ (x : WorkerSnapshot). residency_tier-IsTier model x positive in
          inr (
            b,
            residency_tier model,
            ap (λ o. o.0) q,
            tiers,
            IsLeast-IsBest model (residency_tier model) b (w ∷ ws) least,
            rw q (count_tier-Counts model b (residency_tier model b) c (tiers b)),
          )
    ]

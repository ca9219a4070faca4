-- ===== src/Router/Tests.antt =====
-- Three workers and the three routers.
use adaptive_ai_inference_ru.Prelude.{
  ℕ, ◌+◌, ◌%◌, ◌<◌, ◌≡◌, refl, ◌⊎◌, Bool, true, false, some, List, [], ◌∷◌, arith, length,
  get_elem?,
}
use adaptive_ai_inference_ru.Prelude.Bytes.{Bytes, bytes, bytes_eq}
use adaptive_ai_inference_ru.Status.{found}
use adaptive_ai_inference_ru.ModelRegistry.{ModelSpec}
use adaptive_ai_inference_ru.Router.{
  WorkerSnapshot, is_m2_feasible, scan, round_robin, least_loaded, least_loop, better_load,
  residency_tier, residency_aware, tier_loop, better_tier, has_id, RouterMetrics, none_feasible,
}
use adaptive_ai_inference_ru.Router.Choice.{
  Refused, IsBest, IsTier, Counts, least_loaded_lem, residency_aware_lem,
}
use adaptive_ai_inference_ru.Router.RoundRobin.{Skipped, start_of, round_robin_lem}

abbrev model : ModelSpec
model = record { model_id = bytes "m"; estimated_memory_bytes = 50; estimated_load_cost = 1 }

abbrev snapshot : ℕ → ℕ → Bool → List Bytes → WorkerSnapshot
snapshot id depth accepting resident = record {
  worker_id = id;
  queue_depth = depth;
  queue_capacity = 8;
  active_count = 1;
  accepting = accepting;
  memory_budget_bytes = 100;
  memory_used_bytes = 60;
  resident_model_ids = resident;
}

abbrev workers : List WorkerSnapshot
workers = snapshot 0 2 true [] ∷ snapshot 1 0 false [] ∷ snapshot 2 5 true (bytes "m" ∷ []) ∷ []

abbrev metrics : RouterMetrics
metrics = record {
  resident_selections = 0;
  no_eviction_load_selections = 0;
  eviction_required_selections = 0;
}

skips_closed_worker : round_robin model workers 1 ≡ (found 2, 0)
unfolding round_robin scan is_m2_feasible
skips_closed_worker = refl

picks_short_queue : least_loaded model workers ≡ found 0
unfolding least_loaded least_loop better_load is_m2_feasible
picks_short_queue = refl

prefers_resident : (residency_aware model workers metrics).0 ≡ found 2
unfolding residency_aware tier_loop better_tier is_m2_feasible residency_tier has_id bytes_eq
prefers_resident = refl

round_robin_lem_example :
    let start = start_of workers 1 in
    ((round_robin model workers 1 ≡ (none_feasible, start))
      × ((k : ℕ) → k < length workers → Skipped model workers start k))
    ⊎ ((k : ℕ) × (w : WorkerSnapshot) × (get_elem? workers ((start + k) % length workers) ≡ some w)
        × (is_m2_feasible model w ≡ true)
        × (k < length workers)
        × ((j : ℕ) → j < k → Skipped model workers start j)
        × (round_robin model workers 1
            ≡ (found w.worker_id, ((start + k) % length workers + 1) % length workers))
        × ((round_robin model workers 1).1 < length workers))
round_robin_lem_example = round_robin_lem model workers 1 (omega arith)

least_loaded_lem_example :
    Refused model workers (least_loaded model workers)
    ⊎ ((b : WorkerSnapshot) × (least_loaded model workers ≡ found b.worker_id)
        × IsBest model (λ _. 0) b workers)
least_loaded_lem_example = least_loaded_lem model workers

residency_aware_lem_example :
    (Refused model workers (residency_aware model workers metrics).0
      × ((residency_aware model workers metrics).1 ≡ metrics))
    ⊎ ((b : WorkerSnapshot) × (tier : WorkerSnapshot → ℕ) × ((residency_aware model workers
            metrics).0
          ≡ found b.worker_id)
        × ((w : WorkerSnapshot) → IsTier model w (tier w))
        × IsBest model tier b workers
        × Counts (tier b) metrics (residency_aware model workers metrics).1)
residency_aware_lem_example = residency_aware_lem model workers metrics (omega arith)

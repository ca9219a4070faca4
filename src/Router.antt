-- ===== src/Router.antt =====
-- src/router.cpp and include/airuntime/{router,worker_snapshot}.hpp: to which worker a request goes.
pub mod RoundRobin
pub mod Minimum
pub mod Choice
pub mod Interface
mod Tests
use adaptive_ai_inference_ru.Prelude.{
  ℕ, zero, suc, ◌+◌, ◌-◌, ◌*◌, ◌%◌, Bool, true, false, ◌&&◌, ◌||◌, Option, none, some, List, [],
  ◌∷◌, if◌then◌else◌, ltb, leb, ◌==◌, length, get_elem?, u64,
}
use adaptive_ai_inference_ru.Prelude.Bytes.{Bytes, bytes_eq}
use adaptive_ai_inference_ru.Status.{ErrorCode, Status, error, Result, found, fails}
use adaptive_ai_inference_ru.ModelRegistry.{ModelSpec}

pub record WorkerSnapshot : Type 0 where
  pub worker_id : ℕ
  pub queue_depth : ℕ
  pub queue_capacity : ℕ
  pub active_count : ℕ
  pub accepting : Bool
  pub memory_budget_bytes : ℕ
  pub memory_used_bytes : ℕ
  pub resident_model_ids : List Bytes

-- `RoutingResult`: the worker's id, or the failure.
abbrev pub RoutingResult : Type 0
RoutingResult = Result ℕ

abbrev pub no_workers : RoutingResult
no_workers = fails (error ErrorCode.no_feasible_worker "no workers available")

abbrev pub none_feasible : RoutingResult
none_feasible = fails (error ErrorCode.no_feasible_worker "no feasible worker for model")

unfoldable pub is_m2_feasible : ModelSpec → WorkerSnapshot → Bool
is_m2_feasible model worker =
    worker.accepting && leb model.estimated_memory_bytes worker.memory_budget_bytes

-- The loop of `RoundRobinRouter::select` from `offset` on, with the rounds left: the index chosen.
unfoldable pub scan : ModelSpec → List WorkerSnapshot → ℕ → ℕ → ℕ → Option (ℕ × WorkerSnapshot)
scan model workers next_index zero offset = none
scan model workers next_index (suc rounds) offset =
    let rest = scan model workers next_index rounds (offset + 1) in
    let index = (next_index + offset) % length workers in
    elim (get_elem? workers index) [
      | none ↦ rest
      | some worker ↦ if is_m2_feasible model worker then some (index, worker) else rest
    ]

abbrev clamp_index : ℕ → ℕ → ℕ
clamp_index next_index n = if leb n next_index then 0 else next_index

abbrev pub chosen : ℕ → ℕ → Option (ℕ × WorkerSnapshot) → RoutingResult × ℕ
chosen start n none = (none_feasible, start)
chosen start n (some (index, worker)) = (found worker.worker_id, (index + 1) % n)

-- `RoundRobinRouter::select`: the result and the new `next_index_`.
unfoldable pub round_robin : ModelSpec → List WorkerSnapshot → ℕ → RoutingResult × ℕ
round_robin model [] next_index = (no_workers, next_index)
round_robin model (w ∷ ws) next_index =
    let n = length (w ∷ ws) in
    let start = clamp_index next_index n in chosen start n (scan model (w ∷ ws) start n 0)

abbrev pub load_of : WorkerSnapshot → ℕ
load_of w = u64 (w.queue_depth + w.active_count)

-- The best worker so far: its tier (always 0 for the least-loaded router), its load and its id.
pub record Best : Type 0 where
  pub tier : ℕ
  pub load : ℕ
  pub id : ℕ

unfoldable pub better_load : WorkerSnapshot → Option Best → Bool
better_load w none = true
better_load w (some b) = ltb (load_of w) b.load || (load_of w == b.load && ltb w.worker_id b.id)

-- The loop of `LeastLoadedRouter::select`.
unfoldable pub least_loop : ModelSpec → List WorkerSnapshot → Option Best → Option Best
least_loop model [] best = best
least_loop model (w ∷ ws) best = least_loop model ws (
    if is_m2_feasible model w
    then (if better_load w best
        then some (record { tier = 0; load = load_of w; id = w.worker_id })
        else best)
    else best)

abbrev pub result_of : Option Best → RoutingResult
result_of none = none_feasible
result_of (some b) = found b.id

-- `LeastLoadedRouter::select`
unfoldable pub least_loaded : ModelSpec → List WorkerSnapshot → RoutingResult
least_loaded model [] = no_workers
least_loaded model (w ∷ ws) = result_of (least_loop model (w ∷ ws) none)

-- `std::binary_search` of the sorted ids finds an id exactly if it is there.
unfoldable pub has_id : Bytes → List Bytes → Bool
has_id id [] = false
has_id id (x ∷ xs) = bytes_eq x id || has_id id xs

abbrev pub free_bytes : WorkerSnapshot → ℕ
free_bytes w =
    if leb w.memory_used_bytes w.memory_budget_bytes
    then w.memory_budget_bytes - w.memory_used_bytes
    else 0

unfoldable pub residency_tier : ModelSpec → WorkerSnapshot → ℕ
residency_tier model w =
    if has_id model.model_id w.resident_model_ids
    then 0
    else if leb model.estimated_memory_bytes (free_bytes w)
    then 1
    else 2

unfoldable pub better_tier : ℕ → WorkerSnapshot → Option Best → Bool
better_tier tier w none = true
better_tier tier w (some b) =
    ltb tier b.tier
    || ((tier == b.tier && ltb (load_of w) b.load)
        || (tier == b.tier && (load_of w == b.load && ltb w.worker_id b.id)))

-- The loop of `ResidencyAwareRouter::select`.
unfoldable pub tier_loop : ModelSpec → List WorkerSnapshot → Option Best → Option Best
tier_loop model [] best = best
tier_loop model (w ∷ ws) best =
    let tier = residency_tier model w in
    tier_loop model ws (
      if is_m2_feasible model w
      then (if better_tier tier w best
          then some (record { tier = tier; load = load_of w; id = w.worker_id })
          else best)
      else best)

pub record RouterMetrics : Type 0 where
  pub resident_selections : ℕ
  pub no_eviction_load_selections : ℕ
  pub eviction_required_selections : ℕ

abbrev pub count_tier : ℕ → RouterMetrics → RouterMetrics
count_tier tier c =
    if tier == 0
    then record c { resident_selections = u64 (c.resident_selections + 1) }
    else if tier == 1
    then record c { no_eviction_load_selections = u64 (c.no_eviction_load_selections + 1) }
    else record c { eviction_required_selections = u64 (c.eviction_required_selections + 1) }

abbrev pub counted : Option Best → RouterMetrics → RoutingResult × RouterMetrics
counted none c = (none_feasible, c)
counted (some b) c = (found b.id, count_tier b.tier c)

-- `ResidencyAwareRouter::select`: the result and the metrics.
unfoldable pub residency_aware :
    ModelSpec → List WorkerSnapshot → RouterMetrics → RoutingResult × RouterMetrics
residency_aware model [] c = (no_workers, c)
residency_aware model (w ∷ ws) c = counted (tier_loop model (w ∷ ws) none) c

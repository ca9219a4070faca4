-- ===== src/Runtime.antt =====
-- src/runtime.cpp, include/airuntime/runtime.hpp and runtime_snapshot.hpp: the runtime over any
-- scheduler and router. Its scheduler, router, registry and workers are not null. The threads are
-- the runs of `Routing.route_next` and of the workers' loops: `stop` says what it does to the
-- objects, and returns when those threads have ended.
pub mod Routing
pub mod Laws
pub mod Stopping
mod Tests
use adaptive_ai_inference_ru.Prelude.{
  ℕ, Bool, true, false, ◌&&◌, ◌||◌, Option, none, some, List, [], ◌∷◌, map, if◌then◌else◌, ltb,
  ◌==◌, length,
}
use adaptive_ai_inference_ru.Prelude.Bytes.{Bytes, bytes_eq}
use adaptive_ai_inference_ru.Prelude.Sort.{sort}
use adaptive_ai_inference_ru.Status.{Status, success}
use adaptive_ai_inference_ru.ModelRegistry.{ModelSpec, Models, models, spec_less}
use adaptive_ai_inference_ru.ModelManager.{ResidencyMetrics}
use adaptive_ai_inference_ru.Router.{WorkerSnapshot}
use adaptive_ai_inference_ru.Scheduler.{IRequestScheduler}
use adaptive_ai_inference_ru.Worker.{
  Worker, WorkerBatchMetrics, snapshot as worker_snapshot, start as start_worker,
  close as close_worker,
}

-- `worker_index_` maps the id of each worker to the worker: see `find_worker`.
pub record Runtime (S R : Type 0) : Type 0 where
  pub scheduler : S
  pub router : R
  pub workers : List Worker
  pub registry : Models
  pub accepting : Bool
  pub started : Bool

unfoldable pub find_worker : ℕ → List Worker → Option Worker
find_worker id [] = none
find_worker id (k ∷ ks) = if k.worker_id == id then some k else find_worker id ks

abbrev is_there : Option Worker → Bool
is_there none = false
is_there (some k) = true

-- The loop of the constructor, from the last worker to the first: no two have the same id.
unfoldable pub distinct_ids : List Worker → Bool
distinct_ids [] = true
distinct_ids (k ∷ ks) = if is_there (find_worker k.worker_id ks) then false else distinct_ids ks

abbrev is_empty : List Worker → Bool
is_empty [] = true
is_empty (k ∷ ks) = false

-- `none`: the constructor throws `std::invalid_argument`.
unfoldable pub make : {S R : Type 0} → S → R → List Worker → Models → Option (Runtime S R)
make scheduler router workers registry =
    if is_empty workers
    then none
    else if distinct_ids workers
    then some (record {
      scheduler = scheduler;
      router = router;
      workers = workers;
      registry = registry;
      accepting = false;
      started = false;
    })
    else none

-- The status of a worker's `start` is always a success.
unfoldable pub start : {S R : Type 0} → Runtime S R → Status × Runtime S R
start rt = if rt.started then (success, rt) else (
  success,
  record rt {
    workers = map (λ k. (start_worker k).1) rt.workers;
    accepting = true;
    started = true;
  },
)

unfoldable pub stop : {S R : Type 0} → IRequestScheduler S → Runtime S R → Runtime S R
stop scheduler rt = record rt {
  accepting = false;
  scheduler = scheduler.close rt.scheduler;
  workers = map close_worker rt.workers;
}

unfoldable pub is_running : {S R : Type 0} → Runtime S R → Bool
is_running rt = rt.accepting && rt.started

unfoldable pub any_accepting : List Worker → Bool
any_accepting [] = false
any_accepting (k ∷ ks) = if (worker_snapshot k).accepting then true else any_accepting ks

unfoldable pub is_healthy : {S R : Type 0} → Runtime S R → Bool
is_healthy rt = if rt.accepting && rt.started then any_accepting rt.workers else false

unfoldable pub collect_snapshots : List Worker → List WorkerSnapshot
collect_snapshots ks = map worker_snapshot ks

pub record WorkerRuntimeSnapshot : Type 0 where
  pub worker : WorkerSnapshot
  pub batch_metrics : WorkerBatchMetrics
  pub residency_metrics : ResidencyMetrics

pub record RuntimeSnapshot : Type 0 where
  pub accepting : Bool
  pub started : Bool
  pub scheduler_depth : ℕ
  pub scheduler_capacity : ℕ
  pub worker_count : ℕ
  pub workers : List WorkerRuntimeSnapshot

pub record MetricsSnapshot : Type 0 where
  pub scheduler_depth : ℕ
  pub scheduler_capacity : ℕ
  pub workers : List WorkerRuntimeSnapshot

pub record ModelRuntimeSnapshot : Type 0 where
  pub spec : ModelSpec
  pub resident_worker_ids : List ℕ

unfoldable pub worker_runtime_snapshot : Worker → WorkerRuntimeSnapshot
worker_runtime_snapshot k = record {
  worker = worker_snapshot k;
  batch_metrics = k.batch_metrics;
  residency_metrics = k.model_manager.metrics;
}

unfoldable pub snapshot : {S R : Type 0} → IRequestScheduler S → Runtime S R → RuntimeSnapshot
snapshot scheduler rt = record {
  accepting = rt.accepting;
  started = rt.started;
  scheduler_depth = scheduler.size rt.scheduler;
  scheduler_capacity = scheduler.capacity rt.scheduler;
  worker_count = length rt.workers;
  workers = map worker_runtime_snapshot rt.workers;
}

unfoldable pub metrics_snapshot :
    {S R : Type 0} → IRequestScheduler S → Runtime S R → MetricsSnapshot
metrics_snapshot scheduler rt = record {
  scheduler_depth = scheduler.size rt.scheduler;
  scheduler_capacity = scheduler.capacity rt.scheduler;
  workers = map worker_runtime_snapshot rt.workers;
}

-- `std::find`
unfoldable pub contains_id : Bytes → List Bytes → Bool
contains_id id [] = false
contains_id id (x ∷ xs) = bytes_eq x id || contains_id id xs

-- The inner loop of `model_snapshots`, in the order of the workers.
unfoldable pub resident_on : Bytes → List Worker → List ℕ
resident_on id [] = []
resident_on id (k ∷ ks) =
    let rest = resident_on id ks in
    if contains_id id (worker_snapshot k).resident_model_ids then k.worker_id ∷ rest else rest

unfoldable pub model_snapshot : List Worker → ModelSpec → ModelRuntimeSnapshot
model_snapshot ks spec = record {
  spec = spec;
  resident_worker_ids = sort ltb (resident_on spec.model_id ks);
}

abbrev pub snapshot_less : ModelRuntimeSnapshot → ModelRuntimeSnapshot → Bool
snapshot_less a b = spec_less a.spec b.spec

unfoldable pub model_snapshots : {S R : Type 0} → Runtime S R → List ModelRuntimeSnapshot
model_snapshots rt =
    sort snapshot_less (map (λ spec. model_snapshot rt.workers spec) (models rt.registry))

-- ===== src/RequestHandler/Get.antt =====
-- src/serving/request_handler.cpp: `handle_get`, and the JSON of the runtime's snapshots.
use adaptive_ai_inference_ru.Prelude.{List, [], ◌∷◌, map, if◌then◌else◌}
use adaptive_ai_inference_ru.Prelude.Bytes.{Bytes, bytes, bytes_eq}
use adaptive_ai_inference_ru.ModelManager.{ResidencyMetrics}
use adaptive_ai_inference_ru.Scheduler.{IRequestScheduler}
use adaptive_ai_inference_ru.Worker.{WorkerBatchMetrics}
use adaptive_ai_inference_ru.Runtime.{
  Runtime, WorkerRuntimeSnapshot, RuntimeSnapshot, MetricsSnapshot, ModelRuntimeSnapshot,
  snapshot as runtime_snapshot, metrics_snapshot, model_snapshots,
}
use adaptive_ai_inference_ru.RequestHandler.{HandlerResponse, application_json, handle_health}
use adaptive_ai_inference_ru.RequestHandler.Json.{IJson}

abbrev pub not_found : HandlerResponse
not_found = record {
  status_code = 404;
  content_type = application_json;
  body = bytes "{\"error\":\"not found\"}";
}

module _ {J : Type 0} (json : IJson J) where
  unfoldable pub batch_metrics_json : WorkerBatchMetrics → J
  batch_metrics_json c = json.object (
      (bytes "batches_executed", json.number c.batches_executed)
      ∷ (bytes "requests_executed_via_batches", json.number c.requests_executed_via_batches)
      ∷ (bytes "multi_request_batches", json.number c.multi_request_batches)
      ∷ (bytes "max_batch_size_observed", json.number c.max_batch_size_observed)
      ∷ [])

  unfoldable pub residency_metrics_json : ResidencyMetrics → J
  residency_metrics_json c = json.object (
      (bytes "loads", json.number c.loads)
      ∷ (bytes "reloads", json.number c.reloads)
      ∷ (bytes "evictions", json.number c.evictions)
      ∷ (bytes "residency_hits", json.number c.residency_hits)
      ∷ (bytes "residency_misses", json.number c.residency_misses)
      ∷ [])

  unfoldable pub model_json : ModelRuntimeSnapshot → J
  model_json model = json.object (
      (bytes "model_id", json.string model.spec.model_id)
      ∷ (bytes "estimated_memory_bytes", json.number model.spec.estimated_memory_bytes)
      ∷ (bytes "estimated_load_cost", json.number model.spec.estimated_load_cost)
      ∷ (
        bytes "resident_worker_ids",
        json.array (map (λ id. json.number id) model.resident_worker_ids),
      )
      ∷ [])

  unfoldable pub runtime_worker_json : WorkerRuntimeSnapshot → J
  runtime_worker_json k =
      let w = k.worker in
      json.object (
        (bytes "worker_id", json.number w.worker_id)
        ∷ (bytes "queue_depth", json.number w.queue_depth)
        ∷ (bytes "queue_capacity", json.number w.queue_capacity)
        ∷ (bytes "active_count", json.number w.active_count)
        ∷ (bytes "accepting", json.boolean w.accepting)
        ∷ (bytes "memory_budget_bytes", json.number w.memory_budget_bytes)
        ∷ (bytes "memory_used_bytes", json.number w.memory_used_bytes)
        ∷ (bytes "resident_model_ids", json.array (map (λ id. json.string id) w.resident_model_ids))
        ∷ (bytes "batch_metrics", batch_metrics_json k.batch_metrics)
        ∷ (bytes "residency_metrics", residency_metrics_json k.residency_metrics)
        ∷ [])

  unfoldable pub metrics_worker_json : WorkerRuntimeSnapshot → J
  metrics_worker_json k =
      let w = k.worker in
      json.object (
        (bytes "worker_id", json.number w.worker_id)
        ∷ (bytes "queue_depth", json.number w.queue_depth)
        ∷ (bytes "active_count", json.number w.active_count)
        ∷ (bytes "memory_budget_bytes", json.number w.memory_budget_bytes)
        ∷ (bytes "memory_used_bytes", json.number w.memory_used_bytes)
        ∷ (bytes "batch_metrics", batch_metrics_json k.batch_metrics)
        ∷ (bytes "residency_metrics", residency_metrics_json k.residency_metrics)
        ∷ [])

  unfoldable pub models_json : List ModelRuntimeSnapshot → J
  models_json models = json.object ((bytes "models", json.array (map model_json models)) ∷ [])

  unfoldable pub runtime_json : RuntimeSnapshot → J
  runtime_json snap = json.object (
      (bytes "accepting", json.boolean snap.accepting)
      ∷ (bytes "started", json.boolean snap.started)
      ∷ (bytes "scheduler_depth", json.number snap.scheduler_depth)
      ∷ (bytes "scheduler_capacity", json.number snap.scheduler_capacity)
      ∷ (bytes "worker_count", json.number snap.worker_count)
      ∷ (bytes "workers", json.array (map runtime_worker_json snap.workers))
      ∷ [])

  unfoldable pub metrics_json : MetricsSnapshot → J
  metrics_json metrics = json.object (
      (bytes "scheduler_depth", json.number metrics.scheduler_depth)
      ∷ (bytes "scheduler_capacity", json.number metrics.scheduler_capacity)
      ∷ (bytes "workers", json.array (map metrics_worker_json metrics.workers))
      ∷ [])

  abbrev json_response : J → HandlerResponse
  json_response j = record {
    status_code = 200;
    content_type = application_json;
    body = json.dump j;
  }

  unfoldable pub handle_get :
      {S R : Type 0} → IRequestScheduler S → Runtime S R → Bytes → HandlerResponse
  handle_get scheduler rt target =
      if bytes_eq target (bytes "/health")
      then handle_health json rt
      else if bytes_eq target (bytes "/v1/models")
      then json_response (models_json (model_snapshots rt))
      else if bytes_eq target (bytes "/v1/runtime")
      then json_response (runtime_json (runtime_snapshot scheduler rt))
      else if bytes_eq target (bytes "/metrics")
      then json_response (metrics_json (metrics_snapshot scheduler rt))
      else not_found

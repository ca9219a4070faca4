-- ===== src/Worker.antt =====
-- src/worker.cpp and include/airuntime/worker.hpp: a worker's state and snapshot, and how requests
-- enter its lane. The blocking calls take what the thread finds when it wakes; `none`: it still
-- waits. What other threads do to the worker's other fields during a call is left out. The check for
-- dead requests reads the clock once, as `now`.
pub mod Enqueue
pub mod Execute
mod Round
mod Tests
use adaptive_ai_inference_ru.Prelude.{
  ℕ, ◌+◌, ◌-◌, Bool, true, false, ◌||◌, Option, none, some, List, if◌then◌else◌, ◌==◌, ltb, u64,
}
use adaptive_ai_inference_ru.Status.{ErrorCode, Status, ok, success, error}
use adaptive_ai_inference_ru.Request.{try_timeout}
use adaptive_ai_inference_ru.BoundedQueue.{
  BoundedQueue, WakeUp, make as make_queue, try_push, wait_push, wait_push_until,
  close as close_queue,
}
use adaptive_ai_inference_ru.BatchBuilder.{BatchBuilderConfig, make as make_builder}
use adaptive_ai_inference_ru.ModelManager.{ModelManager, resident_model_ids, make as make_manager}
use adaptive_ai_inference_ru.Router.{WorkerSnapshot}
use adaptive_ai_inference_ru.Store.{Ref, RequestPtr, Store, apply, is_dead_request}

pub data WorkerState : Type 0 where
  idle busy : WorkerState

pub record WorkerBatchMetrics : Type 0 where
  pub batches_executed : ℕ
  pub requests_executed_via_batches : ℕ
  pub multi_request_batches : ℕ
  pub max_batch_size_observed : ℕ

-- The registry, the backend and the eviction policy are arguments of the manager's operations.
pub record WorkerConfig : Type 0 where
  pub worker_id : ℕ
  pub queue_capacity : ℕ
  pub memory_budget_bytes : ℕ
  pub batch_config : BatchBuilderConfig

-- The worker's thread is the run of its loop; a worker that is started has one.
pub record Worker : Type 0 where
  pub worker_id : ℕ
  pub queue_capacity : ℕ
  pub batch_builder : BatchBuilderConfig
  pub model_manager : ModelManager
  pub lane : BoundedQueue RequestPtr
  pub state : WorkerState
  pub active_count : ℕ
  pub batch_metrics : WorkerBatchMetrics
  pub deferred : Option RequestPtr
  pub queued_count : ℕ
  pub accepting : Bool
  pub started : Bool

abbrev pub new_worker : WorkerConfig → BatchBuilderConfig → BoundedQueue RequestPtr → Worker
new_worker config builder lane = record {
  worker_id = config.worker_id;
  queue_capacity = config.queue_capacity;
  batch_builder = builder;
  model_manager = make_manager config.memory_budget_bytes;
  lane = lane;
  state = idle;
  active_count = 0;
  batch_metrics = record {
    batches_executed = 0;
    requests_executed_via_batches = 0;
    multi_request_batches = 0;
    max_batch_size_observed = 0;
  };
  deferred = none;
  queued_count = 0;
  accepting = false;
  started = false;
}

-- `none`: the constructor, or that of a member, throws `std::invalid_argument`.
abbrev make_from :
    WorkerConfig → Option BatchBuilderConfig → Option (BoundedQueue RequestPtr) → Option Worker
make_from config (some builder) (some lane) = some (new_worker config builder lane)
make_from config _ _ = none

unfoldable pub make : WorkerConfig → Option Worker
make config =
    if config.queue_capacity == 0 || config.memory_budget_bytes == 0
    then none
    else make_from config (make_builder config.batch_config) (make_queue config.queue_capacity)

unfoldable pub start : Worker → Status × Worker
start w =
    if w.started then (success, w) else (success, record w { accepting = true; started = true })

unfoldable pub close : Worker → Worker
close w = record w { accepting = false; lane = close_queue w.lane }

unfoldable pub snapshot : Worker → WorkerSnapshot
snapshot w = record {
  worker_id = w.worker_id;
  queue_depth = w.queued_count;
  queue_capacity = w.queue_capacity;
  active_count = w.active_count;
  accepting = w.accepting;
  memory_budget_bytes = w.model_manager.resources.budget;
  memory_used_bytes = w.model_manager.resources.used;
  resident_model_ids = resident_model_ids w.model_manager;
}

abbrev pub null_request : Status
null_request = error ErrorCode.internal_error "null request"

abbrev pub not_accepting : Status
not_accepting = error ErrorCode.queue_closed "worker is not accepting work"

-- The answer of an enqueueing, the store and the worker.
abbrev pub Enqueued : Type 0
Enqueued = Status × Store × Worker

-- After a push: the request is counted if the lane has taken it.
unfoldable pub count_pushed : Store → Worker → Status × BoundedQueue RequestPtr → Enqueued
count_pushed st w (status, lane) =
    if ok status
    then (status, st, record w { lane = lane; queued_count = u64 (w.queued_count + 1) })
    else (status, st, record w { lane = lane })

unfoldable pub try_enqueue : ℕ → RequestPtr → Store → Worker → Enqueued
try_enqueue now none st w = (null_request, st, w)
try_enqueue now (some r) st w =
    let (dead, st') = is_dead_request now (some r) st in
    if w.accepting
    then (if dead then (success, st', w) else count_pushed st' w (try_push (some r) w.lane))
    else (not_accepting, st, w)

abbrev pub map_pushed :
    Option (Status × BoundedQueue RequestPtr)
    → (Status × BoundedQueue RequestPtr → Enqueued)
    → Option Enqueued
map_pushed none f = none
map_pushed (some p) f = some (f p)

unfoldable pub enqueue :
    ℕ → RequestPtr → List (BoundedQueue RequestPtr) → Store → Worker → Option Enqueued
enqueue now none wakes st w = some (null_request, st, w)
enqueue now (some r) wakes st w =
    let (dead, st') = is_dead_request now (some r) st in
    if w.accepting
    then (if dead
        then some (success, st', w)
        else map_pushed (wait_push (some r) w.lane wakes) (count_pushed st' w))
    else some (not_accepting, st, w)

abbrev pub is_timed_out : ErrorCode → Bool
is_timed_out ErrorCode.timed_out = true
is_timed_out _ = false

-- After a timed push: a request whose push has timed out is timed out as well.
unfoldable pub count_or_timeout : Ref → Store → Worker → Status × BoundedQueue RequestPtr → Enqueued
count_or_timeout r st w (status, lane) =
    if ok status
    then count_pushed st w (status, lane)
    else if is_timed_out status.code
    then (status, (apply try_timeout r st).1, record w { lane = lane })
    else (status, st, record w { lane = lane })

unfoldable pub enqueue_until :
    ℕ → RequestPtr → List (WakeUp RequestPtr) → Store → Worker → Option Enqueued
enqueue_until now none wakes st w = some (null_request, st, w)
enqueue_until now (some r) wakes st w =
    let (dead, st') = is_dead_request now (some r) st in
    if w.accepting
    then (if dead
        then some (success, st', w)
        else map_pushed (wait_push_until (some r) w.lane wakes) (count_or_timeout r st' w))
    else some (not_accepting, st, w)

-- ===== src/Runtime/Tests.antt =====
-- A runtime with one worker, and a thread that keeps cancelling request 2.
use adaptive_ai_inference_ru.Prelude.{ℕ, ◌≡◌, refl, true, false, some, none, [], ◌∷◌, arith}
use adaptive_ai_inference_ru.Prelude.Bytes.{bytes, bytes_eq}
use adaptive_ai_inference_ru.Prelude.Assoc.{lookup}
use adaptive_ai_inference_ru.Status.{success}
use adaptive_ai_inference_ru.Request.{
  received, queued, new, try_cancel, is_terminal, is_valid_transition, InferenceRequest,
  RequestState, try_timeout_if_expired, transition_to,
}
use adaptive_ai_inference_ru.Request.Ops.{run}
use adaptive_ai_inference_ru.ResourceManager.{make as make_resources}
use adaptive_ai_inference_ru.ModelRegistry.{find}
use adaptive_ai_inference_ru.BoundedQueue.{try_push}
use adaptive_ai_inference_ru.ModelManager.{make as make_manager}
use adaptive_ai_inference_ru.Router.{scan, round_robin, is_m2_feasible}
use adaptive_ai_inference_ru.Router.Interface.{round_robin_router}
use adaptive_ai_inference_ru.Scheduler.{FifoScheduler, fifo}
use adaptive_ai_inference_ru.Admission.{Others, meanwhile, admit, admit_live, enqueue_or_refuse}
use adaptive_ai_inference_ru.Admission.Laws.{Admitted}
use adaptive_ai_inference_ru.Store.{Ref, apply, is_dead_request}
use adaptive_ai_inference_ru.World.{Moment, World, call, check_dead}
use adaptive_ai_inference_ru.World.Later.{IsEnded}
use adaptive_ai_inference_ru.World.Calm.{AreCalm, KeepsModel, IsEndedOr}
use adaptive_ai_inference_ru.Worker.{Worker, idle, try_enqueue, count_pushed, snapshot}
use adaptive_ai_inference_ru.Runtime.{
  Runtime, stop, make, distinct_ids, find_worker, collect_snapshots,
}
use adaptive_ai_inference_ru.Runtime.Routing.{
  submit, route_request, route_found, route_to, hand_over, put_worker,
}
use adaptive_ai_inference_ru.Runtime.Laws.{submit-Admitted, IsRouted, route_request-IsRouted}
use adaptive_ai_inference_ru.Runtime.Stopping.{submit-stop}

-- Request 2 is cancelled before every call.
abbrev cancelling : ℕ → Moment
cancelling i = record { now = i; others = λ st. (apply try_cancel 2 st).1 }

cancel-IsEndedOr :
    (s : RequestState) (x : InferenceRequest) → IsEndedOr s x → IsEndedOr s (try_cancel x).request
unfolding try_cancel is_valid_transition is_terminal
cancel-IsEndedOr s x h = ground arith

cancelling-AreCalm : (r : Ref) → AreCalm r cancelling
unfolding apply
cancelling-AreCalm r i st s h = ground (arith, cancel-IsEndedOr s (st.requests 2))

cancel-model_id : (x : InferenceRequest) → (try_cancel x).request.model_id ≡ x.model_id
unfolding try_cancel
cancel-model_id x = ground arith

cancelling-KeepsModel : (r : Ref) → KeepsModel r cancelling
unfolding apply
cancelling-KeepsModel r i st = ground (arith, cancel-model_id (st.requests 2))

abbrev worker : Worker
unfolding make_manager make_resources
worker = record {
  worker_id = 7;
  queue_capacity = 4;
  batch_builder = record { max_batch_size = 2; max_batch_wait = 0 };
  model_manager = make_manager 100;
  lane = record { capacity = 4; queue = []; closed = false };
  state = idle;
  active_count = 0;
  batch_metrics = record {
    batches_executed = 0;
    requests_executed_via_batches = 0;
    multi_request_batches = 0;
    max_batch_size_observed = 0;
  };
  deferred = none;
  queued_count = 0;
  accepting = true;
  started = true;
}

abbrev runtime : Runtime FifoScheduler ℕ
unfolding worker
runtime = record {
  scheduler = record { capacity = 2; queue = []; closed = false };
  router = 0;
  workers = worker ∷ [];
  registry =
      (
        bytes "a",
        record { model_id = bytes "a"; estimated_memory_bytes = 60; estimated_load_cost = 1 },
      )
      ∷ [];
  accepting = true;
  started = true;
}

abbrev world_of : RequestState → World
unfolding new
world_of s = record {
  store = record {
    requests = λ r. record (new (bytes "r") (bytes "a") (bytes "hi") 16) { state = s };
    calls = [];
  };
  time = 0;
}

abbrev alone : Others
alone = record {
  before_is_terminal = [];
  before_transition_to = [];
  before_enqueue = [];
  before_try_reject = [];
}

refuses_two_workers_of_one_id :
    make {R = ℕ} runtime.scheduler 0 (worker ∷ worker ∷ []) runtime.registry ≡ none
unfolding make distinct_ids find_worker worker runtime
refuses_two_workers_of_one_id = refl

admits : (submit cancelling fifo alone (some 1) (world_of received) runtime).2.queue ≡ some 1 ∷ []
unfolding submit admit admit_live enqueue_or_refuse meanwhile run check_dead call apply try_cancel
    try_timeout_if_expired is_terminal transition_to is_valid_transition try_push world_of runtime
admits = refl

routes :
    (route_request cancelling round_robin_router
      (λ ks. ks)
      (some 1)
      (world_of queued)
      runtime).status
    ≡ success
unfolding route_request route_found route_to hand_over put_worker find_worker collect_snapshots
    snapshot check_dead call apply try_cancel try_timeout_if_expired is_terminal is_valid_transition
    find lookup bytes_eq round_robin scan is_m2_feasible try_enqueue count_pushed is_dead_request
    try_push world_of runtime worker
routes = refl

submit-Admitted_example :
    Admitted fifo 2 runtime.scheduler
      (submit cancelling fifo alone (some 2) (world_of received) runtime)
unfolding world_of
submit-Admitted_example =
    submit-Admitted cancelling fifo alone 2 (world_of received) runtime (cancelling-AreCalm 2)
      (tt, tt, tt, tt) refl

route_request-IsRouted_example :
    IsRouted round_robin_router runtime.workers 1
      ((world_of queued).store.requests 1).model_id
      runtime
      (route_request cancelling round_robin_router (λ ks. ks) (some 1) (world_of queued) runtime)
unfolding world_of
route_request-IsRouted_example =
    route_request-IsRouted cancelling round_robin_router (λ ks. ks) 1 (world_of queued) runtime
      (cancelling-AreCalm 1) (cancelling-KeepsModel 1) refl

submit-stop_example :
    (let (status, st, s) =
        submit cancelling fifo alone (some 1) (world_of received) (stop fifo runtime) in
      IsEnded (st.requests 1) × (s ≡ fifo.close runtime.scheduler))
unfolding world_of
submit-stop_example =
    submit-stop cancelling fifo alone 1 (world_of received) runtime (cancelling-AreCalm 1) refl

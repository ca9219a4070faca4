-- ===== src/Worker/Tests.antt =====
-- A worker with a lane for one request.
use adaptive_ai_inference_ru.Prelude.{◌≡◌, refl, true, false, some, List, [], ◌∷◌}
use adaptive_ai_inference_ru.Prelude.Bytes.{bytes}
use adaptive_ai_inference_ru.Request.{is_terminal, new, try_timeout_if_expired}
use adaptive_ai_inference_ru.BoundedQueue.{
  WakeUp, make as make_queue, push_timeout_error, try_push, wait_push_until,
}
use adaptive_ai_inference_ru.BatchBuilder.{make as make_builder}
use adaptive_ai_inference_ru.Store.{RequestPtr, Store, apply, is_dead_request}
use adaptive_ai_inference_ru.Worker.{
  WorkerConfig, Worker, make, new_worker, try_enqueue, enqueue_until, count_pushed,
  count_or_timeout,
}
use adaptive_ai_inference_ru.Worker.Enqueue.{
  Entered, Placed, try_enqueue-Entered, enqueue_until-Placed,
}

abbrev config : WorkerConfig
config = record {
  worker_id = 3;
  queue_capacity = 1;
  memory_budget_bytes = 100;
  batch_config = record { max_batch_size = 2; max_batch_wait = 0 };
}

abbrev open_worker : Worker
open_worker =
    record (new_worker config config.batch_config
      (record { capacity = 1; queue = []; closed = false })) { accepting = true; started = true }

abbrev full_worker : Worker
full_worker = record open_worker {
  lane = record { capacity = 1; queue = some 1 ∷ []; closed = false };
  queued_count = 1;
}

abbrev st : Store
unfolding new
st = record { requests = λ r. new (bytes "r") (bytes "m") (bytes "hi") 16; calls = [] }

abbrev late : List (WakeUp RequestPtr)
late = record { timeout = true; state = full_worker.lane } ∷ []

makes_a_worker :
    make config
    ≡ some (
        new_worker config config.batch_config (record { capacity = 1; queue = []; closed = false }))
unfolding make make_builder make_queue
makes_a_worker = refl

counts_a_push : (try_enqueue 5 (some 7) st open_worker).2.queued_count ≡ 1
unfolding try_enqueue count_pushed is_dead_request apply is_terminal try_timeout_if_expired try_push
    st
counts_a_push = refl

try_enqueue-Entered_example : Entered 5 7 st open_worker (try_enqueue 5 (some 7) st open_worker)
try_enqueue-Entered_example = try_enqueue-Entered 5 7 st open_worker

enqueue_until-Placed_example : Placed 7 late full_worker (
    count_or_timeout 7
      (is_dead_request 5 (some 7) st).1
      full_worker
      (push_timeout_error, full_worker.lane))
unfolding enqueue_until is_dead_request apply is_terminal try_timeout_if_expired wait_push_until st
enqueue_until-Placed_example =
    enqueue_until-Placed 5 7 late st full_worker
      (count_or_timeout 7 (is_dead_request 5 (some 7) st).1 full_worker
        (push_timeout_error, full_worker.lane))
      refl

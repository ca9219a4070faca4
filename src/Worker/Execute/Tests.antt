-- ===== src/Worker/Execute/Tests.antt =====
-- A batch of two requests on the synthetic backend, while another thread keeps cancelling one.
use mathlib.Core.Option
use adaptive_ai_inference_ru.Prelude.{
  ℕ, ◌≡◌, refl, inl, true, false, some, none, List, [], ◌∷◌, arith,
}
use adaptive_ai_inference_ru.Prelude.Bytes.{bytes, bytes_eq}
use adaptive_ai_inference_ru.Prelude.Assoc.{lookup, insert}
use adaptive_ai_inference_ru.Request.{
  RequestState, queued, completed, failed, cancelled, new, try_cancel, transition_to, try_complete,
  try_fail, try_timeout_if_expired, is_terminal, is_valid_transition,
}
use adaptive_ai_inference_ru.ResourceManager.{
  reserve, can_reserve, available, make as make_resources,
}
use adaptive_ai_inference_ru.ModelRegistry.{Models, find}
use adaptive_ai_inference_ru.EvictionPolicy.{lru}
use adaptive_ai_inference_ru.ModelManager.{unloaded, make as make_manager}
use adaptive_ai_inference_ru.ModelManager.Evict.{free_memory_for}
use adaptive_ai_inference_ru.ModelManager.Ensure.{
  ensure_resident, ensure_found, miss, count_miss, load_missing, load_model, load_reserved,
  finish_load,
}
use adaptive_ai_inference_ru.ModelManager.Invariant.{make-IsManager}
use adaptive_ai_inference_ru.SyntheticBackend.{
  SyntheticModelBackend, synthetic_backend, load, load_found, infer_batch, batch_found, run_batch,
  total_tokens, answers, answer,
}
use adaptive_ai_inference_ru.Store.{RequestPtr, apply}
use adaptive_ai_inference_ru.World.{Moment, World, call, check_dead}
use adaptive_ai_inference_ru.World.Later.{AreQuiet, apply-Advances, cancel-Later}
use adaptive_ai_inference_ru.Worker.{Worker, idle}
use adaptive_ai_inference_ru.Worker.Execute.{
  Raised, Executed, make_resident, fail_all, fail_one, fail_if_live, run_if_queued, each,
  execute_batch, execute_live, filter_live, start_running, start_batch, load_batch, run_loaded,
  infer_loaded, conclude, finish_batch, finish, finish_one, begin_batch, restore_idle,
  record_batch_metrics,
}
use adaptive_ai_inference_ru.Worker.Execute.Ends.{Done, IsLeft, execute_batch_ends}

-- Request 2 is cancelled before every call.
abbrev cancelling : ℕ → Moment
cancelling i = record { now = i; others = λ st. (apply try_cancel 2 st).1 }

cancelling-AreQuiet : AreQuiet cancelling
cancelling-AreQuiet i st = apply-Advances try_cancel 2 st cancel-Later

abbrev world : World
unfolding new
world = record {
  store = record {
    requests = λ r. record (new (bytes "r") (bytes "a") (bytes "hi") 16) { state = queued };
    calls = [];
  };
  time = 0;
}

abbrev registry : Models
registry =
    (
      bytes "a",
      record { model_id = bytes "a"; estimated_memory_bytes = 60; estimated_load_cost = 1 },
    )
    ∷ []

abbrev backend : SyntheticModelBackend
backend = record {
  models =
      (
        bytes "a",
        record {
          config = record {
            load_latency = 1;
            prefill_latency = 1;
            per_token_latency = 1;
            fail_load = false;
            fail_infer = false;
          };
          state = unloaded;
        },
      )
      ∷ [];
  metrics = record {
    load_count = 0;
    inference_count = 0;
    batch_inference_count = 0;
    last_batch_size = 0;
    last_simulated_load_cost = 0;
    total_simulated_load_cost = 0;
    last_simulated_inference_cost = 0;
    total_simulated_inference_cost = 0;
    last_simulated_batch_cost = 0;
    total_simulated_batch_cost = 0;
  };
}

abbrev worker : Worker
unfolding make_manager make_resources
worker = record {
  worker_id = 0;
  queue_capacity = 4;
  batch_builder = record { max_batch_size = 2; max_batch_wait = 0 };
  model_manager = make_manager 100;
  lane = record { capacity = 4; queue = []; closed = false };
  state = idle;
  active_count = 0;
  batch_metrics = record {
    batches_executed = 0;
    requests_executed_via_batches = 0;
    multi_request_batches = 0;
    max_batch_size_observed = 0;
  };
  deferred = none;
  queued_count = 2;
  accepting = true;
  started = true;
}

abbrev batch : List RequestPtr
batch = some 1 ∷ some 2 ∷ []

abbrev states : Executed SyntheticModelBackend → RequestState × RequestState
states o = ((o.world.store.requests 1).state, (o.world.store.requests 2).state)

one_completes_and_one_is_cancelled :
    Option.map states
      (execute_batch cancelling synthetic_backend registry lru none batch world worker backend)
    ≡ some (completed, cancelled)
unfolding execute_batch execute_live filter_live start_running start_batch load_batch make_resident
    run_loaded infer_loaded conclude finish_batch finish finish_one begin_batch restore_idle
    record_batch_metrics call check_dead apply try_cancel transition_to try_complete try_fail
    try_timeout_if_expired is_terminal is_valid_transition ensure_resident ensure_found miss
    count_miss load_missing load_model load_reserved finish_load reserve can_reserve available find
    lookup insert bytes_eq free_memory_for load load_found infer_batch batch_found run_batch
    total_tokens answers answer world worker
one_completes_and_one_is_cancelled = refl

-- A load that throws, with the entry left loading and its memory taken.
abbrev load_threw : Raised SyntheticModelBackend
unfolding worker
load_threw = record {
  what = "out of memory";
  manager = record (worker.model_manager) { resources = record { budget = 100; used = 60 } };
  backend = backend;
}

fails_after_exception :
    Option.map states (
      execute_batch cancelling synthetic_backend registry lru
        (some load_threw)
        batch
        world
        worker
        backend)
    ≡ some (failed, cancelled)
unfolding execute_batch execute_live filter_live start_running start_batch load_batch make_resident
    fail_all each fail_one fail_if_live run_if_queued begin_batch restore_idle call check_dead apply
    try_cancel transition_to try_fail try_timeout_if_expired is_terminal is_valid_transition world
    worker
fails_after_exception = refl

execute_batch_ends_example :
    (o : Executed SyntheticModelBackend) × (execute_batch cancelling synthetic_backend registry lru
        (some load_threw)
        batch
        world
        worker
        backend
      ≡ some o)
    × Done (IsLeft (some load_threw)) world worker batch o
unfolding worker world
execute_batch_ends_example =
    execute_batch_ends cancelling synthetic_backend registry lru (some load_threw) batch world
      worker backend cancelling-AreQuiet (refl, refl, make-IsManager 100 (omega arith))
      (inl refl, (inl refl, tt))

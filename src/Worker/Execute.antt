-- ===== src/Worker/Execute.antt =====
-- src/worker.cpp: `execute_batch`, with what other threads do to the requests before each call on
-- one of them. The manager's lock and the worker's own are not modelled: only the worker's thread
-- uses the manager and the backend. An exception of the backend that is not a `std::exception` has
-- the message "unknown backend exception". That a `load` or an `unload` throws is not in the model of
-- the manager: the exception, and what it leaves of the manager and the backend, is an argument.
-- `none`: `ensure_resident` runs out of fuel.
pub mod Fails
pub mod Loops
pub mod Ends
mod Tests
use adaptive_ai_inference_ru.Prelude.{
  ℕ, String, ◌+◌, ◌-◌, ◌^◌, ◌%◌, Bool, true, false, Option, none, some, List, [], ◌∷◌, map,
  if◌then◌else◌, ltb, ◌==◌, length, u64,
}
use adaptive_ai_inference_ru.Prelude.Bytes.{Bytes}
use adaptive_ai_inference_ru.Status.{
  ErrorCode, Status, ok, success, error, InferenceResult, result_ok,
}
use adaptive_ai_inference_ru.Request.{
  RequestState, queued, running, InferenceRequest, is_terminal, transition_to, try_fail,
  try_complete,
}
use adaptive_ai_inference_ru.ModelRegistry.{Models}
use adaptive_ai_inference_ru.EvictionPolicy.{IEvictionPolicy}
use adaptive_ai_inference_ru.Backend.{IModelBackend, BatchResults, results, throws}
use adaptive_ai_inference_ru.ModelManager.{ModelManager, Outcome}
use adaptive_ai_inference_ru.ModelManager.Ensure.{ensure_resident}
use adaptive_ai_inference_ru.Store.{Ref, RequestPtr, Store}
use adaptive_ai_inference_ru.World.{Moment, World, call, ask, check_dead}
use adaptive_ai_inference_ru.Worker.{Worker, WorkerBatchMetrics, idle, busy}

-- `fetch_sub` of an unsigned counter.
abbrev pub sub64 : ℕ → ℕ → ℕ
sub64 a b = (a + 2 ^ 64 - b) % 2 ^ 64

unfoldable pub begin_batch : ℕ → Worker → Worker
begin_batch n k = record k {
  state = busy;
  active_count = n;
  queued_count = sub64 k.queued_count (u64 n);
}

unfoldable pub restore_idle : Worker → Worker
restore_idle k = record k { state = idle; active_count = 0 }

abbrev count_executed : ℕ → WorkerBatchMetrics → WorkerBatchMetrics
count_executed n c = record {
  batches_executed = u64 (c.batches_executed + 1);
  requests_executed_via_batches = u64 (c.requests_executed_via_batches + n);
  multi_request_batches =
      if ltb 1 n then u64 (c.multi_request_batches + 1) else c.multi_request_batches;
  max_batch_size_observed =
      if ltb c.max_batch_size_observed n then n else c.max_batch_size_observed;
}

unfoldable pub record_batch_metrics : ℕ → Worker → Worker
record_batch_metrics n k = record k { batch_metrics = count_executed n k.batch_metrics }

abbrev pub is_queued : RequestState → Bool
is_queued queued = true
is_queued _ = false

-- What a batch leaves.
pub record Executed (S : Type 0) : Type 0 where
  pub status : Status
  pub world : World
  pub worker : Worker
  pub backend : S

-- An exception of a `load` or an `unload` in ensure_resident: its message, and the manager and the
-- backend as it left them.
pub record Raised (S : Type 0) : Type 0 where
  pub what : String
  pub manager : ModelManager
  pub backend : S

abbrev pub cardinality_mismatch : Status
cardinality_mismatch = error ErrorCode.internal_error "infer_batch result cardinality mismatch"

abbrev pub nothing_left : {S : Type 0} → World → Worker → S → Executed S
nothing_left w k b = record { status = success; world = w; worker = restore_idle k; backend = b }

-- A loop over the requests of a batch.
unfoldable pub each : (Ref → World → World) → List Ref → World → World
each f [] w = w
each f (r ∷ rs) w = each f rs (f r w)

module _ (moments : ℕ → Moment) where
  unfoldable pub filter_live : List RequestPtr → World → List Ref × World
  filter_live [] w = ([], w)
  filter_live (none ∷ ps) w = filter_live ps (check_dead moments none w).1
  filter_live (some r ∷ ps) w =
      let (dead, w') = check_dead moments (some r) w in
      let rest = filter_live ps w' in if dead then rest else (r ∷ rest.0, rest.1)

  unfoldable pub fail_if_live : Status → Ref → World → World
  fail_if_live e r w =
      let (ended, w1) = ask moments is_terminal r w in
      if ended then w1 else (call moments (try_fail e) r w1).1

  -- A queued request is moved to Running first, since a queued one cannot fail.
  unfoldable pub run_if_queued : Ref → World → World
  run_if_queued r w =
      let (state, w1) = ask moments (λ x. x.state) r w in
      if is_queued state then (call moments (transition_to running) r w1).1 else w1

  unfoldable pub fail_one : Status → Ref → World → World
  fail_one e r w =
      let (ended, w1) = ask moments is_terminal r w in
      if ended then w1 else fail_if_live e r (run_if_queued r w1)

  -- The first loop: the status of a transition to Running that is refused, if there is one.
  unfoldable pub start_running : List Ref → World → Option Status × World
  start_running [] w = (none, w)
  start_running (r ∷ rs) w =
      let (dead, w1) = check_dead moments (some r) w in
      let (started, w2) = call moments (transition_to running) r w1 in
      let skipped = start_running rs w1 in
      let rest = start_running rs w2 in
      if dead then skipped else if ok started then rest else (some started, w2)

  -- One round of the last loop, with the status to return so far.
  unfoldable pub finish_one : Ref → InferenceResult → Status → World → Status × World
  finish_one r res last w =
      let (ended, w1) = ask moments is_terminal r w in
      let (failed, w2) = call moments (try_fail res.status) r w1 in
      if ended
      then (last, w1)
      else if result_ok res
      then (last, (call moments (try_complete res) r w1).1)
      else ((if failed then res.status else last), w2)

  -- The lists are equally long.
  unfoldable pub finish : List Ref → List InferenceResult → Status → World → Status × World
  finish (r ∷ rs) (x ∷ xs) last w = let (last', w') = finish_one r x last w in finish rs xs last' w'
  finish _ _ last w = (last, w)

  module _ {S : Type 0} where
    -- The lambda `fail_all`, on a batch that has been filtered.
    unfoldable pub fail_all : Status → List Ref → World → Worker → S → Executed S
    fail_all e batch w k b = record {
      status = e;
      world = each (fail_one e) batch w;
      worker = restore_idle k;
      backend = b;
    }

    -- No result for the batch: the status, with the batch counted.
    unfoldable pub refuse_batch : Status → List Ref → World → Worker → S → Executed S
    refuse_batch e batch w k b = record {
      status = e;
      world = each (fail_if_live e) batch w;
      worker = restore_idle (record_batch_metrics (length batch) k);
      backend = b;
    }

    unfoldable pub finish_batch : List Ref → List InferenceResult → World → Worker → S → Executed S
    finish_batch batch answers w k b =
        let (last, w') = finish batch answers success w in
        record {
          status = last;
          world = w';
          worker = restore_idle (record_batch_metrics (length batch) k);
          backend = b;
        }

    unfoldable pub conclude : List Ref → BatchResults → World → Worker → S → Executed S
    conclude batch (throws what) w k b = fail_all (error ErrorCode.internal_error what) batch w k b
    conclude batch (results answers) w k b =
        if length answers == length batch
        then finish_batch batch answers w k b
        else refuse_batch cardinality_mismatch batch w k b

  module _ {S : Type 0} (backend : IModelBackend S) (registry : Models)
      (policy : IEvictionPolicy) where
    -- On what is left of the batch once its model is resident.
    unfoldable pub infer_loaded : List Ref × World → Worker → S → Executed S
    infer_loaded ([], w) k b = nothing_left w k b
    infer_loaded (r ∷ rs, w) k b =
        let (answer, b') = backend.infer_batch (map (λ i. w.store.requests i) (r ∷ rs)) b in
        conclude (r ∷ rs) answer w k b'

    unfoldable pub run_loaded : List Ref → World → Worker → Option (Outcome S) → Option (Executed S)
    run_loaded batch w k none = none
    run_loaded batch w k (some o) =
        let k' = record k { model_manager = o.manager } in
        some (
          if ok o.status
          then infer_loaded (filter_live (map (λ i. some i) batch) w) k' o.backend
          else refuse_batch o.status batch w k' o.backend)

    -- On a batch whose requests are Running: the model is made resident, or the outer handler catches
    -- the exception.
    unfoldable pub make_resident :
        Option (Raised S) → List Ref → Bytes → World → Worker → S → Option (Executed S)
    make_resident none batch id w k b =
        run_loaded batch w k (ensure_resident backend registry policy id k.model_manager b)
    make_resident (some x) batch id w k b =
        let k' = record k { model_manager = x.manager } in
        some (fail_all (error ErrorCode.internal_error x.what) batch w k' x.backend)

    -- On what is left of the batch once its requests are Running.
    unfoldable pub load_batch :
        Option (Raised S) → List Ref × World → Worker → S → Option (Executed S)
    load_batch raised ([], w) k b = some (nothing_left w k b)
    load_batch raised (r ∷ rs, w) k b =
        make_resident raised (r ∷ rs) (w.store.requests r).model_id w k b

    unfoldable pub start_batch :
        Option (Raised S) → List Ref → Option Status × World → Worker → S → Option (Executed S)
    start_batch raised batch (some e, w) k b = some (fail_all e batch w k b)
    start_batch raised batch (none, w) k b =
        load_batch raised (filter_live (map (λ i. some i) batch) w) k b

    unfoldable pub execute_live :
        Option (Raised S) → List Ref × World → Worker → S → Option (Executed S)
    execute_live raised ([], w) k b =
        some (record { status = success; world = w; worker = k; backend = b })
    execute_live raised (r ∷ rs, w) k b =
        start_batch raised (r ∷ rs) (start_running (r ∷ rs) w) (begin_batch (length (r ∷ rs)) k) b

    -- `raised`: the exception by which ensure_resident leaves, if it does.
    unfoldable pub execute_batch :
        Option (Raised S) → List RequestPtr → World → Worker → S → Option (Executed S)
    execute_batch raised batch w k b = execute_live raised (filter_live batch w) k b

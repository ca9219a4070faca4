-- ===== src/Runtime/Routing.antt =====
-- src/runtime.cpp: `submit` and `route_request`, with what other threads do to the requests before
-- each call on one, and what the workers do between the choice of a worker and the enqueueing.
use adaptive_ai_inference_ru.Prelude.{
  ℕ, ◌+◌, Bool, true, false, Option, none, some, List, [], ◌∷◌, if◌then◌else◌, ◌==◌,
}
use adaptive_ai_inference_ru.Status.{ErrorCode, Status, ok, success, error, Result, found, fails}
use adaptive_ai_inference_ru.Request.{RequestState, received, try_reject}
use adaptive_ai_inference_ru.ModelRegistry.{ModelSpec, find}
use adaptive_ai_inference_ru.Router.{RoutingResult}
use adaptive_ai_inference_ru.Router.Interface.{IWorkerRouter}
use adaptive_ai_inference_ru.Scheduler.{IRequestScheduler}
use adaptive_ai_inference_ru.Admission.{Others, Answer, admit}
use adaptive_ai_inference_ru.Store.{Ref, RequestPtr}
use adaptive_ai_inference_ru.World.{Moment, World, call, ask, check_dead}
use adaptive_ai_inference_ru.Worker.{Worker, try_enqueue}
use adaptive_ai_inference_ru.Runtime.{Runtime, find_worker, collect_snapshots}

abbrev pub is_received : RequestState → Bool
is_received received = true
is_received _ = false

abbrev pub null_request : Status
null_request = error ErrorCode.internal_error "null request"

abbrev pub not_accepting : Status
not_accepting = error ErrorCode.runtime_stopped "runtime is not accepting work"

abbrev pub worker_missing : Status
worker_missing = error ErrorCode.internal_error "selected worker missing"

unfoldable pub put_worker : ℕ → Worker → List Worker → List Worker
put_worker id k' [] = []
put_worker id k' (k ∷ ks) = if k.worker_id == id then k' ∷ ks else k ∷ put_worker id k' ks

-- What `route_request` leaves.
pub record Routed (R : Type 0) : Type 0 where
  pub status : Status
  pub world : World
  pub router : R
  pub workers : List Worker

module _ (moments : ℕ → Moment) where
  -- A request that comes when the runtime takes no work.
  unfoldable pub turn_away : Ref → World → World
  turn_away r w =
      let (state, w1) = ask moments (λ x. x.state) r w in
      if is_received state then (call moments (try_reject not_accepting) r w1).1 else w1

  unfoldable pub submit :
      {S R : Type 0} → IRequestScheduler S → Others → RequestPtr → World → Runtime S R → Answer S
  submit scheduler others none w rt = (null_request, w.store, rt.scheduler)
  submit scheduler others (some r) w rt =
      let (dead, w') = check_dead moments (some r) w in
      if dead
      then (success, w'.store, rt.scheduler)
      else if rt.accepting
      then admit scheduler others (moments w'.time).now (some r) w'.store rt.scheduler
      else (not_accepting, (turn_away r w').store, rt.scheduler)

  module _ {R : Type 0} where
    unfoldable pub reject_with : Status → Ref → World → R → List Worker → Routed R
    reject_with e r w s ks = record {
      status = e;
      world = (call moments (try_reject e) r w).1;
      router = s;
      workers = ks;
    }

    -- `try_enqueue` on the worker that was chosen.
    unfoldable pub hand_over : Ref → ℕ → Option Worker → World → R → List Worker → Routed R
    hand_over r id none w s ks = reject_with worker_missing r w s ks
    hand_over r id (some k) w s ks =
        let m = moments w.time in
        let (status, st, k') = try_enqueue m.now (some r) (m.others w.store) k in
        let w' : World = record { store = st; time = w.time + 1 } in
        if ok status
        then record { status = success; world = w'; router = s; workers = put_worker id k' ks }
        else reject_with status r w' s (put_worker id k' ks)

    unfoldable pub route_to : Ref → RoutingResult × R → World → List Worker → Routed R
    route_to r (fails e, s) w ks = reject_with e r w s ks
    route_to r (found id, s) w ks = hand_over r id (find_worker id ks) w s ks

    -- `between`: what the workers do between the snapshots and the enqueueing.
    unfoldable pub route_found :
        IWorkerRouter R
        → (List Worker → List Worker)
        → Ref
        → Result ModelSpec
        → World
        → R
        → List Worker
        → Routed R
    route_found router between r (fails e) w s ks = reject_with e r w s ks
    route_found router between r (found spec) w s ks =
        route_to r (router.select spec (collect_snapshots ks) s) w (between ks)

    unfoldable pub route_request :
        {S : Type 0}
        → IWorkerRouter R
        → (List Worker → List Worker)
        → RequestPtr
        → World
        → Runtime S R
        → Routed R
    route_request router between none w rt = record {
      status = success;
      world = w;
      router = rt.router;
      workers = rt.workers;
    }
    route_request router between (some r) w rt =
        let (dead, w') = check_dead moments (some r) w in
        if dead
        then record { status = success; world = w'; router = rt.router; workers = rt.workers }
        else route_found router between r (find (w'.store.requests r).model_id rt.registry) w'
            rt.router rt.workers

-- ===== src/Lib.antt =====
-- Adaptive AI inference runtime: a model of its control plane and proofs of what it promises.
--
-- The program serves inference requests. A request enters through the runtime, waits in a
-- scheduler, is routed to a worker, waits in the worker's lane, is batched with others of its
-- model, and is answered by a backend once the model is resident in the worker's memory budget.
--
-- Status: include/airuntime/status.hpp (error codes, statuses, results).
-- Request: src/request.cpp. A request is a record; each method returns the new record with the
--   observer calls that it makes and whether it wakes the waiters. Threads that share a request
--   are a list of commands (Request/Ops), since every method holds the request's mutex.
-- BoundedQueue: include/airuntime/bounded_queue.hpp. A blocking method takes the queue states
--   that the thread finds when it wakes, and is still waiting if they run out.
-- ResourceManager: src/resource_manager.cpp, in 64-bit arithmetic.
-- ModelRegistry: src/model_registry.cpp, the builder and the registry.
-- EvictionPolicy: src/eviction_policy.cpp, the interface IEvictionPolicy with the law that its
--   client relies on (a policy reorders the candidates), and the two policies that meet it.
-- Backend: include/airuntime/backend.hpp, the interface IModelBackend over a state of the
--   backend's own. Nothing is assumed of its answers. A load or an unload answers with a status; the
--   exception by which one may leave is an argument of execute_batch.
-- ModelManager: src/model_manager.cpp, over any backend, registry and policy: ModelManager/Evict
--   is evict_one and free_memory_for, ModelManager/Ensure is ensure_resident. The loop of
--   free_memory_for takes fuel, one more than the number of entries, which is enough because
--   every round that goes on makes one model less resident.
-- Router: src/router.cpp, the three routing policies over snapshots of the workers.
-- Store: the requests that the parts share by std::shared_ptr, by address, and is_dead_request.
-- World: calls on shared requests with what other threads do before each call, and the readings of
--   the clock. World/Later and World/Calm say what the other threads may do to a request: nothing
--   that undoes its progress (once a worker has it), or only end it (while it waits), whatever they
--   do to other requests.
-- Scheduler: src/scheduler.cpp, the interface IRequestScheduler and FifoScheduler.
-- Admission: src/admission_controller.cpp over any scheduler. What other threads do with the
--   request between the steps of admit is a list of commands for each gap.
-- BatchBuilder: src/batch_builder.cpp over any lane. The loop of form recurses on the room left.
-- SyntheticBackend: src/synthetic_backend.cpp, and its instance of IModelBackend.
-- Worker: src/worker.cpp, a worker's state and snapshot and how requests enter its lane;
--   Worker/Execute is execute_batch over any backend, registry and eviction policy, where
--   ensure_resident returns or leaves by an exception, with any manager left; Worker/Round is
--   what run_loop does with a formed batch.
-- WorkloadAware: src/workload_aware_scheduler.cpp; WorkloadAware/Select is next and select_locked,
--   whose recursion has as much fuel as there are entries, and one more: each run that calls
--   select_locked again has taken an entry out.
-- Runtime: src/runtime.cpp over any scheduler and router: the constructor, start, stop and the
--   snapshots; Runtime/Routing is submit and route_request. What the workers do between the choice
--   of a worker and the enqueueing is a function of theirs.
-- RequestHandler: src/serving/request_handler.cpp over any JSON library (RequestHandler/Json);
--   RequestHandler/Parse is parse_infer_request, RequestHandler/Get is handle_get.
-- LlamaConfig: src/llama/llama_cpp_backend_config.cpp.
-- Prelude: lists, byte strings, association lists and sorting that the parts share.
--
-- Strings that the code compares (ids of models and requests) are byte lists; messages are
-- strings. An unordered map is an association list in its iteration order, and std::sort is an
-- insertion sort. Unsigned 64-bit values wrap as written; durations and time points are natural
-- numbers. The notifications of condition variables are left out, except that a request says
-- whether its waiters are woken. Allocation failure is left out.
--
-- Not modelled: the pops of the worker's loop; the HTTP server and its sessions, the llama.cpp
-- backend and the server's command line; benchmarks and the demo.
pub mod Prelude
pub mod Status
pub mod Request
pub mod BoundedQueue
pub mod ResourceManager
pub mod ModelRegistry
pub mod EvictionPolicy
pub mod Backend
pub mod ModelManager
pub mod Router
pub mod Store
pub mod Scheduler
pub mod Admission
pub mod BatchBuilder
pub mod SyntheticBackend
pub mod Worker
pub mod World
pub mod WorkloadAware
pub mod Runtime
pub mod RequestHandler
pub mod LlamaConfig

-- ===== src/Router/Interface.antt =====
-- include/airuntime/router.hpp: the router as the runtime sees it, over a state of its own, and the
-- three routers as such.
use adaptive_ai_inference_ru.Prelude.{ℕ, List}
use adaptive_ai_inference_ru.ModelRegistry.{ModelSpec}
use adaptive_ai_inference_ru.Router.{
  WorkerSnapshot, RoutingResult, RouterMetrics, round_robin, least_loaded, residency_aware,
}

pub record IWorkerRouter (R : Type 0) : Type 0 where
  pub select : ModelSpec → List WorkerSnapshot → R → RoutingResult × R

abbrev pub round_robin_router : IWorkerRouter ℕ
round_robin_router = record { select = round_robin }

abbrev pub least_loaded_router : IWorkerRouter (Unit {0})
least_loaded_router = record { select = λ model workers s. (least_loaded model workers, s) }

abbrev pub residency_aware_router : IWorkerRouter RouterMetrics
residency_aware_router = record { select = residency_aware }

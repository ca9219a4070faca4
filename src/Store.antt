-- ===== src/Store.antt =====
-- The requests that the parts of the runtime share by `std::shared_ptr`: a store of requests by
-- address, with the observer calls made so far. `is_dead_request` is the helper that scheduler.cpp,
-- workload_aware_scheduler.cpp and worker.cpp each have; one call reads the clock once, as `now`.
pub mod Dead
use adaptive_ai_inference_ru.Prelude.{
  ℕ, Bool, true, false, Option, none, some, List, ◌++◌, if◌then◌else◌, ◌==◌,
}
use adaptive_ai_inference_ru.Request.{
  InferenceRequest, Call, Outcome, is_terminal, try_timeout_if_expired,
}

-- An address; `RequestPtr` may be null.
abbrev pub Ref : Type 0
Ref = ℕ

abbrev pub RequestPtr : Type 0
RequestPtr = Option Ref

pub record Store : Type 0 where
  pub requests : Ref → InferenceRequest
  pub calls : List Call

-- A method call on the object at an address.
unfoldable pub apply : {A : Type 0} → (InferenceRequest → Outcome A) → Ref → Store → A × Store
apply f r st =
    let o = f (st.requests r) in
    (
      o.value,
      record {
        requests = λ j. if j == r then o.request else st.requests j;
        calls = st.calls ++ o.calls;
      },
    )

unfoldable pub is_dead_request : ℕ → RequestPtr → Store → Bool × Store
is_dead_request now none st = (true, st)
is_dead_request now (some r) st =
    if is_terminal (st.requests r)
    then (true, st)
    else (let st' = (apply (try_timeout_if_expired now) r st).1 in
        (is_terminal (st'.requests r), st'))

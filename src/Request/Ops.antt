-- ===== src/Request/Ops.antt =====
-- The methods of a request as commands. Each runs under the request's mutex, so an interleaving
-- of the threads that share a request is a list of commands. (`try_timeout_if_expired` takes the
-- mutex twice: what may run between is a list of commands before a plain `try_timeout`.)
use adaptive_ai_inference_ru.Prelude.{ℕ, Bool, Option, List, [], ◌∷◌, ◌++◌}
use adaptive_ai_inference_ru.Status.{Status, InferenceResult}
use adaptive_ai_inference_ru.Request.{
  RequestState, InferenceRequest, Call, Outcome, set_deadline, add_observer, transition_to,
  try_complete, try_fail, try_reject, try_cancel, try_timeout, try_timeout_if_expired,
}
use adaptive_ai_inference_ru.Prelude.{false}

pub data Op : Type 0 where
  set_deadline_op : Option ℕ → Op
  add_observer_op : Option ℕ → Op
  transition_op : RequestState → Op
  complete_op : InferenceResult → Op
  fail_op : Status → Op
  reject_op : Status → Op
  cancel_op : Op
  timeout_op : Op
  timeout_if_expired_op : ℕ → Op

-- What a command leaves: the object, the calls and whether the waiters wake.
pub record Effect : Type 0 where
  pub request : InferenceRequest
  pub calls : List Call
  pub woken : Bool

abbrev pub effect : {A : Type 0} → Outcome A → Effect
effect o = record { request = o.request; calls = o.calls; woken = o.woken }

unfoldable pub step : InferenceRequest → Op → Effect
unfolding set_deadline add_observer transition_to try_complete try_fail try_reject try_cancel
    try_timeout try_timeout_if_expired
step r (set_deadline_op d) = record { request = set_deadline d r; calls = []; woken = false }
step r (add_observer_op o) = effect (add_observer o r)
step r (transition_op s) = effect (transition_to s r)
step r (complete_op res) = effect (try_complete res r)
step r (fail_op e) = effect (try_fail e r)
step r (reject_op e) = effect (try_reject e r)
step r cancel_op = effect (try_cancel r)
step r timeout_op = effect (try_timeout r)
step r (timeout_if_expired_op now) = effect (try_timeout_if_expired now r)

-- The object after a list of commands, and all observer calls in order.
unfoldable pub run : InferenceRequest → List Op → InferenceRequest × List Call
run r [] = (r, [])
run r (o ∷ os) = let rest = run (step r o).request os in (rest.0, (step r o).calls ++ rest.1)

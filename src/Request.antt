-- ===== src/Request.antt =====
-- src/request.cpp and include/airuntime/request.hpp: the life of an inference request.
-- A method that mutates the object returns an outcome: the new object, the observer calls that it
-- makes (which observer, with which snapshot), whether it wakes the waiters, and its return value.
-- An observer (a `std::function`) is named by a number; one that throws is ignored by the code.
pub mod Ops
pub mod Lifecycle
pub mod Terminal
pub mod Observers
mod Tests
use adaptive_ai_inference_ru.Prelude.{
  ℕ, Bool, true, false, Option, none, some, List, [], ◌∷◌, ◌++◌, map, if◌then◌else◌, ◌||◌, ltb, leb,
}
use adaptive_ai_inference_ru.Prelude.Bytes.{Bytes}
use adaptive_ai_inference_ru.Status.{
  ErrorCode, Status, InferenceResult, success, error, failure_result,
}

pub data RequestState : Type 0 where
  received queued running completed rejected failed cancelled timed_out : RequestState

pub record RequestSnapshot : Type 0 where
  pub request_id : Bytes
  pub model_id : Bytes
  pub state : RequestState
  pub result : Option InferenceResult

pub record InferenceRequest : Type 0 where
  pub request_id : Bytes
  pub model_id : Bytes
  pub prompt : Bytes
  pub max_output_tokens : ℕ
  pub state : RequestState
  pub result : Option InferenceResult
  pub deadline : Option ℕ
  pub observers : List ℕ

unfoldable pub new : Bytes → Bytes → Bytes → ℕ → InferenceRequest
new id model prompt tokens = record {
  request_id = id;
  model_id = model;
  prompt = prompt;
  max_output_tokens = tokens;
  state = received;
  result = none;
  deadline = none;
  observers = [];
}

abbrev pub Call : Type 0
Call = ℕ × RequestSnapshot

pub record Outcome (A : Type 0) : Type 0 where
  pub request : InferenceRequest
  pub calls : List Call
  pub woken : Bool
  pub value : A

abbrev pub is_terminal_state : RequestState → Bool
is_terminal_state completed = true
is_terminal_state rejected = true
is_terminal_state failed = true
is_terminal_state cancelled = true
is_terminal_state timed_out = true
is_terminal_state _ = false

unfoldable pub is_terminal : InferenceRequest → Bool
is_terminal r = is_terminal_state r.state

unfoldable pub is_valid_transition : RequestState → RequestState → Bool
is_valid_transition received queued = true
is_valid_transition received rejected = true
is_valid_transition received cancelled = true
is_valid_transition received timed_out = true
is_valid_transition queued running = true
is_valid_transition queued rejected = true
is_valid_transition queued cancelled = true
is_valid_transition queued timed_out = true
is_valid_transition running completed = true
is_valid_transition running failed = true
is_valid_transition running cancelled = true
is_valid_transition running timed_out = true
is_valid_transition _ _ = false

unfoldable pub snapshot : InferenceRequest → RequestSnapshot
snapshot r = record {
  request_id = r.request_id;
  model_id = r.model_id;
  state = r.state;
  result = r.result;
}

unfoldable pub set_deadline : Option ℕ → InferenceRequest → InferenceRequest
set_deadline d r = record r { deadline = d }

abbrev reached : Option ℕ → ℕ → Bool
reached none now = false
reached (some d) now = leb d now

unfoldable pub is_expired : ℕ → InferenceRequest → Bool
is_expired now r = reached r.deadline now

-- One call for each registered observer, in the order of registration.
unfoldable pub invoke_observers : List ℕ → RequestSnapshot → List Call
invoke_observers os snap = map (λ o. (o, snap)) os

-- A null observer is ignored. On a terminal request the observer is called at once and not kept.
unfoldable pub add_observer : Option ℕ → InferenceRequest → Outcome (Unit {0})
unfolding is_terminal snapshot
add_observer none r = record { request = r; calls = []; woken = false; value = tt }
add_observer (some o) r =
    if is_terminal r
    then record {
      request = r;
      calls = invoke_observers (o ∷ []) (snapshot r);
      woken = false;
      value = tt;
    }
    else record {
      request = record r { observers = r.observers ++ (o ∷ []) };
      calls = [];
      woken = false;
      value = tt;
    }

-- `none`: the transition is refused, and the object is unchanged.
unfoldable pub try_transition_to_locked : RequestState → InferenceRequest → Option InferenceRequest
try_transition_to_locked next r =
    if is_valid_transition r.state next then some (record r { state = next }) else none

-- The observers that remain registered after a notification.
abbrev remaining : InferenceRequest → List ℕ
remaining r = if is_terminal_state r.state then [] else r.observers

unfoldable pub transition_to : RequestState → InferenceRequest → Outcome Status
unfolding try_transition_to_locked snapshot
transition_to next r = elim (try_transition_to_locked next r) [
  | none ↦ record {
    request = r;
    calls = [];
    woken = false;
    value = error ErrorCode.invalid_state_transition "invalid request state transition";
  }
  | some s ↦ record {
    request = record s { observers = remaining s };
    calls = invoke_observers s.observers (snapshot s);
    woken = is_terminal_state s.state;
    value = success;
  }
]

-- The common body of the `try_*` methods: take the transition, store the result, and hand the
-- snapshot to the observers, which are swapped out.
unfoldable pub try_finish : RequestState → InferenceResult → InferenceRequest → Outcome Bool
unfolding try_transition_to_locked snapshot
try_finish next res r = elim (try_transition_to_locked next r) [
  | none ↦ record { request = r; calls = []; woken = false; value = false }
  | some s ↦ record {
    request = record s { result = some res; observers = [] };
    calls = invoke_observers s.observers (snapshot (record s { result = some res }));
    woken = is_terminal_state s.state;
    value = true;
  }
]

unfoldable pub try_complete : InferenceResult → InferenceRequest → Outcome Bool
unfolding try_finish
try_complete res = try_finish completed res

unfoldable pub try_fail : Status → InferenceRequest → Outcome Bool
unfolding try_finish
try_fail e = try_finish failed (failure_result e)

unfoldable pub try_reject : Status → InferenceRequest → Outcome Bool
unfolding try_finish
try_reject e = try_finish rejected (failure_result e)

unfoldable pub try_cancel : InferenceRequest → Outcome Bool
unfolding try_finish
try_cancel = try_finish cancelled (failure_result (error ErrorCode.cancelled "request cancelled"))

unfoldable pub try_timeout : InferenceRequest → Outcome Bool
unfolding try_finish
try_timeout = try_finish timed_out (failure_result (error ErrorCode.timed_out "request timed out"))

-- No outcome but `false`: the object is unchanged.
abbrev refused : InferenceRequest → Outcome Bool
refused r = record { request = r; calls = []; woken = false; value = false }

unfoldable pub try_timeout_if_expired : ℕ → InferenceRequest → Outcome Bool
unfolding is_terminal try_timeout
try_timeout_if_expired now r =
    if is_terminal r then refused r else if reached r.deadline now then try_timeout r else refused r

-- The legacy helpers give a status in place of the flag.
abbrev as_status : Outcome Bool → Outcome Status
as_status o = record {
  request = o.request;
  calls = o.calls;
  woken = o.woken;
  value =
      if o.value
      then success
      else error ErrorCode.invalid_state_transition "request already terminal";
}

unfoldable pub complete : InferenceResult → InferenceRequest → Outcome Status
unfolding try_complete
complete res r = as_status (try_complete res r)

unfoldable pub fail : Status → InferenceRequest → Outcome Status
unfolding try_fail
fail e r = as_status (try_fail e r)

unfoldable pub reject : Status → InferenceRequest → Outcome Status
unfolding try_reject
reject e r = as_status (try_reject e r)

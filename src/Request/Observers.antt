-- ===== src/Request/Observers.antt =====
-- Every observer hears of the end of a request exactly as often as it was added.
use adaptive_ai_inference_ru.Prelude.{
  ℕ, ◌+◌, ◌≡◌, refl, true, ◌&&◌, none, some, List, [], ◌∷◌, ◌++◌, arith, ◌==◌, if◌then◌else◌,
}
use adaptive_ai_inference_ru.Prelude.Bytes.{Bytes}
use adaptive_ai_inference_ru.Status.{ErrorCode, InferenceResult, failure_result, error}
use adaptive_ai_inference_ru.Request.{
  RequestState, completed, failed, rejected, cancelled, timed_out, try_finish, transition_to,
  add_observer, snapshot, InferenceRequest, RequestSnapshot, Call, new, is_terminal_state,
  invoke_observers,
}
use adaptive_ai_inference_ru.Request.Ops.{Op, step, run}

-- How often observer `o` is in a list.
abbrev pub count : ℕ → List ℕ → ℕ
count o [] = 0
count o (x ∷ xs) = (if x == o then 1 else 0) + count o xs

-- How many calls tell observer `o` of a terminal state.
abbrev pub terminal_calls : ℕ → List Call → ℕ
terminal_calls o [] = 0
terminal_calls o ((x, snap) ∷ cs) =
    (if x == o && is_terminal_state snap.state then 1 else 0) + terminal_calls o cs

abbrev pub adds_of : ℕ → Op → ℕ
adds_of o (Op.add_observer_op (some x)) = if x == o then 1 else 0
adds_of o _ = 0

-- How often the commands add observer `o`.
abbrev pub adds : ℕ → List Op → ℕ
adds o [] = 0
adds o (c ∷ cs) = adds_of o c + adds o cs

count-append : (o : ℕ) (xs ys : List ℕ) → count o (xs ++ ys) ≡ count o xs + count o ys
count-append o [] ys = omega arith
count-append o (x ∷ xs) ys = omega (arith, count-append o xs ys)

terminal_calls-append :
    (o : ℕ) (xs ys : List Call)
    → terminal_calls o (xs ++ ys) ≡ terminal_calls o xs + terminal_calls o ys
terminal_calls-append o [] ys = omega arith
terminal_calls-append o ((x, s) ∷ xs) ys = omega (arith, terminal_calls-append o xs ys)

terminal_calls-invoke :
    (o : ℕ) (os : List ℕ) (snap : RequestSnapshot)
    → terminal_calls o (invoke_observers os snap)
      ≡ (if is_terminal_state snap.state then count o os else 0)
unfolding invoke_observers
terminal_calls-invoke o [] snap = ground arith
terminal_calls-invoke o (x ∷ os) snap = ground (arith, terminal_calls-invoke o os snap)

-- A terminal request keeps no observer.
abbrev pub IsSwept : InferenceRequest → Type 0
IsSwept r = is_terminal_state r.state ≡ true → r.observers ≡ []

step-IsSwept : (r : InferenceRequest) (c : Op) → IsSwept r → IsSwept (step r c).request
unfolding step
step-IsSwept r (Op.set_deadline_op d) w = w
step-IsSwept r (Op.add_observer_op none) w = w
step-IsSwept r (Op.add_observer_op (some o)) w = ground arith
step-IsSwept r c w = ground arith

finish_calls :
    (o : ℕ) (next : RequestState) (res : InferenceResult) (r : InferenceRequest)
    → is_terminal_state next ≡ true
    → terminal_calls o (try_finish next res r).calls
        + count o (try_finish next res r).request.observers
      ≡ count o r.observers
unfolding try_finish
finish_calls o next res r h = ground (
  arith,
  terminal_calls-invoke o r.observers (snapshot (record r { state = next; result = some res })),
)

transition_calls :
    (o : ℕ) (next : RequestState) (r : InferenceRequest)
    → terminal_calls o (transition_to next r).calls
        + count o (transition_to next r).request.observers
      ≡ count o r.observers
unfolding transition_to
transition_calls o next r =
    ground (arith, terminal_calls-invoke o r.observers (snapshot (record r { state = next })))

add_calls :
    (o x : ℕ) (r : InferenceRequest)
    → terminal_calls o (add_observer (some x) r).calls
        + count o (add_observer (some x) r).request.observers
      ≡ count o r.observers + adds_of o (Op.add_observer_op (some x))
unfolding add_observer
add_calls o x r =
    ground
      (arith, terminal_calls-invoke o (x ∷ []) (snapshot r), count-append o r.observers (x ∷ []))

-- What one command tells and keeps, against what was kept and added.
step_calls :
    (o : ℕ) (r : InferenceRequest) (c : Op)
    → terminal_calls o (step r c).calls + count o (step r c).request.observers
      ≡ count o r.observers + adds_of o c
unfolding step
step_calls o r (Op.set_deadline_op d) = omega arith
step_calls o r (Op.add_observer_op none) = omega arith
step_calls o r (Op.add_observer_op (some x)) = add_calls o x r
step_calls o r (Op.transition_op s) = omega (arith, transition_calls o s r)
step_calls o r (Op.complete_op v) = omega (arith, finish_calls o completed v r refl)
step_calls o r (Op.fail_op e) = omega (arith, finish_calls o failed _ r refl)
step_calls o r (Op.reject_op e) = omega (arith, finish_calls o rejected _ r refl)
step_calls o r Op.cancel_op = omega (arith, finish_calls o cancelled _ r refl)
step_calls o r Op.timeout_op = omega (arith, finish_calls o timed_out _ r refl)
step_calls o r (Op.timeout_if_expired_op now) = ground (
  arith,
  finish_calls o timed_out (failure_result (error ErrorCode.timed_out "request timed out")) r refl,
)

run_calls :
    (o : ℕ) (r : InferenceRequest) (cs : List Op)
    → terminal_calls o (run r cs).1 + count o (run r cs).0.observers
      ≡ count o r.observers + adds o cs
unfolding run
run_calls o r [] = omega arith
run_calls o r (c ∷ cs) = omega (
  arith,
  step_calls o r c,
  run_calls o (step r c).request cs,
  terminal_calls-append o (step r c).calls (run (step r c).request cs).1,
)

run-IsSwept : (r : InferenceRequest) (cs : List Op) → IsSwept r → IsSwept (run r cs).0
unfolding run
run-IsSwept r [] w = w
run-IsSwept r (c ∷ cs) w = run-IsSwept (step r c).request cs (step-IsSwept r c w)

-- Once a new request has become terminal, each observer has been told of a terminal state exactly
-- as often as it was added, before or after the end. At any time the times that it was told of a
-- terminal state and the registrations still kept add up to the times that it was added.
pub observers_told :
    (o : ℕ) (id model prompt : Bytes) (tokens : ℕ) (cs : List Op)
    → let (r, calls) = run (new id model prompt tokens) cs in
      (is_terminal_state r.state ≡ true → terminal_calls o calls ≡ adds o cs)
      × (terminal_calls o calls + count o r.observers ≡ adds o cs)
unfolding new
observers_told o id model prompt tokens cs =
    let r = new id model prompt tokens in
    let all = run_calls o r cs in
    let swept = run-IsSwept r cs (λ h. refl) in
    (λ h. ground (arith, all, swept h), omega (arith, all))

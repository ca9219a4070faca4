-- ===== src/Admission/Laws.antt =====
-- What becomes of a request that is admitted, whatever other threads do with it meanwhile.
use adaptive_ai_inference_ru.Prelude.{
  ℕ, if_cases, ◌≡◌, refl, sym, subst, ◌⊎◌, inl, inr, true, false, none, some, List, [], ◌∷◌, All,
  Bool-cases, arith,
}
use adaptive_ai_inference_ru.Status.{Status, ok, success}
use adaptive_ai_inference_ru.Request.{
  RequestState, received, queued, InferenceRequest, is_terminal, transition_to, try_reject,
  try_timeout_if_expired, is_valid_transition,
}
use adaptive_ai_inference_ru.Request.Ops.{Op, step, run, transition_op}
use adaptive_ai_inference_ru.Store.{Ref, Store, apply}
use adaptive_ai_inference_ru.Store.Dead.{apply_self, apply_value}
use adaptive_ai_inference_ru.Scheduler.{IRequestScheduler}
use adaptive_ai_inference_ru.Admission.{
  Others, Answer, run_all, meanwhile, reject_status, refuse, enqueue_or_refuse, admit_live, admit,
}

-- A command that finishes the request, observes it or sets its deadline.
abbrev pub IsNoTransition : Op → Type 0
IsNoTransition (transition_op s) = ⊥
IsNoTransition _ = Unit

abbrev pub AreNoTransitions : Others → Type 0
AreNoTransitions o =
    All IsNoTransition o.before_is_terminal
    × All IsNoTransition o.before_transition_to
    × All IsNoTransition o.before_enqueue
    × All IsNoTransition o.before_try_reject

abbrev pub IsStateOrTerminal : RequestState → InferenceRequest → Type 0
IsStateOrTerminal s x = (x.state ≡ s) ⊎ (is_terminal x ≡ true)

step_keeps :
    (x : InferenceRequest) (o : Op) (s : RequestState)
    → IsNoTransition o
    → IsStateOrTerminal s x
    → IsStateOrTerminal s (step x o).request
unfolding step is_valid_transition is_terminal
step_keeps x (Op.set_deadline_op d) s h k = k
step_keeps x (Op.add_observer_op none) s h k = k
step_keeps x (Op.add_observer_op (some o)) s h k = ground arith
step_keeps x o s h k = ground arith

run_keeps :
    (x : InferenceRequest) (os : List Op) (s : RequestState)
    → All IsNoTransition os
    → IsStateOrTerminal s x
    → IsStateOrTerminal s (run x os).0
unfolding run
run_keeps x [] s h k = k
run_keeps x (o ∷ os) s h k = run_keeps (step x o).request os s h.1 (step_keeps x o s h.0 k)

meanwhile_keeps :
    (os : List Op) (r : Ref) (st : Store) (s : RequestState)
    → All IsNoTransition os
    → IsStateOrTerminal s (st.requests r)
    → IsStateOrTerminal s ((meanwhile os r st).requests r)
unfolding meanwhile
meanwhile_keeps os r st s h k =
    subst (IsStateOrTerminal s) (sym (apply_self (run_all os) r st))
      (run_keeps (st.requests r) os s h k)

timeout_keeps :
    (now : ℕ) (x : InferenceRequest) (s : RequestState)
    → IsStateOrTerminal s x
    → IsStateOrTerminal s (try_timeout_if_expired now x).request
unfolding try_timeout_if_expired is_valid_transition is_terminal
timeout_keeps now x s k = ground arith

-- From Received, the request is queued, or the move is refused and it is terminal.
move_lem :
    (x : InferenceRequest)
    → IsStateOrTerminal received x
    → ((ok (transition_to queued x).value ≡ true)
        × ((transition_to queued x).request.state ≡ queued))
      ⊎ ((ok (transition_to queued x).value ≡ false)
          × (is_terminal (transition_to queued x).request ≡ true))
unfolding transition_to is_valid_transition is_terminal
move_lem x k = ground arith

reject_ends :
    (e : Status) (x : InferenceRequest)
    → IsStateOrTerminal queued x
    → is_terminal (try_reject e x).request ≡ true
unfolding try_reject is_valid_transition is_terminal
reject_ends e x k = ground arith

-- How `admit` leaves a request: the scheduler has accepted it, Queued or terminal by then, and the
-- answer is success; or the request is terminal, and the scheduler is as it was or has refused it.
abbrev pub Admitted : {S : Type 0} → IRequestScheduler S → Ref → S → Answer S → Type 0
Admitted scheduler r s (status, st', s') =
    ((st : Store) × IsStateOrTerminal queued (st.requests r)
      × (ok (scheduler.enqueue (some r) st s).0 ≡ true)
      × (s' ≡ (scheduler.enqueue (some r) st s).1)
      × (status ≡ success))
    ⊎ ((is_terminal (st'.requests r) ≡ true)
        × ((s' ≡ s)
            ⊎ ((st : Store) × (ok (scheduler.enqueue (some r) st s).0 ≡ false)
                × (s' ≡ (scheduler.enqueue (some r) st s).1))))

module _ {S : Type 0} (scheduler : IRequestScheduler S) (others : Others)
    (quiet : AreNoTransitions others) (r : Ref) (s : S) where
  refuse_ends :
      (e : Status) (st : Store) (s' : S)
      → IsStateOrTerminal queued (st.requests r)
      → is_terminal ((refuse r e st s').1.requests r) ≡ true
  unfolding refuse
  refuse_ends e st s' k =
      subst (λ x. is_terminal x ≡ true) (sym (apply_self (try_reject e) r st))
        (reject_ends e (st.requests r) k)

  refuse_state : (e : Status) (st : Store) (s' : S) → (refuse r e st s').2 ≡ s'
  unfolding refuse
  refuse_state e st s' = refl

  enqueue_accepted :
      (st : Store)
      → ok (scheduler.enqueue (some r) st s).0 ≡ true
      → enqueue_or_refuse scheduler others r st s
        ≡ (success, st, (scheduler.enqueue (some r) st s).1)
  unfolding enqueue_or_refuse
  enqueue_accepted st h = rw h refl

  enqueue_refused :
      (st : Store)
      → ok (scheduler.enqueue (some r) st s).0 ≡ false
      → enqueue_or_refuse scheduler others r st s
        ≡ refuse r
            (reject_status (scheduler.enqueue (some r) st s).0)
            (meanwhile others.before_try_reject r st)
            (scheduler.enqueue (some r) st s).1
  unfolding enqueue_or_refuse
  enqueue_refused st h = rw h refl

  enqueue-Admitted :
      (st : Store)
      → IsStateOrTerminal queued (st.requests r)
      → Admitted scheduler r s (enqueue_or_refuse scheduler others r st s)
  enqueue-Admitted st k =
      let (e, s') = scheduler.enqueue (some r) st s in
      let later = meanwhile others.before_try_reject r st in
      let still = meanwhile_keeps others.before_try_reject r st queued quiet.3 k in
      elim (Bool-cases (ok e)) [
        | inl a ↦
            subst (Admitted scheduler r s) (sym (enqueue_accepted st a))
              (inl (st, k, a, refl, refl))
        | inr b ↦ subst (Admitted scheduler r s) (sym (enqueue_refused st b)) (
            inr (
              refuse_ends (reject_status e) later s' still,
              inr (st, b, refuse_state (reject_status e) later s'),
            ))
      ]

  moved :
      (st : Store)
      → ok (transition_to queued (st.requests r)).value ≡ true
      → admit_live scheduler others r st s
        ≡ enqueue_or_refuse scheduler others r
            (meanwhile others.before_enqueue r (apply (transition_to queued) r st).1)
            s
  unfolding admit_live
  moved st h = rw (apply_value (transition_to queued) r st, h) refl

  not_moved :
      (st : Store)
      → ok (transition_to queued (st.requests r)).value ≡ false
      → admit_live scheduler others r st s
        ≡ ((apply (transition_to queued) r st).0, (apply (transition_to queued) r st).1, s)
  unfolding admit_live
  not_moved st h = rw (apply_value (transition_to queued) r st, h) refl

  live-Admitted :
      (st : Store)
      → IsStateOrTerminal received (st.requests r)
      → Admitted scheduler r s (admit_live scheduler others r st s)
  live-Admitted st k =
      let st' = (apply (transition_to queued) r st).1 in
      let at_r = apply_self (transition_to queued) r st in
      elim (move_lem (st.requests r) k) [
        | inl (a, q) ↦ subst (Admitted scheduler r s) (sym (moved st a)) (
            enqueue-Admitted (meanwhile others.before_enqueue r st') (
              meanwhile_keeps others.before_enqueue r st' queued quiet.2
                (subst (IsStateOrTerminal queued) (sym at_r) (inl q))))
        | inr (b, t) ↦
            subst (Admitted scheduler r s) (sym (not_moved st b))
              (inr (subst (λ x. is_terminal x ≡ true) (sym at_r) t, inl refl))
      ]

-- A request that is Received is never lost: after `admit` it is terminal, or the scheduler has
-- accepted it and the answer says so.
pub admit-Admitted :
    {S : Type 0} (scheduler : IRequestScheduler S) (others : Others) (now : ℕ) (r : Ref)
    (st : Store) (s : S)
    → AreNoTransitions others
    → (st.requests r).state ≡ received
    → Admitted scheduler r s (admit scheduler others now (some r) st s)
unfolding admit
admit-Admitted scheduler others now r st s quiet h =
    let timed = (apply (try_timeout_if_expired now) r st).1 in
    let st' = meanwhile others.before_is_terminal r timed in
    let k = meanwhile_keeps others.before_is_terminal r timed received quiet.0 (
      subst (IsStateOrTerminal received) (sym (apply_self (try_timeout_if_expired now) r st))
        (timeout_keeps now (st.requests r) received (inl h))) in
    if_cases (Admitted scheduler r s) (is_terminal (st'.requests r)) _ _ (λ t. inr (t, inl refl))
      (λ f.
        live-Admitted scheduler others quiet r s (meanwhile others.before_transition_to r st')
          (meanwhile_keeps others.before_transition_to r st' received quiet.1 k))

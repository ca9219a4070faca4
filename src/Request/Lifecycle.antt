-- ===== src/Request/Lifecycle.antt =====
-- The state diagram of a request: which changes the methods can make, and how many.
use adaptive_ai_inference_ru.Prelude.{
  ℕ, suc, ◌+◌, ◌≤◌, ◌<◌, ◌≡◌, refl, ◌⊎◌, inl, inr, ◌↔◌, true, false, some, none, List, [], ◌∷◌,
  arith,
}
use mathlib.Core.Logic.{ite}
use adaptive_ai_inference_ru.Request.{
  RequestState, received, queued, running, completed, rejected, failed, cancelled, timed_out,
  InferenceRequest, is_terminal_state, is_valid_transition,
}
use adaptive_ai_inference_ru.Request.Ops.{Op, step}

-- The diagram, edge by edge.
infix 40 ◌⟶◌
pub data ◌⟶◌ : RequestState → RequestState → Type 0 where
  admit : received ⟶ queued
  dispatch : queued ⟶ running
  finish : running ⟶ completed
  break_down : running ⟶ failed
  refuse_new : received ⟶ rejected
  refuse_queued : queued ⟶ rejected
  cancel : {s : RequestState} → is_terminal_state s ≡ false → s ⟶ cancelled
  expire : {s : RequestState} → is_terminal_state s ≡ false → s ⟶ timed_out

ruleset edges = (admit, dispatch, finish, break_down, refuse_new, refuse_queued, cancel, expire)

valid-⟶ : (s t : RequestState) → is_valid_transition s t ≡ true → s ⟶ t
unfolding is_valid_transition
valid-⟶ s t h = grind (arith, edges)

⟶-valid : {s t : RequestState} → s ⟶ t → is_valid_transition s t ≡ true
unfolding is_valid_transition
⟶-valid admit = refl
⟶-valid dispatch = refl
⟶-valid finish = refl
⟶-valid break_down = refl
⟶-valid refuse_new = refl
⟶-valid refuse_queued = refl
⟶-valid (cancel {s = s} h) = ground arith
⟶-valid (expire {s = s} h) = ground arith

-- A transition is valid exactly if the diagram has the edge.
pub valid_iff : (s t : RequestState) → (is_valid_transition s t ≡ true) ↔ (s ⟶ t)
valid_iff s t = (valid-⟶ s t, ⟶-valid)

step_state :
    (r : InferenceRequest) (o : Op)
    → ((step r o).request.state ≡ r.state)
      ⊎ (is_valid_transition r.state (step r o).request.state ≡ true)
unfolding step
step_state r (Op.set_deadline_op d) = inl refl
step_state r (Op.add_observer_op none) = inl refl
step_state r (Op.add_observer_op (some o)) = inl (ground arith)
step_state r o = ground arith

-- Every command, in every state, keeps the state or follows one edge of the diagram.
pub step-⟶ :
    (r : InferenceRequest) (o : Op)
    → ((step r o).request.state ≡ r.state) ⊎ (r.state ⟶ (step r o).request.state)
step-⟶ r o = elim (step_state r o) [
  | inl e ↦ inl e
  | inr v ↦ inr (valid-⟶ r.state (step r o).request.state v)
]

abbrev rank : RequestState → ℕ
rank received = 0
rank queued = 1
rank running = 2
rank _ = 3

⟶-rank : (s t : RequestState) → is_valid_transition s t ≡ true → rank s < rank t
unfolding is_valid_transition
⟶-rank s t h = ground arith

pub RequestState-discrete : Discrete RequestState
RequestState-discrete = hlevel

-- How many commands of the list change the state.
abbrev pub changes : InferenceRequest → List Op → ℕ
changes r [] = 0
changes r (o ∷ os) =
    let rest = changes (step r o).request os in
    ite (RequestState-discrete (step r o).request.state r.state) rest (suc rest)

changes-rank : (r : InferenceRequest) (os : List Op) → changes r os + rank r.state ≤ 3
changes-rank r [] = ground arith
changes-rank r (o ∷ os) = elim (step_state r o) [
  | inl e ↦ ground (arith, changes-rank (step r o).request os)
  | inr v ↦
      ground (arith, changes-rank (step r o).request os, ⟶-rank r.state (step r o).request.state v)
]

-- Whatever threads do with a request, its state changes at most three times.
pub changes-le : (r : InferenceRequest) (os : List Op) → changes r os ≤ 3
changes-le r os = omega (arith, changes-rank r os)

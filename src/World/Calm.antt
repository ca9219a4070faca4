-- ===== src/World/Calm.antt =====
-- Other threads that do no more to one request than to end it: before it is started it waits for its
-- owner.
use adaptive_ai_inference_ru.Prelude.{
  ℕ, ◌≡◌, refl, sym, ap, subst, ◌∙◌, ◌⊎◌, Bool, some, arith, if_cases,
}
use adaptive_ai_inference_ru.Request.{
  RequestState, received, queued, InferenceRequest, Outcome, is_terminal, is_valid_transition,
  try_reject, try_timeout_if_expired,
}
use adaptive_ai_inference_ru.Status.{Status}
use adaptive_ai_inference_ru.Store.{Ref, Store}
use adaptive_ai_inference_ru.Store.Dead.{apply_self, apply_value}
use adaptive_ai_inference_ru.World.{Moment, World, reading, call, ask, check_dead}
use adaptive_ai_inference_ru.World.Later.{IsEnded}

abbrev pub IsEndedOr : RequestState → InferenceRequest → Type 0
IsEndedOr s x = (x.state ≡ s) ⊎ IsEnded x

-- What the other threads do to the request `r` is at most to end it. To any other request they may do
-- anything.
abbrev pub AreCalm : Ref → (ℕ → Moment) → Type 0
AreCalm r moments =
    (i : ℕ) (st : Store) (s : RequestState)
    → IsEndedOr s (st.requests r)
    → IsEndedOr s (((moments i).others st).requests r)

-- The model of a request never changes (`model_id_` is const).
abbrev pub KeepsModel : Ref → (ℕ → Moment) → Type 0
KeepsModel r moments =
    (i : ℕ) (st : Store) → (((moments i).others st).requests r).model_id ≡ (st.requests r).model_id

pub timeout-IsEndedOr :
    (now : ℕ) (s : RequestState) (x : InferenceRequest)
    → IsEndedOr s x
    → IsEndedOr s (try_timeout_if_expired now x).request
unfolding try_timeout_if_expired is_valid_transition is_terminal
timeout-IsEndedOr now s x h = ground arith

-- Before it is started a request can be rejected.
abbrev pub IsWaiting : InferenceRequest → Type 0
IsWaiting x = (x.state ≡ received) ⊎ (x.state ≡ queued) ⊎ IsEnded x

pub reject_ends :
    (e : Status) (x : InferenceRequest) → IsWaiting x → IsEnded (try_reject e x).request
unfolding try_reject is_valid_transition is_terminal
reject_ends e x h = ground arith

module _ (moments : ℕ → Moment) (r : Ref) (calm : AreCalm r moments) where
  -- The call finds the request as `x`, in the state it had or terminal.
  pub called :
      {A : Type 0} (f : InferenceRequest → Outcome A) (w : World) (s : RequestState)
      → IsEndedOr s (w.store.requests r)
      → (x : InferenceRequest) × IsEndedOr s x
        × ((call moments f r w).0 ≡ (f x).value)
        × ((call moments f r w).1.store.requests r ≡ (f x).request)
  unfolding call
  called f w s h =
      let st = (moments w.time).others w.store in
      (st.requests r, calm w.time w.store s h, apply_value f r st, apply_self f r st)

  pub asked :
      {A : Type 0} (f : InferenceRequest → A) (w : World) (s : RequestState)
      → IsEndedOr s (w.store.requests r)
      → ((ask moments f r w).0 ≡ f ((ask moments f r w).1.store.requests r))
        × IsEndedOr s ((ask moments f r w).1.store.requests r)
  asked f w s h =
      let (x, k, v, e) = called (reading f) w s h in
      (v ∙ sym (ap f e), subst (IsEndedOr s) (sym e) k)

  -- The verdict is the state of the request when the check returns.
  pub checked :
      (w : World) (s : RequestState)
      → IsEndedOr s (w.store.requests r)
      → (let (dead, w') = check_dead moments (some r) w in
          (dead ≡ is_terminal (w'.store.requests r)) × IsEndedOr s (w'.store.requests r))
  unfolding check_dead
  checked w s h =
      let w1 = (ask moments is_terminal r w).1 in
      let f = try_timeout_if_expired (moments w1.time).now in
      let w2 = (call moments f r w1).1 in
      let (t1, k1) = asked is_terminal w s h in
      let (x, k, v, e) = called f w1 s k1 in
      let k2 = subst (IsEndedOr s) (sym e) (timeout-IsEndedOr (moments w1.time).now s x k) in
      if_cases
        (λ (o : Bool × World).
          (o.0 ≡ is_terminal (o.1.store.requests r)) × IsEndedOr s (o.1.store.requests r))
        (ask moments is_terminal r w).0 _ _ (λ d. (sym d ∙ t1, k1)) (λ d. asked is_terminal w2 s k2)

  pub rejected :
      (e : Status) (w : World) (s : RequestState)
      → (s ≡ received) ⊎ (s ≡ queued)
      → IsEndedOr s (w.store.requests r)
      → IsEnded ((call moments (try_reject e) r w).1.store.requests r)
  rejected e w s known h =
      let (x, k, v, same) = called (try_reject e) w s h in
      subst IsEnded (sym same) (reject_ends e x (unfold is_terminal in ground arith))

timeout-model_id :
    (now : ℕ) (x : InferenceRequest) → (try_timeout_if_expired now x).request.model_id ≡ x.model_id
unfolding try_timeout_if_expired
timeout-model_id now x = ground arith

module _ (moments : ℕ → Moment) (r : Ref) (keeps : KeepsModel r moments) where
  call-model_id :
      {A : Type 0} (f : InferenceRequest → Outcome A) (w : World)
      → ((x : InferenceRequest) → (f x).request.model_id ≡ x.model_id)
      → ((call moments f r w).1.store.requests r).model_id ≡ (w.store.requests r).model_id
  unfolding call
  call-model_id f w h =
      let st = (moments w.time).others w.store in
      ap (λ x. x.model_id) (apply_self f r st) ∙ h (st.requests r) ∙ keeps w.time w.store

  -- The check leaves the request its model.
  pub check_dead-model_id :
      (w : World)
      → ((check_dead moments (some r) w).1.store.requests r).model_id
        ≡ (w.store.requests r).model_id
  unfolding check_dead
  check_dead-model_id w =
      let w1 = (ask moments is_terminal r w).1 in
      let f = try_timeout_if_expired (moments w1.time).now in
      let w2 = (call moments f r w1).1 in
      let first = call-model_id (reading is_terminal) w (λ x. refl) in
      if_cases
        (λ (o : Bool × World). (o.1.store.requests r).model_id ≡ (w.store.requests r).model_id)
        (ask moments is_terminal r w).0 _ _ (λ t. first)
        (λ t.
          call-model_id (reading is_terminal) w2 (λ x. refl)
          ∙ call-model_id f w1 (timeout-model_id (moments w1.time).now)
          ∙ first)

-- ===== src/World/Later.antt =====
-- What may become of a request, and that every call lets only this happen.
use adaptive_ai_inference_ru.Prelude.{ℕ, ◌≡◌, sym, subst, ◌⊎◌, true, arith}
use native.Mathlib.Decide.{ℕ_discrete}
use adaptive_ai_inference_ru.Status.{Status, InferenceResult}
use adaptive_ai_inference_ru.Request.{
  InferenceRequest, Outcome, queued, running, is_terminal, is_valid_transition, transition_to,
  try_fail, try_complete, try_reject, try_cancel, try_timeout_if_expired,
}
use adaptive_ai_inference_ru.Store.{Ref, Store, apply}
use adaptive_ai_inference_ru.Store.Dead.{apply_self, apply_ne}
use adaptive_ai_inference_ru.World.{Moment, World, call}

abbrev pub IsEnded : InferenceRequest → Type 0
IsEnded x = is_terminal x ≡ true

abbrev pub IsStarted : InferenceRequest → Type 0
IsStarted x = (x.state ≡ running) ⊎ IsEnded x

-- Past admission: Queued, Running or terminal.
abbrev pub IsAdmitted : InferenceRequest → Type 0
IsAdmitted x = (x.state ≡ queued) ⊎ IsStarted x

-- A terminal request stays terminal, one that runs stays so until it is terminal, and one that is
-- past admission stays so.
abbrev pub Later : InferenceRequest → InferenceRequest → Type 0
Later x y = (IsEnded x → IsEnded y) × (IsStarted x → IsStarted y) × (IsAdmitted x → IsAdmitted y)

abbrev pub Advances : Store → Store → Type 0
Advances st st' = (j : Ref) → Later (st.requests j) (st'.requests j)

-- The other threads do to a request only what the methods of a request allow after admission.
abbrev pub AreQuiet : (ℕ → Moment) → Type 0
AreQuiet moments = (i : ℕ) (st : Store) → Advances st ((moments i).others st)

pub Later-refl : (x : InferenceRequest) → Later x x
Later-refl x = (λ h. h, λ h. h, λ h. h)

pub Later-trans : (x y z : InferenceRequest) → Later x y → Later y z → Later x z
Later-trans x y z f g = (λ h. g.0 (f.0 h), λ h. g.1 (f.1 h), λ h. g.2 (f.2 h))

pub Advances-refl : (st : Store) → Advances st st
Advances-refl st j = Later-refl (st.requests j)

pub Advances-trans : (a b c : Store) → Advances a b → Advances b c → Advances a c
Advances-trans a b c f g j = Later-trans (a.requests j) (b.requests j) (c.requests j) (f j) (g j)

pub run-Later : (x : InferenceRequest) → Later x (transition_to running x).request
unfolding transition_to is_valid_transition is_terminal
run-Later x = (λ h. ground arith, λ h. ground arith, λ h. ground arith)

pub fail-Later : (e : Status) (x : InferenceRequest) → Later x (try_fail e x).request
unfolding try_fail is_valid_transition is_terminal
fail-Later e x = (λ h. ground arith, λ h. ground arith, λ h. ground arith)

pub reject-Later : (e : Status) (x : InferenceRequest) → Later x (try_reject e x).request
unfolding try_reject is_valid_transition is_terminal
reject-Later e x = (λ h. ground arith, λ h. ground arith, λ h. ground arith)

pub cancel-Later : (x : InferenceRequest) → Later x (try_cancel x).request
unfolding try_cancel is_valid_transition is_terminal
cancel-Later x = (λ h. ground arith, λ h. ground arith, λ h. ground arith)

pub complete-Later :
    (res : InferenceResult) (x : InferenceRequest) → Later x (try_complete res x).request
unfolding try_complete is_valid_transition is_terminal
complete-Later res x = (λ h. ground arith, λ h. ground arith, λ h. ground arith)

pub timeout-Later :
    (now : ℕ) (x : InferenceRequest) → Later x (try_timeout_if_expired now x).request
unfolding try_timeout_if_expired is_valid_transition is_terminal
timeout-Later now x = (λ h. ground arith, λ h. ground arith, λ h. ground arith)

pub apply-Advances :
    {A : Type 0} (f : InferenceRequest → Outcome A) (r : Ref) (st : Store)
    → ((x : InferenceRequest) → Later x (f x).request)
    → Advances st (apply f r st).1
apply-Advances f r st h j = elim (ℕ_discrete j r) [
  | yes same ↦
      subst (λ i. Later (st.requests i) ((apply f r st).1.requests i)) (sym same)
        (subst (Later (st.requests r)) (sym (apply_self f r st)) (h (st.requests r)))
  | no other ↦
      subst (Later (st.requests j)) (sym (apply_ne f r j st other)) (Later-refl (st.requests j))
]

module _ (moments : ℕ → Moment) (quiet : AreQuiet moments) where
  pub call-Advances :
      {A : Type 0} (f : InferenceRequest → Outcome A) (r : Ref) (w : World)
      → ((x : InferenceRequest) → Later x (f x).request)
      → Advances w.store (call moments f r w).1.store
  unfolding call
  call-Advances f r w h =
      let st = (moments w.time).others w.store in
      Advances-trans w.store st (apply f r st).1 (quiet w.time w.store) (apply-Advances f r st h)

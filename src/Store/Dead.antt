-- ===== src/Store/Dead.antt =====
-- What a call on the store changes, and which requests count as dead.
use adaptive_ai_inference_ru.Prelude.{
  ℕ, ◌≤◌, ◌≡◌, refl, sym, ◌∙◌, subst, ◌≢◌, ◌⊎◌, Bool, true, false, ◌||◌, none, some, arith, inl,
  inr, Bool-cases, Option-cases,
}
use native.Mathlib.Decide.{ℕ_discrete}
use adaptive_ai_inference_ru.Request.{
  InferenceRequest, Outcome, is_terminal, is_expired, is_valid_transition, try_timeout_if_expired,
}
use adaptive_ai_inference_ru.Store.{Ref, RequestPtr, Store, apply, is_dead_request}

pub apply_self :
    {A : Type 0} (f : InferenceRequest → Outcome A) (r : Ref) (st : Store)
    → (apply f r st).1.requests r ≡ (f (st.requests r)).request
unfolding apply
apply_self f r st = ground arith

pub apply_value :
    {A : Type 0} (f : InferenceRequest → Outcome A) (r : Ref) (st : Store)
    → (apply f r st).0 ≡ (f (st.requests r)).value
unfolding apply
apply_value f r st = refl

pub apply_ne :
    {A : Type 0} (f : InferenceRequest → Outcome A) (r j : Ref) (st : Store)
    → j ≢ r
    → (apply f r st).1.requests j ≡ st.requests j
unfolding apply
apply_ne f r j st h = ground arith

timeout_dead :
    (now : ℕ) (x : InferenceRequest)
    → (is_terminal (try_timeout_if_expired now x).request ≡ (is_terminal x || is_expired now x))
      × (is_terminal (try_timeout_if_expired now x).request ≡ false
          → (try_timeout_if_expired now x).request ≡ x)
unfolding try_timeout_if_expired is_terminal is_expired is_valid_transition
timeout_dead now x = (ground arith, λ h. ground arith)

dead_now :
    (now : ℕ) (r : Ref) (st : Store)
    → is_terminal (st.requests r) ≡ false
    → is_dead_request now (some r) st ≡ (
      is_terminal ((apply (try_timeout_if_expired now) r st).1.requests r),
      (apply (try_timeout_if_expired now) r st).1,
    )
unfolding is_dead_request
dead_now now r st h = rw h

dead_already :
    (now : ℕ) (r : Ref) (st : Store)
    → is_terminal (st.requests r) ≡ true
    → is_dead_request now (some r) st ≡ (true, st)
unfolding is_dead_request
dead_already now r st h = rw h

-- What a check of one request does to its verdict, to that request and to the others.
abbrev pub Checked : ℕ → Ref → Store → Bool × Store → Type 0
Checked now r st (dead, st') =
    (dead ≡ (is_terminal (st.requests r) || is_expired now (st.requests r)))
    × (is_terminal (st'.requests r) ≡ dead)
    × (dead ≡ false → st'.requests r ≡ st.requests r)
    × ((j : Ref) → j ≢ r → st'.requests j ≡ st.requests j)

-- A request is dead exactly if it is terminal or its deadline has come, and a dead one is terminal
-- afterwards. No other request changes, and a live one does not change either.
pub is_dead_request-Checked :
    (now : ℕ) (r : Ref) (st : Store) → Checked now r st (is_dead_request now (some r) st)
is_dead_request-Checked now r st =
    let x = st.requests r in
    let (verdict, kept) = timeout_dead now x in
    elim (Bool-cases (is_terminal x)) [
      | inl t ↦ rw (dead_already now r st t) (rw t refl, t, (λ h. cc), λ j h. refl)
      | inr f ↦
          rw (dead_now now r st f, apply_self (try_timeout_if_expired now) r st)
            (verdict, refl, kept, λ j h. apply_ne (try_timeout_if_expired now) r j st h)
    ]

-- The request has a deadline, and it has come by `now`.
abbrev pub IsPast : ℕ → InferenceRequest → Type 0
IsPast now x = (d : ℕ) × (x.deadline ≡ some d) × (d ≤ now)

is_expired-IsPast : (now : ℕ) (x : InferenceRequest) → is_expired now x ≡ true → IsPast now x
unfolding is_expired
is_expired-IsPast now x h = elim (Option-cases x.deadline) [
  | inl e ↦ absurd (ground arith)
  | inr (d, e) ↦ (d, e, ground arith)
]

unexpired : (now : ℕ) (x : InferenceRequest) → is_expired now x ≡ false → ¬ (IsPast now x)
unfolding is_expired
unexpired now x h (d, e, le) = ground arith

-- A request that the check finds dead was terminal, or past its deadline.
pub dead_why :
    (now : ℕ) (r : Ref) (st : Store)
    → (is_dead_request now (some r) st).0 ≡ true
    → (is_terminal (st.requests r) ≡ true) ⊎ IsPast now (st.requests r)
dead_why now r st h =
    let (a, b, c, d) = is_dead_request-Checked now r st in
    elim (Bool-cases (is_terminal (st.requests r))) [
      | inl t ↦ inl t
      | inr f ↦ inr (is_expired-IsPast now (st.requests r) (ground arith))
    ]

-- One that it finds live was neither, and is as it was.
pub live_why :
    (now : ℕ) (r : Ref) (st : Store)
    → (is_dead_request now (some r) st).0 ≡ false
    → (is_terminal (st.requests r) ≡ false)
      × (¬ (IsPast now (st.requests r)))
      × ((is_dead_request now (some r) st).1.requests r ≡ st.requests r)
live_why now r st h =
    let (a, b, c, d) = is_dead_request-Checked now r st in
    (ground arith, unexpired now (st.requests r) (ground arith), c h)

-- A check of any value leaves a request as it was, or finds it terminal or past its deadline, and it
-- is terminal afterwards.
pub check_effect :
    (now : ℕ) (p : RequestPtr) (r : Ref) (st : Store)
    → ((is_dead_request now p st).1.requests r ≡ st.requests r)
      ⊎ (((is_terminal (st.requests r) ≡ true) ⊎ IsPast now (st.requests r))
          × (is_terminal ((is_dead_request now p st).1.requests r) ≡ true))
check_effect now none r st = inl (unfold is_dead_request in refl)
check_effect now (some q) r st =
    let (a, b, c, d) = is_dead_request-Checked now q st in
    elim (ℕ_discrete r q) [
      | no n ↦ inl (d r n)
      | yes e ↦
          subst
            (λ k.
              ((is_dead_request now (some q) st).1.requests k ≡ st.requests k)
              ⊎ (((is_terminal (st.requests k) ≡ true) ⊎ IsPast now (st.requests k))
                  × (is_terminal ((is_dead_request now (some q) st).1.requests k) ≡ true)))
            (sym e)
            (elim (Bool-cases (is_dead_request now (some q) st).0) [
              | inl t ↦ inr (dead_why now q st t, b ∙ t)
              | inr f ↦ inl (c f)
            ])
    ]

-- ===== src/World/Dead.antt =====
-- What one call sees and leaves, and what a check for a dead request means.
use adaptive_ai_inference_ru.Prelude.{ℕ, ◌≡◌, sym, ap, ◌∙◌, Bool, none, some, if_cases}
use adaptive_ai_inference_ru.Request.{
  InferenceRequest, Outcome, is_terminal, try_timeout_if_expired,
}
use adaptive_ai_inference_ru.Store.{Ref, RequestPtr, Store}
use adaptive_ai_inference_ru.Store.Dead.{apply_self, apply_value}
use adaptive_ai_inference_ru.World.{Moment, World, reading, call, ask, check_dead}
use adaptive_ai_inference_ru.World.Later.{
  Later, Advances, AreQuiet, Later-refl, Advances-refl, Advances-trans, timeout-Later,
  call-Advances,
}

-- A pointer that is null, or whose request satisfies a predicate.
abbrev pub At : (InferenceRequest → Type 0) → Store → RequestPtr → Type 0
At P st none = Unit
At P st (some r) = P (st.requests r)

module _ (moments : ℕ → Moment) (quiet : AreQuiet moments) where
  -- The call finds the request as `x`, some steps of other threads later.
  pub called :
      {A : Type 0} (f : InferenceRequest → Outcome A) (r : Ref) (w : World)
      → (x : InferenceRequest) × Later (w.store.requests r) x
        × ((call moments f r w).0 ≡ (f x).value)
        × ((call moments f r w).1.store.requests r ≡ (f x).request)
  unfolding call
  called f r w =
      let st = (moments w.time).others w.store in
      (st.requests r, quiet w.time w.store r, apply_value f r st, apply_self f r st)

  pub ask-Advances :
      {A : Type 0} (f : InferenceRequest → A) (r : Ref) (w : World)
      → Advances w.store (ask moments f r w).1.store
  ask-Advances f r w = call-Advances moments quiet (reading f) r w Later-refl

  -- What is read holds of the request when the reading returns.
  pub asked :
      {A : Type 0} (f : InferenceRequest → A) (r : Ref) (w : World)
      → (ask moments f r w).0 ≡ f ((ask moments f r w).1.store.requests r)
  asked f r w = let (x, l, v, e) = called (reading f) r w in v ∙ sym (ap f e)

  pub check_dead-Advances :
      (p : RequestPtr) (w : World) → Advances w.store (check_dead moments p w).1.store
  unfolding check_dead
  check_dead-Advances none w = Advances-refl w.store
  check_dead-Advances (some r) w =
      let w1 = (ask moments is_terminal r w).1 in
      let f = try_timeout_if_expired (moments w1.time).now in
      let w2 = (call moments f r w1).1 in
      let first = ask-Advances is_terminal r w in
      if_cases (λ (o : Bool × World). Advances w.store o.1.store) (ask moments is_terminal r w).0 _
        _ (λ t. first)
        (λ t. Advances-trans w.store w1.store (ask moments is_terminal r w2).1.store first (
          Advances-trans w1.store w2.store (ask moments is_terminal r w2).1.store
            (call-Advances moments quiet f r w1 (timeout-Later (moments w1.time).now))
            (ask-Advances is_terminal r w2)))

  -- The verdict is the state of the request when the check returns.
  pub check_dead_lem :
      (r : Ref) (w : World)
      → (check_dead moments (some r) w).0
        ≡ is_terminal ((check_dead moments (some r) w).1.store.requests r)
  unfolding check_dead
  check_dead_lem r w =
      let w1 = (ask moments is_terminal r w).1 in
      let w2 = (call moments (try_timeout_if_expired (moments w1.time).now) r w1).1 in
      if_cases (λ (o : Bool × World). o.0 ≡ is_terminal (o.1.store.requests r))
        (ask moments is_terminal r w).0 _ _ (λ t. sym t ∙ asked is_terminal r w)
        (λ t. asked is_terminal r w2)

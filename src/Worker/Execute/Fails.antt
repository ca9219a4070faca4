-- ===== src/Worker/Execute/Fails.antt =====
-- How `execute_batch` ends the requests of a batch, by failing or by completing them.
use adaptive_ai_inference_ru.Prelude.{
  ℕ, ◌≡◌, sym, ap, subst, ◌∙◌, Bool, false, List, [], ◌∷◌, arith, length, if_cases,
}
use adaptive_ai_inference_ru.Status.{Status, InferenceResult, result_ok}
use adaptive_ai_inference_ru.Request.{
  InferenceRequest, running, is_terminal, is_valid_transition, transition_to, try_fail,
  try_complete,
}
use adaptive_ai_inference_ru.Store.{Ref}
use adaptive_ai_inference_ru.World.{Moment, World, call, ask}
use adaptive_ai_inference_ru.World.Later.{
  IsEnded, IsStarted, IsAdmitted, Advances, AreQuiet, Advances-refl, Advances-trans, call-Advances,
  run-Later, fail-Later, complete-Later,
}
use adaptive_ai_inference_ru.World.Dead.{called, asked, ask-Advances}
use adaptive_ai_inference_ru.Worker.Execute.{
  is_queued, each, fail_if_live, run_if_queued, fail_one, finish_one, finish,
}
use adaptive_ai_inference_ru.Worker.Execute.Loops.{
  AllIn, AllIn-kept, IsStarted-kept, IsAdmitted-kept, each_ends,
}

fail_ends : (e : Status) (x : InferenceRequest) → IsStarted x → IsEnded (try_fail e x).request
unfolding try_fail is_valid_transition is_terminal
fail_ends e x h = ground arith

complete_ends :
    (res : InferenceResult) (x : InferenceRequest)
    → IsStarted x
    → IsEnded (try_complete res x).request
unfolding try_complete is_valid_transition is_terminal
complete_ends res x h = ground arith

run_starts : (x : InferenceRequest) → IsAdmitted x → IsStarted (transition_to running x).request
unfolding transition_to is_valid_transition is_terminal
run_starts x h = ground arith

not_queued : (x : InferenceRequest) → is_queued x.state ≡ false → IsAdmitted x → IsStarted x
unfolding is_terminal
not_queued x q h = ground arith

module _ (moments : ℕ → Moment) (quiet : AreQuiet moments) where
  -- After an asking and one more call that ends a request that has started, or the asking alone.
  asked_then :
      (f : InferenceRequest → Bool) (r : Ref) (w : World) (w' : World)
      → Advances (ask moments f r w).1.store w'.store
      → Advances w.store w'.store
  asked_then f r w w' a =
      Advances-trans w.store (ask moments f r w).1.store w'.store (ask-Advances moments quiet f r w)
        a

  pub fail_if_live-Advances :
      (e : Status) (r : Ref) (w : World) → Advances w.store (fail_if_live moments e r w).store
  unfolding fail_if_live
  fail_if_live-Advances e r w =
      let w1 = (ask moments is_terminal r w).1 in
      if_cases (λ (o : World). Advances w.store o.store) (ask moments is_terminal r w).0 _ _
        (λ t. ask-Advances moments quiet is_terminal r w)
        (λ t.
          asked_then is_terminal r w (call moments (try_fail e) r w1).1
            (call-Advances moments quiet (try_fail e) r w1 (fail-Later e)))

  pub fail_if_live_ends :
      (e : Status) (r : Ref) (w : World)
      → IsStarted (w.store.requests r)
      → IsEnded ((fail_if_live moments e r w).store.requests r)
  unfolding fail_if_live
  fail_if_live_ends e r w h =
      let w1 = (ask moments is_terminal r w).1 in
      if_cases (λ (o : World). IsEnded (o.store.requests r)) (ask moments is_terminal r w).0 _ _
        (λ t. sym (asked moments quiet is_terminal r w) ∙ t)
        (λ t.
          let (x, l, v, same) = called moments quiet (try_fail e) r w1 in
          subst IsEnded (sym same)
            (fail_ends e x (l.1 ((ask-Advances moments quiet is_terminal r w r).1 h))))

  run_if_queued-Advances :
      (r : Ref) (w : World) → Advances w.store (run_if_queued moments r w).store
  unfolding run_if_queued
  run_if_queued-Advances r w =
      let w1 = (ask moments (λ x. x.state) r w).1 in
      let a = ask-Advances moments quiet (λ x. x.state) r w in
      if_cases (λ (o : World). Advances w.store o.store)
        (is_queued (ask moments (λ x. x.state) r w).0) _ _
        (λ t.
          Advances-trans w.store w1.store (call moments (transition_to running) r w1).1.store a
            (call-Advances moments quiet (transition_to running) r w1 run-Later))
        (λ t. a)

  run_if_queued_starts :
      (r : Ref) (w : World)
      → IsAdmitted (w.store.requests r)
      → IsStarted ((run_if_queued moments r w).store.requests r)
  unfolding run_if_queued
  run_if_queued_starts r w h =
      let (s, w1) = ask moments (λ x. x.state) r w in
      let h1 = (ask-Advances moments quiet (λ x. x.state) r w r).2 h in
      if_cases (λ (o : World). IsStarted (o.store.requests r)) (is_queued s) _ _
        (λ t.
          let (x, l, v, same) = called moments quiet (transition_to running) r w1 in
          subst IsStarted (sym same) (run_starts x (l.2 h1)))
        (λ f.
          not_queued (w1.store.requests r)
            (ap is_queued (sym (asked moments quiet (λ x. x.state) r w)) ∙ f) h1)

  pub fail_one-Advances :
      (e : Status) (r : Ref) (w : World) → Advances w.store (fail_one moments e r w).store
  unfolding fail_one
  fail_one-Advances e r w =
      let w1 = (ask moments is_terminal r w).1 in
      let w2 = run_if_queued moments r w1 in
      if_cases (λ (o : World). Advances w.store o.store) (ask moments is_terminal r w).0 _ _
        (λ t. ask-Advances moments quiet is_terminal r w)
        (λ t. asked_then is_terminal r w (fail_if_live moments e r w2) (
          Advances-trans w1.store w2.store (fail_if_live moments e r w2).store
            (run_if_queued-Advances r w1) (fail_if_live-Advances e r w2)))

  pub fail_one_ends :
      (e : Status) (r : Ref) (w : World)
      → IsAdmitted (w.store.requests r)
      → IsEnded ((fail_one moments e r w).store.requests r)
  unfolding fail_one
  fail_one_ends e r w h =
      let w1 = (ask moments is_terminal r w).1 in
      if_cases (λ (o : World). IsEnded (o.store.requests r)) (ask moments is_terminal r w).0 _ _
        (λ t. sym (asked moments quiet is_terminal r w) ∙ t)
        (λ t.
          fail_if_live_ends e r (run_if_queued moments r w1)
            (run_if_queued_starts r w1 ((ask-Advances moments quiet is_terminal r w r).2 h)))

  finish_one-Advances :
      (r : Ref) (res : InferenceResult) (last : Status) (w : World)
      → Advances w.store (finish_one moments r res last w).1.store
  unfolding finish_one
  finish_one-Advances r res last w =
      let w1 = (ask moments is_terminal r w).1 in
      let Goal = λ (o : Status × World). Advances w.store o.1.store in
      if_cases Goal (ask moments is_terminal r w).0 _ _
        (λ t. ask-Advances moments quiet is_terminal r w)
        (λ t.
          if_cases Goal (result_ok res) _ _
            (λ good.
              asked_then is_terminal r w (call moments (try_complete res) r w1).1
                (call-Advances moments quiet (try_complete res) r w1 (complete-Later res)))
            (λ bad.
              asked_then is_terminal r w (call moments (try_fail res.status) r w1).1
                (call-Advances moments quiet (try_fail res.status) r w1 (fail-Later res.status))))

  finish_one_ends :
      (r : Ref) (res : InferenceResult) (last : Status) (w : World)
      → IsStarted (w.store.requests r)
      → IsEnded ((finish_one moments r res last w).1.store.requests r)
  unfolding finish_one
  finish_one_ends r res last w h =
      let w1 = (ask moments is_terminal r w).1 in
      let h1 = (ask-Advances moments quiet is_terminal r w r).1 h in
      let Goal = λ (o : Status × World). IsEnded (o.1.store.requests r) in
      if_cases Goal (ask moments is_terminal r w).0 _ _
        (λ t. sym (asked moments quiet is_terminal r w) ∙ t)
        (λ t.
          if_cases Goal (result_ok res) _ _
            (λ good.
              let (x, l, v, same) = called moments quiet (try_complete res) r w1 in
              subst IsEnded (sym same) (complete_ends res x (l.1 h1)))
            (λ bad.
              let (x, l, v, same) = called moments quiet (try_fail res.status) r w1 in
              subst IsEnded (sym same) (fail_ends res.status x (l.1 h1))))

  pub finish-Advances :
      (rs : List Ref) (xs : List InferenceResult) (last : Status) (w : World)
      → Advances w.store (finish moments rs xs last w).1.store
  unfolding finish
  finish-Advances [] xs last w = Advances-refl w.store
  finish-Advances (r ∷ rs) [] last w = Advances-refl w.store
  finish-Advances (r ∷ rs) (x ∷ xs) last w =
      let (last', w') = finish_one moments r x last w in
      Advances-trans w.store w'.store (finish moments rs xs last' w').1.store
        (finish_one-Advances r x last w) (finish-Advances rs xs last' w')

  pub finish_ends :
      (rs : List Ref) (xs : List InferenceResult) (last : Status) (w : World)
      → length xs ≡ length rs
      → AllIn IsStarted w.store rs
      → AllIn IsEnded (finish moments rs xs last w).1.store rs
  unfolding finish
  finish_ends [] xs last w n h = tt
  finish_ends (r ∷ rs) [] last w n h = absurd (omega arith)
  finish_ends (r ∷ rs) (x ∷ xs) last w n h =
      let (last', w') = finish_one moments r x last w in
      (
        (finish-Advances rs xs last' w' r).0 (finish_one_ends r x last w h.0),
        finish_ends rs xs last' w' (omega arith) (
            AllIn-kept IsStarted IsStarted-kept w.store w'.store rs (finish_one-Advances r x last w)
              h.1),
      )

  -- The three loops at the end of a batch.
  pub fail_all_ends :
      (e : Status) (rs : List Ref) (w : World)
      → AllIn IsAdmitted w.store rs
      → AllIn IsEnded (each (fail_one moments e) rs w).store rs
  fail_all_ends e rs w h =
      each_ends IsAdmitted IsAdmitted-kept (fail_one moments e) rs w (fail_one-Advances e)
        (fail_one_ends e) h

  pub fail_live_ends :
      (e : Status) (rs : List Ref) (w : World)
      → AllIn IsStarted w.store rs
      → AllIn IsEnded (each (fail_if_live moments e) rs w).store rs
  fail_live_ends e rs w h =
      each_ends IsStarted IsStarted-kept (fail_if_live moments e) rs w (fail_if_live-Advances e)
        (fail_if_live_ends e) h

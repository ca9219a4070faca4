-- ===== src/Worker/Execute/Loops.antt =====
-- The loops of `execute_batch`: what each does to the requests of the batch.
use mathlib.Core.Option.{none-ne-some}
use adaptive_ai_inference_ru.Prelude.{
  ℕ, ◌≡◌, sym, ap, ◌∙◌, inl, inr, true, Option, none, some, List, [], ◌∷◌, All, All-mono, arith,
  if_cases,
}
use adaptive_ai_inference_ru.Status.{Status, ok}
use adaptive_ai_inference_ru.Request.{InferenceRequest, running, is_valid_transition, transition_to}
use adaptive_ai_inference_ru.Store.{Ref, RequestPtr, Store}
use adaptive_ai_inference_ru.World.{Moment, World, call, check_dead}
use adaptive_ai_inference_ru.World.Later.{
  IsEnded, IsStarted, IsAdmitted, Later, Advances, AreQuiet, Advances-refl, Advances-trans,
  call-Advances, run-Later,
}
use adaptive_ai_inference_ru.World.Dead.{At, called, check_dead-Advances, check_dead_lem}
use adaptive_ai_inference_ru.Worker.Execute.{each, filter_live, start_running}

-- A predicate that what happens to a request later cannot break.
abbrev pub IsKept : (InferenceRequest → Type 0) → Type 0
IsKept P = (x y : InferenceRequest) → Later x y → P x → P y

pub IsEnded-kept : IsKept IsEnded
IsEnded-kept x y l h = l.0 h

pub IsStarted-kept : IsKept IsStarted
IsStarted-kept x y l h = l.1 h

pub IsAdmitted-kept : IsKept IsAdmitted
IsAdmitted-kept x y l h = l.2 h

-- All requests of a batch, as a store has them.
abbrev pub AllIn : (InferenceRequest → Type 0) → Store → List Ref → Type 0
AllIn P st rs = All (λ r. P (st.requests r)) rs

pub AllIn-kept :
    (P : InferenceRequest → Type 0) (keep : IsKept P) (st st' : Store) (rs : List Ref)
    → Advances st st'
    → AllIn P st rs
    → AllIn P st' rs
AllIn-kept P keep st st' rs a h =
    All-mono rs (λ r p. keep (st.requests r) (st'.requests r) (a r) p) h

pub each-Advances :
    (f : Ref → World → World) (rs : List Ref) (w : World)
    → ((r : Ref) (w : World) → Advances w.store (f r w).store)
    → Advances w.store (each f rs w).store
unfolding each
each-Advances f [] w h = Advances-refl w.store
each-Advances f (r ∷ rs) w h =
    Advances-trans w.store (f r w).store (each f rs (f r w)).store (h r w)
      (each-Advances f rs (f r w) h)

-- A loop whose body ends one request ends all.
pub each_ends :
    (P : InferenceRequest → Type 0) (keep : IsKept P) (f : Ref → World → World) (rs : List Ref)
    (w : World)
    → ((r : Ref) (w : World) → Advances w.store (f r w).store)
    → ((r : Ref) (w : World) → P (w.store.requests r) → IsEnded ((f r w).store.requests r))
    → AllIn P w.store rs
    → AllIn IsEnded (each f rs w).store rs
unfolding each
each_ends P keep f [] w adv ends h = tt
each_ends P keep f (r ∷ rs) w adv ends h =
    let w' = f r w in
    (
      (each-Advances f rs w' adv r).0 (ends r w h.0),
      each_ends P keep f rs w' adv ends (AllIn-kept P keep w.store w'.store rs (adv r w) h.1),
    )

At-kept :
    (P : InferenceRequest → Type 0) (keep : IsKept P) (st st' : Store) (ps : List RequestPtr)
    → Advances st st'
    → All (At P st) ps
    → All (At P st') ps
At-kept P keep st st' [] a h = tt
At-kept P keep st st' (none ∷ ps) a h = (tt, At-kept P keep st st' ps a h.1)
At-kept P keep st st' (some r ∷ ps) a h =
    (keep (st.requests r) (st'.requests r) (a r) h.0, At-kept P keep st st' ps a h.1)

run_ok :
    (x : InferenceRequest)
    → ok (transition_to running x).value ≡ true
    → (transition_to running x).request.state ≡ running
unfolding transition_to is_valid_transition
run_ok x h = ground arith

module _ (moments : ℕ → Moment) (quiet : AreQuiet moments) where
  pub filter_live-Advances :
      (ps : List RequestPtr) (w : World) → Advances w.store (filter_live moments ps w).1.store
  unfolding filter_live
  filter_live-Advances [] w = Advances-refl w.store
  filter_live-Advances (none ∷ ps) w =
      let w' = (check_dead moments none w).1 in
      Advances-trans w.store w'.store (filter_live moments ps w').1.store
        (check_dead-Advances moments quiet none w) (filter_live-Advances ps w')
  filter_live-Advances (some r ∷ ps) w =
      let w' = (check_dead moments (some r) w).1 in
      let rest =
        Advances-trans w.store w'.store (filter_live moments ps w').1.store
          (check_dead-Advances moments quiet (some r) w) (filter_live-Advances ps w') in
      if_cases (λ (o : List Ref × World). Advances w.store o.1.store)
        (check_dead moments (some r) w).0 _ _ (λ t. rest) (λ t. rest)

  -- What is filtered out is terminal at any later time.
  pub filter_live_covers :
      (ps : List RequestPtr) (w : World) (st : Store)
      → Advances (filter_live moments ps w).1.store st
      → AllIn IsEnded st (filter_live moments ps w).0
      → All (At IsEnded st) ps
  unfolding filter_live
  filter_live_covers [] w st a h = tt
  filter_live_covers (none ∷ ps) w st a h =
      (tt, filter_live_covers ps (check_dead moments none w).1 st a h)
  filter_live_covers (some r ∷ ps) w st a h =
      let w' = (check_dead moments (some r) w).1 in
      let rest = filter_live moments ps w' in
      let Goal = λ (o : List Ref × World).
        Advances o.1.store st → AllIn IsEnded st o.0 → All (At IsEnded st) (some r ∷ ps) in
      if_cases Goal (check_dead moments (some r) w).0 _ _
        (λ dead b g. (
          (Advances-trans w'.store rest.1.store st (filter_live-Advances ps w') b r).0
              (sym (check_dead_lem moments quiet r w) ∙ dead),
          filter_live_covers ps w' st b g,
        ))
        (λ live b g. (g.0, filter_live_covers ps w' st b g.1)) a h

  pub filter_live_keeps :
      (P : InferenceRequest → Type 0) (keep : IsKept P) (ps : List RequestPtr) (w : World)
      → All (At P w.store) ps
      → AllIn P (filter_live moments ps w).1.store (filter_live moments ps w).0
  unfolding filter_live
  filter_live_keeps P keep [] w h = tt
  filter_live_keeps P keep (none ∷ ps) w h =
      let w' = (check_dead moments none w).1 in
      filter_live_keeps P keep ps w'
        (At-kept P keep w.store w'.store ps (check_dead-Advances moments quiet none w) h.1)
  filter_live_keeps P keep (some r ∷ ps) w h =
      let w' = (check_dead moments (some r) w).1 in
      let a = check_dead-Advances moments quiet (some r) w in
      let rest = filter_live_keeps P keep ps w' (At-kept P keep w.store w'.store ps a h.1) in
      let b =
        Advances-trans w.store w'.store (filter_live moments ps w').1.store a
          (filter_live-Advances ps w') in
      if_cases (λ (o : List Ref × World). AllIn P o.1.store o.0) (check_dead moments (some r) w).0 _
        _ (λ dead. rest)
        (λ live. (
          keep (w.store.requests r) ((filter_live moments ps w').1.store.requests r) (b r) h.0,
          rest,
        ))

  -- The first loop of the batch.
  pub start_running-Advances :
      (rs : List Ref) (w : World) → Advances w.store (start_running moments rs w).1.store
  unfolding start_running
  start_running-Advances [] w = Advances-refl w.store
  start_running-Advances (r ∷ rs) w =
      let w1 = (check_dead moments (some r) w).1 in
      let w2 = (call moments (transition_to running) r w1).1 in
      let a = check_dead-Advances moments quiet (some r) w in
      let b =
        Advances-trans w.store w1.store w2.store a
          (call-Advances moments quiet (transition_to running) r w1 run-Later) in
      let Goal = λ (o : Option Status × World). Advances w.store o.1.store in
      if_cases Goal (check_dead moments (some r) w).0 _ _
        (λ dead.
          Advances-trans w.store w1.store (start_running moments rs w1).1.store a
            (start_running-Advances rs w1))
        (λ live.
          if_cases Goal (ok (call moments (transition_to running) r w1).0) _ _
            (λ started.
              Advances-trans w.store w2.store (start_running moments rs w2).1.store b
                (start_running-Advances rs w2))
            (λ refused. b))

  -- Unless it stops early, every request runs or is terminal.
  pub start_running_starts :
      (rs : List Ref) (w : World)
      → (start_running moments rs w).0 ≡ none
      → AllIn IsStarted (start_running moments rs w).1.store rs
  unfolding start_running
  start_running_starts [] w h = tt
  start_running_starts (r ∷ rs) w h =
      let (dead, w1) = check_dead moments (some r) w in
      let (started, w2) = call moments (transition_to running) r w1 in
      let Goal = λ (o : Option Status × World). o.0 ≡ none → AllIn IsStarted o.1.store (r ∷ rs) in
      if_cases Goal dead _ _
        (λ d g. (
          (start_running-Advances rs w1 r).1 (inr (sym (check_dead_lem moments quiet r w) ∙ d)),
          start_running_starts rs w1 g,
        ))
        (λ live.
          if_cases Goal (ok started) _ _
            (λ s g.
              let (x, l, v, e) = called moments quiet (transition_to running) r w1 in
              (
                (start_running-Advances rs w2 r).1
                    (inl (ap (λ y. y.state) e ∙ run_ok x (ap ok (sym v) ∙ s))),
                start_running_starts rs w2 g,
              ))
            (λ refused g. absurd (none-ne-some started (sym g))))
        h

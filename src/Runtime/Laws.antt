-- ===== src/Runtime/Laws.antt =====
-- No request is lost on its way through the runtime.
use mathlib.Core.Bool.{false≢true}
use adaptive_ai_inference_ru.Prelude.{
  ℕ, ◌+◌, ◌≡◌, refl, sym, ap, subst, ◌∙◌, ◌⊎◌, inl, inr, true, false, Option, none, some, List,
  arith, if_cases, Bool-cases,
}
use adaptive_ai_inference_ru.Prelude.Bytes.{Bytes}
use adaptive_ai_inference_ru.Status.{Status, ok, success, Result, found, fails}
use adaptive_ai_inference_ru.Request.{RequestState, received, queued, InferenceRequest, is_terminal}
use adaptive_ai_inference_ru.ModelRegistry.{ModelSpec, find}
use adaptive_ai_inference_ru.BoundedQueue.{try_push}
use adaptive_ai_inference_ru.Router.{RoutingResult}
use adaptive_ai_inference_ru.Router.Interface.{IWorkerRouter}
use adaptive_ai_inference_ru.Scheduler.{IRequestScheduler}
use adaptive_ai_inference_ru.Admission.{Others, Answer}
use adaptive_ai_inference_ru.Admission.Laws.{AreNoTransitions, Admitted, admit-Admitted}
use adaptive_ai_inference_ru.Store.{Ref, Store, is_dead_request}
use adaptive_ai_inference_ru.Store.Dead.{is_dead_request-Checked}
use adaptive_ai_inference_ru.World.{Moment, World, ask, check_dead}
use adaptive_ai_inference_ru.World.Later.{IsEnded}
use adaptive_ai_inference_ru.World.Calm.{
  IsEndedOr, AreCalm, KeepsModel, asked, checked, rejected, check_dead-model_id,
}
use adaptive_ai_inference_ru.Worker.{Worker, Enqueued, try_enqueue, count_pushed}
use adaptive_ai_inference_ru.Worker.Enqueue.{Takes, try_enqueue-Entered}
use adaptive_ai_inference_ru.Runtime.{Runtime, find_worker, collect_snapshots}
use adaptive_ai_inference_ru.Runtime.Routing.{
  Routed, is_received, not_accepting, worker_missing, put_worker, turn_away, submit, reject_with,
  hand_over, route_to, route_found, route_request,
}

not_received :
    (x : InferenceRequest) → is_received x.state ≡ false → IsEndedOr received x → IsEnded x
unfolding is_terminal
not_received x f h = ground arith

still :
    (s : RequestState) (x : InferenceRequest) → is_terminal x ≡ false → IsEndedOr s x → x.state ≡ s
still s x f (inl h) = h
still s x f (inr h) = absurd (false≢true (sym f ∙ h))

module _ (moments : ℕ → Moment) (r : Ref) (calm : AreCalm r moments) where
  pub turn_away_ends :
      (w : World)
      → IsEndedOr received (w.store.requests r)
      → IsEnded ((turn_away moments r w).store.requests r)
  unfolding turn_away
  turn_away_ends w h =
      let (s, w1) = ask moments (λ x. x.state) r w in
      let (e, k) = asked moments r calm (λ x. x.state) w received h in
      if_cases (λ (o : World). IsEnded (o.store.requests r)) (is_received s) _ _
        (λ t. rejected moments r calm not_accepting w1 received (inl refl) k)
        (λ f. not_received (w1.store.requests r) (ap is_received (sym e) ∙ f) k)

-- A request that is Received when it is submitted is never lost, over any scheduler, if other
-- threads do no more to it than to end it (in admit, than call its methods but transition_to),
-- whatever they do to other requests: afterwards the scheduler has accepted it and the answer is
-- success, or it is terminal, and the scheduler is as it was or has refused it.
pub submit-Admitted :
    (moments : ℕ → Moment) {S R : Type 0} (scheduler : IRequestScheduler S) (others : Others)
    (r : Ref) (w : World) (rt : Runtime S R)
    → AreCalm r moments
    → AreNoTransitions others
    → (w.store.requests r).state ≡ received
    → Admitted scheduler r rt.scheduler (submit moments scheduler others (some r) w rt)
unfolding submit
submit-Admitted moments {S} scheduler others r w rt calm quiet h =
    let (dead, w') = check_dead moments (some r) w in
    let (e, k) = checked moments r calm w received (inl h) in
    let Goal = λ (o : Answer S). Admitted scheduler r rt.scheduler o in
    if_cases Goal dead _ _ (λ d. inr (sym e ∙ d, inl refl))
      (λ live.
        if_cases Goal rt.accepting _ _
          (λ takes.
            admit-Admitted scheduler others (moments w'.time).now r w'.store rt.scheduler quiet
              (still received (w'.store.requests r) (sym e ∙ live) k))
          (λ refuses. inr (turn_away_ends moments r calm w' k, inl refl)))

try_enqueue-IsEndedOr :
    (now : ℕ) (r : Ref) (st : Store) (k : Worker) (s : RequestState)
    → IsEndedOr s (st.requests r)
    → IsEndedOr s ((try_enqueue now (some r) st k).1.requests r)
unfolding try_enqueue count_pushed
try_enqueue-IsEndedOr now r st k s h =
    let (dead, st') = is_dead_request now (some r) st in
    let (a, b, c, d) = is_dead_request-Checked now r st in
    let kept : IsEndedOr s (st'.requests r) = elim (Bool-cases dead) [
      | inl g ↦ inr (b ∙ g)
      | inr l ↦ subst (IsEndedOr s) (sym (c l)) h
    ] in
    let Goal = λ (o : Enqueued). IsEndedOr s (o.1.requests r) in
    if_cases Goal k.accepting _ _
      (λ takes.
        if_cases Goal dead _ _ (λ g. kept)
          (λ l. if_cases Goal (ok (try_push (some r) k.lane).0) _ _ (λ p. kept) (λ p. kept)))
      (λ refuses. h)

-- The worker named `id` among `ks` accepts work and has taken the request, and the answer is success.
abbrev pub HandedTo : {R : Type 0} → Ref → List Worker → ℕ → Routed R → Type 0
HandedTo r ks id o =
    (k : Worker) × (k' : Worker) × (find_worker id ks ≡ some k)
    × (k.accepting ≡ true)
    × Takes r k k'
    × (o.workers ≡ put_worker id k' ks)
    × (o.status ≡ success)

-- The request is terminal, or in the lane of the worker that the router named.
abbrev pub RoutedBy : {R : Type 0} → Ref → List Worker → RoutingResult × R → Routed R → Type 0
RoutedBy r ks answer o =
    IsEnded (o.world.store.requests r)
    ⊎ ((id : ℕ) × (answer ≡ (found id, o.router)) × HandedTo r ks id o)

-- The same for the router's answer on the model's entry in the registry and the workers' snapshots.
abbrev pub IsRouted :
    {S R : Type 0} → IWorkerRouter R → List Worker → Ref → Bytes → Runtime S R → Routed R → Type 0
IsRouted router ks r model_id rt o =
    IsEnded (o.world.store.requests r)
    ⊎ ((spec : ModelSpec) × (id : ℕ) × (find model_id rt.registry ≡ found spec)
        × (router.select spec (collect_snapshots rt.workers) rt.router ≡ (found id, o.router))
        × HandedTo r ks id o)

module _ (moments : ℕ → Moment) (r : Ref) (calm : AreCalm r moments) {R : Type 0}
    (ks : List Worker) where
  reject_with-ends :
      (e : Status) (w : World) (s : R) (ks' : List Worker)
      → IsEndedOr queued (w.store.requests r)
      → IsEnded ((reject_with moments e r w s ks').world.store.requests r)
  unfolding reject_with
  reject_with-ends e w s ks' h = rejected moments r calm e w queued (inr refl) h

  hand_over-RoutedBy :
      (id : ℕ) (chosen : Option Worker) (w : World) (s : R)
      → find_worker id ks ≡ chosen
      → IsEndedOr queued (w.store.requests r)
      → RoutedBy r ks (found id, s) (hand_over moments r id chosen w s ks)
  unfolding hand_over
  hand_over-RoutedBy id none w s e h = inl (reject_with-ends worker_missing w s ks h)
  hand_over-RoutedBy id (some k) w s e h =
      let m = moments w.time in
      let st = m.others w.store in
      let (status, st', k') = try_enqueue m.now (some r) st k in
      let w' : World = record { store = st'; time = w.time + 1 } in
      let h' = calm w.time w.store queued h in
      if_cases (RoutedBy r ks (found id, s)) (ok status) _ _
        (λ good. elim (try_enqueue-Entered m.now r st k) [
          | inl (a, refused, b, c) ↦ absurd (false≢true (sym (ap ok refused) ∙ good))
          | inr (inl (a, why, dead, b, same)) ↦ inl dead
          | inr (inr (a, live, open_still, kept, inl (b, taken))) ↦
              inr (id, refl, (k, k', e, a, taken, refl, refl))
          | inr (inr (a, live, open_still, kept, inr (inl (c, refused, same)))) ↦
              absurd (false≢true (sym (ap ok refused) ∙ good))
          | inr (inr (a, live, open_still, kept, inr (inr (c, full, refused, same)))) ↦
              absurd (false≢true (sym (ap ok refused) ∙ good))
        ])
        (λ bad. inl (
          reject_with-ends status w' s (put_worker id k' ks)
            (try_enqueue-IsEndedOr m.now r st k queued h')))

  route_to-RoutedBy :
      (o : RoutingResult × R) (w : World)
      → IsEndedOr queued (w.store.requests r)
      → RoutedBy r ks o (route_to moments r o w ks)
  unfolding route_to
  route_to-RoutedBy (fails e, s) w h = inl (reject_with-ends e w s ks h)
  route_to-RoutedBy (found id, s) w h = hand_over-RoutedBy id (find_worker id ks) w s refl h

  route_found-IsRouted :
      {S : Type 0} (router : IWorkerRouter R) (between : List Worker → List Worker)
      (spec : Result ModelSpec) (model_id : Bytes) (w : World) (rt : Runtime S R)
      → between rt.workers ≡ ks
      → find model_id rt.registry ≡ spec
      → IsEndedOr queued (w.store.requests r)
      → IsRouted router ks r model_id rt
          (route_found moments router between r spec w rt.router rt.workers)
  unfolding route_found
  route_found-IsRouted router between (fails e) model_id w rt same known h =
      inl (reject_with-ends e w rt.router rt.workers h)
  route_found-IsRouted router between (found spec) model_id w rt same known h =
      let answer = router.select spec (collect_snapshots rt.workers) rt.router in
      rw same (elim (route_to-RoutedBy answer w h) [
        | inl t ↦ inl t
        | inr (id, named, handed) ↦ inr (spec, id, known, named, handed)
      ])

-- A request that is Queued when it is routed is never lost, whatever the router answers, whatever the
-- workers do to each other's lanes meanwhile, and whatever other threads do to other requests, if
-- they do no more to it than to end it: afterwards it is terminal; or its model is in the registry,
-- the router named a worker for it and the workers' snapshots, and that worker, which accepts work
-- and has an open lane with room, has it at the end of the lane, and the answer is success.
pub route_request-IsRouted :
    (moments : ℕ → Moment) {S R : Type 0} (router : IWorkerRouter R)
    (between : List Worker → List Worker) (r : Ref) (w : World) (rt : Runtime S R)
    → AreCalm r moments
    → KeepsModel r moments
    → (w.store.requests r).state ≡ queued
    → IsRouted router
        (between rt.workers)
        r
        (w.store.requests r).model_id
        rt
        (route_request moments router between (some r) w rt)
unfolding route_request
route_request-IsRouted moments {S} {R} router between r w rt calm keeps h =
    let (dead, w') = check_dead moments (some r) w in
    let (e, k) = checked moments r calm w queued (inl h) in
    let same = check_dead-model_id moments r keeps w in
    let ks = between rt.workers in
    if_cases (IsRouted router ks r (w.store.requests r).model_id rt) dead _ _ (λ d. inl (sym e ∙ d))
      (λ live.
        route_found-IsRouted moments r calm ks router between
          (find (w'.store.requests r).model_id rt.registry) (w.store.requests r).model_id w' rt refl
          (ap (λ m. find m rt.registry) (sym same)) k)

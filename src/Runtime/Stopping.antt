-- ===== src/Runtime/Stopping.antt =====
-- What `stop` leaves, and what `start` and `submit` do from then on.
use adaptive_ai_inference_ru.Prelude.{
  ℕ, ◌≡◌, refl, sym, ◌∙◌, inl, true, false, some, List, [], ◌∷◌, map, All, if_cases,
}
use adaptive_ai_inference_ru.Status.{success}
use adaptive_ai_inference_ru.Request.{received}
use adaptive_ai_inference_ru.Scheduler.{IRequestScheduler}
use adaptive_ai_inference_ru.Admission.{Others, Answer}
use adaptive_ai_inference_ru.Store.{Ref}
use adaptive_ai_inference_ru.World.{Moment, World, check_dead}
use adaptive_ai_inference_ru.World.Later.{IsEnded}
use adaptive_ai_inference_ru.World.Calm.{AreCalm, checked}
use adaptive_ai_inference_ru.Worker.{Worker, close as close_worker}
use adaptive_ai_inference_ru.BoundedQueue.{close as close_queue}
use adaptive_ai_inference_ru.Runtime.{Runtime, start, stop, is_running, is_healthy}
use adaptive_ai_inference_ru.Runtime.Routing.{submit}
use adaptive_ai_inference_ru.Runtime.Laws.{turn_away_ends}

abbrev pub IsShut : Worker → Type 0
IsShut k = (k.accepting ≡ false) × (k.lane.closed ≡ true)

workers-IsShut : (ks : List Worker) → All IsShut (map close_worker ks)
unfolding close_worker close_queue
workers-IsShut [] = tt
workers-IsShut (k ∷ ks) = ((refl, refl), workers-IsShut ks)

-- After `stop` the runtime is neither running nor healthy and its workers take nothing more. A
-- `start` of a runtime that was started before reports a success and changes nothing.
pub stop_lem :
    {S R : Type 0} (scheduler : IRequestScheduler S) (rt : Runtime S R)
    → (let rt' = stop scheduler rt in
        (is_running rt' ≡ false)
        × (is_healthy rt' ≡ false)
        × (rt'.scheduler ≡ scheduler.close rt.scheduler)
        × All IsShut rt'.workers
        × (rt.started ≡ true → start rt' ≡ (success, rt')))
unfolding stop is_running is_healthy start
stop_lem scheduler rt = (refl, refl, refl, workers-IsShut rt.workers, λ h. rw h refl)

-- A request that is Received when it is submitted after `stop`, and to which other threads do no more
-- meanwhile than to end it (whatever they do to other requests), is terminal afterwards, and the
-- scheduler stays as its close left it.
pub submit-stop :
    (moments : ℕ → Moment) {S R : Type 0} (scheduler : IRequestScheduler S) (others : Others)
    (r : Ref) (w : World) (rt : Runtime S R)
    → AreCalm r moments
    → (w.store.requests r).state ≡ received
    → (let (status, st, s) = submit moments scheduler others (some r) w (stop scheduler rt) in
        IsEnded (st.requests r) × (s ≡ scheduler.close rt.scheduler))
unfolding submit stop
submit-stop moments {S} scheduler others r w rt calm h =
    let (dead, w') = check_dead moments (some r) w in
    let (e, k) = checked moments r calm w received (inl h) in
    let s = scheduler.close rt.scheduler in
    if_cases (λ (o : Answer S). IsEnded (o.1.requests r) × (o.2 ≡ s)) dead _ _
      (λ d. (sym e ∙ d, refl)) (λ live. (turn_away_ends moments r calm w' k, refl))

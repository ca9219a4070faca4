-- ===== src/Worker/Execute/Ends.antt =====
-- `execute_batch` always returns, and leaves no request of the batch without an end.
use adaptive_ai_inference_ru.Prelude.{
  ℕ, ◌≡◌, refl, sym, subst, ◌==◌, ==_iff, Option, ◌⊎◌, inl, inr, none, some, List, [], ◌∷◌, map,
  All, All-mono, length, if_cases,
}
use adaptive_ai_inference_ru.Prelude.Bytes.{Bytes}
use adaptive_ai_inference_ru.Status.{Status, ErrorCode, ok, success, error, InferenceResult}
use adaptive_ai_inference_ru.Request.{InferenceRequest}
use adaptive_ai_inference_ru.ModelRegistry.{Models}
use adaptive_ai_inference_ru.EvictionPolicy.{IEvictionPolicy}
use adaptive_ai_inference_ru.Backend.{IModelBackend, BatchResults, results, throws}
use adaptive_ai_inference_ru.ModelManager.{ModelManager, Outcome}
use adaptive_ai_inference_ru.ModelManager.Invariant.{IsManager}
use adaptive_ai_inference_ru.ModelManager.Residency.{ensure_resident_total}
use adaptive_ai_inference_ru.Store.{Ref, RequestPtr, Store}
use adaptive_ai_inference_ru.World.{Moment, World}
use adaptive_ai_inference_ru.World.Later.{
  IsEnded, IsStarted, IsAdmitted, Advances, AreQuiet, Advances-refl, Advances-trans,
}
use adaptive_ai_inference_ru.World.Dead.{At}
use adaptive_ai_inference_ru.Worker.{Worker, idle}
use adaptive_ai_inference_ru.Worker.Execute.{
  Raised, Executed, make_resident, each, filter_live, start_running, fail_one, fail_if_live, finish,
  fail_all, refuse_batch, finish_batch, conclude, infer_loaded, run_loaded, load_batch, start_batch,
  execute_live, execute_batch, nothing_left, begin_batch, restore_idle, record_batch_metrics,
  cardinality_mismatch,
}
use adaptive_ai_inference_ru.Worker.Execute.Loops.{
  AllIn, AllIn-kept, IsAdmitted-kept, IsStarted-kept, each-Advances, filter_live-Advances,
  filter_live_covers, filter_live_keeps, start_running-Advances, start_running_starts,
}
use adaptive_ai_inference_ru.Worker.Execute.Fails.{
  fail_one-Advances, fail_if_live-Advances, finish-Advances, fail_all_ends, fail_live_ends,
  finish_ends,
}

-- A worker between two batches.
abbrev pub IsIdle : Worker → Type 0
IsIdle k = (k.state ≡ idle) × (k.active_count ≡ 0) × IsManager k.model_manager

-- A worker at rest whose manager is as `Q` says.
abbrev pub IsAtRest : (ModelManager → Type 0) → Worker → Type 0
IsAtRest Q k = (k.state ≡ idle) × (k.active_count ≡ 0) × Q k.model_manager

-- What a batch leaves behind: it is later, every request of the batch is terminal, and the worker
-- is at rest with a manager as `Q` says and the lane it had.
abbrev pub Done :
    {S : Type 0} → (ModelManager → Type 0) → World → Worker → List RequestPtr → Executed S → Type 0
Done Q w k batch o =
    Advances w.store o.world.store
    × All (At IsEnded o.world.store) batch
    × IsAtRest Q o.worker
    × (o.worker.lane ≡ k.lane)

-- The manager is sound, or it is what the exception left.
abbrev pub IsLeft : {S : Type 0} → Option (Raised S) → ModelManager → Type 0
IsLeft none m = IsManager m
IsLeft (some x) m = IsManager m ⊎ (m ≡ x.manager)

pub IsManager-IsLeft :
    {S : Type 0} (raised : Option (Raised S)) (m : ModelManager) → IsManager m → IsLeft raised m
IsManager-IsLeft none m i = i
IsManager-IsLeft (some x) m i = inl i

abbrev pub pointers : List Ref → List RequestPtr
pointers rs = map (λ r. some r) rs

pub All-pointers :
    (P : InferenceRequest → Type 0) (st : Store) (rs : List Ref)
    → AllIn P st rs
    → All (At P st) (pointers rs)
All-pointers P st [] h = tt
All-pointers P st (r ∷ rs) h = (h.0, All-pointers P st rs h.1)

module _ (moments : ℕ → Moment) (quiet : AreQuiet moments) where
  -- What ends the requests that the filter leaves ends all.
  pub filtered-Done :
      {S : Type 0} (Q : ModelManager → Type 0) (ps : List RequestPtr) (w : World) (k : Worker)
      (o : Executed S)
      → (let (live, w') = filter_live moments ps w in Done Q w' k (pointers live) o)
      → Done Q w k ps o
  filtered-Done Q ps w k o (a, h, i, same) =
      let (live, w') = filter_live moments ps w in
      (
        Advances-trans w.store w'.store o.world.store (filter_live-Advances moments quiet ps w) a,
        filter_live_covers moments quiet ps w o.world.store a (AllIn-pointers live h),
        i,
        same,
      )
    where
      AllIn-pointers :
          (rs : List Ref)
          → All (At IsEnded o.world.store) (pointers rs)
          → AllIn IsEnded o.world.store rs
      AllIn-pointers [] h = tt
      AllIn-pointers (r ∷ rs) h = (h.0, AllIn-pointers rs h.1)

  module _ {S : Type 0} (Q : ModelManager → Type 0) (k : Worker) (sound : Q k.model_manager) where
    fail_all-Done :
        (e : Status) (rs : List Ref) (w : World) (b : S)
        → AllIn IsAdmitted w.store rs
        → Done Q w k (pointers rs) (fail_all moments e rs w k b)
    unfolding fail_all restore_idle
    fail_all-Done e rs w b h = (
      each-Advances (fail_one moments e) rs w (fail_one-Advances moments quiet e),
      All-pointers IsEnded (each (fail_one moments e) rs w).store rs
          (fail_all_ends moments quiet e rs w h),
      (refl, refl, sound),
      refl,
    )

    refuse_batch-Done :
        (e : Status) (rs : List Ref) (w : World) (b : S)
        → AllIn IsStarted w.store rs
        → Done Q w k (pointers rs) (refuse_batch moments e rs w k b)
    unfolding refuse_batch restore_idle record_batch_metrics
    refuse_batch-Done e rs w b h = (
      each-Advances (fail_if_live moments e) rs w (fail_if_live-Advances moments quiet e),
      All-pointers IsEnded (each (fail_if_live moments e) rs w).store rs
          (fail_live_ends moments quiet e rs w h),
      (refl, refl, sound),
      refl,
    )

    finish_batch-Done :
        (rs : List Ref) (xs : List InferenceResult) (w : World) (b : S)
        → length xs ≡ length rs
        → AllIn IsStarted w.store rs
        → Done Q w k (pointers rs) (finish_batch moments rs xs w k b)
    unfolding finish_batch restore_idle record_batch_metrics
    finish_batch-Done rs xs w b n h = (
      finish-Advances moments quiet rs xs success w,
      All-pointers IsEnded (finish moments rs xs success w).1.store rs
          (finish_ends moments quiet rs xs success w n h),
      (refl, refl, sound),
      refl,
    )

    nothing-Done : (w : World) (b : S) → Done Q w k [] (nothing_left w k b)
    unfolding restore_idle
    nothing-Done w b = (Advances-refl w.store, tt, (refl, refl, sound), refl)

    conclude-Done :
        (rs : List Ref) (answer : BatchResults) (w : World) (b : S)
        → AllIn IsStarted w.store rs
        → Done Q w k (pointers rs) (conclude moments rs answer w k b)
    unfolding conclude
    conclude-Done rs (throws what) w b h =
        fail_all-Done (error ErrorCode.internal_error what) rs w b (All-mono rs (λ r s. inr s) h)
    conclude-Done rs (results xs) w b h =
        if_cases (Done Q w k (pointers rs)) (length xs == length rs) _ _
          (λ same. finish_batch-Done rs xs w b ((==_iff (length xs) (length rs)).0 same) h)
          (λ other. refuse_batch-Done cardinality_mismatch rs w b h)

    module _ (backend : IModelBackend S) (registry : Models) (policy : IEvictionPolicy) where
      infer_loaded-Done :
          (rs : List Ref) (w : World) (b : S)
          → AllIn IsStarted w.store rs
          → Done Q w k (pointers rs) (infer_loaded moments backend registry policy (rs, w) k b)
      unfolding infer_loaded
      infer_loaded-Done [] w b h = nothing-Done w b
      infer_loaded-Done (r ∷ rs) w b h =
          let (answer, b') = backend.infer_batch (map (λ i. w.store.requests i) (r ∷ rs)) b in
          conclude-Done (r ∷ rs) answer w b' h

  module _ {S : Type 0} (backend : IModelBackend S) (registry : Models) (policy : IEvictionPolicy)
      (raised : Option (Raised S)) where
    -- A run that returns, with what it leaves.
    abbrev Returns : World → Worker → List RequestPtr → Option (Executed S) → Type 0
    Returns w k ps out = (o : Executed S) × (out ≡ some o) × Done (IsLeft raised) w k ps o

    run_loaded-Returns :
        (rs : List Ref) (w : World) (k : Worker) (o : Outcome S)
        → IsLeft raised o.manager
        → AllIn IsStarted w.store rs
        → Returns w k (pointers rs) (run_loaded moments backend registry policy rs w k (some o))
    unfolding run_loaded
    run_loaded-Returns rs w k o sound h =
        let k' = record k { model_manager = o.manager } in
        let (live, w') = filter_live moments (pointers rs) w in
        (
          _,
          refl,
          if_cases (Done (IsLeft raised) w k (pointers rs)) (ok o.status) _ _
              (λ there.
                filtered-Done (IsLeft raised) (pointers rs) w k
                  (infer_loaded moments backend registry policy (live, w') k' o.backend)
                  (infer_loaded-Done (IsLeft raised) k' sound backend registry policy live w'
                    o.backend
                    (filter_live_keeps moments quiet IsStarted IsStarted-kept (pointers rs) w
                      (All-pointers IsStarted w.store rs h))))
              (λ missing. refuse_batch-Done (IsLeft raised) k' sound o.status rs w o.backend h),
        )

    make_resident-Returns :
        (x : Option (Raised S))
        → raised ≡ x
        → (rs : List Ref) (id : Bytes) (w : World) (k : Worker) (b : S) → IsManager k.model_manager
        → AllIn IsStarted w.store rs
        → Returns w k (pointers rs) (make_resident moments backend registry policy x rs id w k b)
    unfolding make_resident
    make_resident-Returns none known rs id w k b sound h =
        let (o, e, kept) =
          ensure_resident_total backend registry policy id k.model_manager b sound in
        subst
          (λ out. Returns w k (pointers rs) (run_loaded moments backend registry policy rs w k out))
          (sym e) (run_loaded-Returns rs w k o (IsManager-IsLeft raised o.manager kept.sound) h)
    make_resident-Returns (some x) known rs id w k b sound h = (
      fail_all moments (error ErrorCode.internal_error x.what) rs w
          (record k { model_manager = x.manager }) x.backend,
      refl,
      fail_all-Done (IsLeft raised) (record k { model_manager = x.manager })
          (subst (λ (y : Option (Raised S)). IsLeft y x.manager) (sym known) (inr refl))
          (error ErrorCode.internal_error x.what) rs w x.backend (All-mono rs (λ r s. inr s) h),
    )

    load_batch-Returns :
        (rs : List Ref) (w : World) (k : Worker) (b : S)
        → IsManager k.model_manager
        → AllIn IsStarted w.store rs
        → Returns w k (pointers rs) (load_batch moments backend registry policy raised (rs, w) k b)
    unfolding load_batch
    load_batch-Returns [] w k b sound h = (
      nothing_left w k b,
      refl,
      nothing-Done (IsLeft raised) k (IsManager-IsLeft raised k.model_manager sound) w b,
    )
    load_batch-Returns (r ∷ rs) w k b sound h =
        make_resident-Returns raised refl (r ∷ rs) (w.store.requests r).model_id w k b sound h

    start_batch-Returns :
        (rs : List Ref) (started : Option Status) (w : World) (k : Worker) (b : S)
        → IsManager k.model_manager
        → AllIn IsAdmitted w.store rs
        → (started ≡ none → AllIn IsStarted w.store rs)
        → Returns w k
            (pointers rs)
            (start_batch moments backend registry policy raised rs (started, w) k b)
    unfolding start_batch
    start_batch-Returns rs (some e) w k b sound h s = (
      fail_all moments e rs w k b,
      refl,
      fail_all-Done (IsLeft raised) k (IsManager-IsLeft raised k.model_manager sound) e rs w b h,
    )
    start_batch-Returns rs none w k b sound h s =
        let (live, w') = filter_live moments (pointers rs) w in
        let (o, e, done) = load_batch-Returns live w' k b sound (
          filter_live_keeps moments quiet IsStarted IsStarted-kept (pointers rs) w
            (All-pointers IsStarted w.store rs (s refl))) in
        (o, e, filtered-Done (IsLeft raised) (pointers rs) w k o done)

    execute_live-Returns :
        (rs : List Ref) (w : World) (k : Worker) (b : S)
        → IsIdle k
        → AllIn IsAdmitted w.store rs
        → Returns w k
            (pointers rs)
            (execute_live moments backend registry policy raised (rs, w) k b)
    unfolding execute_live begin_batch
    execute_live-Returns [] w k b i h = (
      record { status = success; world = w; worker = k; backend = b },
      refl,
      (Advances-refl w.store, tt, (i.0, i.1, IsManager-IsLeft raised k.model_manager i.2), refl),
    )
    execute_live-Returns (r ∷ rs) w k b i h =
        let batch = r ∷ rs in
        let (started, w') = start_running moments batch w in
        let a = start_running-Advances moments quiet batch w in
        let (o, e, (later, ends, rest, lane)) =
          start_batch-Returns batch started w' (begin_batch (length batch) k) b i.2
            (AllIn-kept IsAdmitted IsAdmitted-kept w.store w'.store batch a h)
            (start_running_starts moments quiet batch w) in
        (o, e, (Advances-trans w.store w'.store o.world.store a later, ends, rest, lane))

-- Whatever other threads do to the requests between the calls, short of undoing progress, and whatever
-- the backend answers or throws, execute_batch of an idle worker with a sound manager returns; every
-- request of a batch of null pointers and of Queued, Running or terminal requests is then terminal,
-- and the worker is idle again with the same lane and a sound manager, or the manager that an
-- exception of a load or an unload left, whatever that is.
pub execute_batch_ends :
    (moments : ℕ → Moment) {S : Type 0} (backend : IModelBackend S) (registry : Models)
    (policy : IEvictionPolicy) (raised : Option (Raised S)) (batch : List RequestPtr) (w : World)
    (k : Worker) (b : S)
    → AreQuiet moments
    → IsIdle k
    → All (At IsAdmitted w.store) batch
    → (o : Executed S) × (execute_batch moments backend registry policy raised batch w k b ≡ some o)
      × Done (IsLeft raised) w k batch o
unfolding execute_batch
execute_batch_ends moments backend registry policy raised batch w k b quiet i h =
    let (live, w') = filter_live moments batch w in
    let (o, e, done) =
      execute_live-Returns moments quiet backend registry policy raised live w' k b i
        (filter_live_keeps moments quiet IsAdmitted IsAdmitted-kept batch w h) in
    (o, e, filtered-Done moments quiet (IsLeft raised) batch w k o done)

-- ===== src/Worker/Round.antt =====
-- src/worker.cpp: what a round of `run_loop` does with a formed batch, and `discard_queued_request`.
-- The rest of the round, the pops of the lane, is not modelled.
use adaptive_ai_inference_ru.Prelude.{
  ℕ, ◌-◌, ◌≡◌, refl, ◌∙◌, Option, none, some, List, [], ◌∷◌, All, if◌then◌else◌, ltb, length,
  if_cases,
}
use adaptive_ai_inference_ru.Status.{success}
use adaptive_ai_inference_ru.ModelRegistry.{Models}
use adaptive_ai_inference_ru.EvictionPolicy.{IEvictionPolicy}
use adaptive_ai_inference_ru.Backend.{IModelBackend}
use adaptive_ai_inference_ru.BatchBuilder.{FormedBatch}
use adaptive_ai_inference_ru.Store.{Ref}
use adaptive_ai_inference_ru.World.{Moment, World}
use adaptive_ai_inference_ru.World.Later.{IsAdmitted, AreQuiet, Advances-refl}
use adaptive_ai_inference_ru.World.Dead.{At}
use adaptive_ai_inference_ru.Worker.{Worker}
use adaptive_ai_inference_ru.Worker.Execute.{sub64, Raised, Executed, filter_live, execute_batch}
use adaptive_ai_inference_ru.Worker.Execute.Loops.{IsAdmitted-kept, filter_live_keeps}
use adaptive_ai_inference_ru.Worker.Execute.Ends.{
  IsIdle, Done, IsLeft, IsManager-IsLeft, execute_batch_ends, filtered-Done, pointers, All-pointers,
}

unfoldable discard_queued_request : Worker → Worker
discard_queued_request k =
    if ltb 0 k.queued_count then record k { queued_count = sub64 k.queued_count 1 } else k

unfoldable keep_deferred : Option Ref → Worker → Worker
keep_deferred none k = k
keep_deferred (some r) k = record k { deferred = some (some r) }

unfoldable count_removed : ℕ → Worker → Worker
count_removed removed k =
    if ltb 0 removed then record k { queued_count = sub64 k.queued_count removed } else k

module _ (moments : ℕ → Moment) {S : Type 0} (backend : IModelBackend S) (registry : Models)
    (policy : IEvictionPolicy) (raised : Option (Raised S)) where
  -- On the requests that are still live.
  unfoldable execute_rest : List Ref → World → Worker → S → Option (Executed S)
  execute_rest [] w k b = some (record { status = success; world = w; worker = k; backend = b })
  execute_rest (r ∷ rs) w k b =
      execute_batch moments backend registry policy raised (pointers (r ∷ rs)) w k b

  unfoldable execute_formed : List Ref → World → Worker → S → Option (Executed S)
  execute_formed [] w k b = some (record { status = success; world = w; worker = k; backend = b })
  execute_formed (r ∷ rs) w k b =
      let (live, w') = filter_live moments (pointers (r ∷ rs)) w in
      execute_rest live w' (count_removed (length (r ∷ rs) - length live) k) b

  unfoldable run_formed : FormedBatch → World → Worker → S → Option (Executed S)
  run_formed formed w k b = execute_formed formed.requests w (keep_deferred formed.deferred k) b

  module _ (quiet : AreQuiet moments) where
    execute_rest-Done :
        (rs : List Ref) (w : World) (k : Worker) (b : S)
        → IsIdle k
        → All (At IsAdmitted w.store) (pointers rs)
        → (o : Executed S) × (execute_rest rs w k b ≡ some o)
          × Done (IsLeft raised) w k (pointers rs) o
    unfolding execute_rest
    execute_rest-Done [] w k b i h = (
      record { status = success; world = w; worker = k; backend = b },
      refl,
      (Advances-refl w.store, tt, (i.0, i.1, IsManager-IsLeft raised k.model_manager i.2), refl),
    )
    execute_rest-Done (r ∷ rs) w k b i h =
        execute_batch_ends moments backend registry policy raised (pointers (r ∷ rs)) w k b quiet i
          h

    count_removed_same :
        (n : ℕ) (k : Worker)
        → IsIdle k
        → IsIdle (count_removed n k) × ((count_removed n k).lane ≡ k.lane)
    unfolding count_removed
    count_removed_same n k i =
        if_cases (λ (x : Worker). IsIdle x × (x.lane ≡ k.lane)) (ltb 0 n) _ _ (λ t. (i, refl))
          (λ f. (i, refl))

    -- A formed batch of admitted requests is worked off: the round returns, every request of the
    -- batch is terminal, the worker is idle, its manager is sound or as an exception left it, and its lane
    -- is as it was.
    execute_formed-Done :
        (rs : List Ref) (w : World) (k : Worker) (b : S)
        → IsIdle k
        → All (At IsAdmitted w.store) (pointers rs)
        → (o : Executed S) × (execute_formed rs w k b ≡ some o)
          × Done (IsLeft raised) w k (pointers rs) o
    unfolding execute_formed
    execute_formed-Done [] w k b i h = (
      record { status = success; world = w; worker = k; backend = b },
      refl,
      (Advances-refl w.store, tt, (i.0, i.1, IsManager-IsLeft raised k.model_manager i.2), refl),
    )
    execute_formed-Done (r ∷ rs) w k b i h =
        let (live, w') = filter_live moments (pointers (r ∷ rs)) w in
        let k' = count_removed (length (r ∷ rs) - length live) k in
        let (i', same) = count_removed_same (length (r ∷ rs) - length live) k i in
        let kept =
          filter_live_keeps moments quiet IsAdmitted IsAdmitted-kept (pointers (r ∷ rs)) w h in
        let (o, e, (a, ended, idle, lane)) =
          execute_rest-Done live w' k' b i' (All-pointers IsAdmitted w'.store live kept) in
        (
          o,
          e,
          filtered-Done moments quiet (IsLeft raised) (pointers (r ∷ rs)) w k o
              (a, ended, idle, lane ∙ same),
        )

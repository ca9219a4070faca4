-- ===== src/WorkloadAware/Drops.antt =====
-- The loop at the chosen position, and the loop that counts who was passed over.
use adaptive_ai_inference_ru.Prelude.{
  ℕ, zero, suc, ◌-◌, ◌<◌, ◌≡◌, refl, sym, ◌∙◌, none, some, List, [], ◌∷◌, get_elem?, length, arith,
  if_cases,
}
use adaptive_ai_inference_ru.Prelude.Bytes.{Bytes}
use adaptive_ai_inference_ru.Store.{Ref}
use adaptive_ai_inference_ru.World.{Moment, World, check_dead}
use adaptive_ai_inference_ru.World.Later.{AreQuiet, Advances-refl}
use adaptive_ai_inference_ru.World.Dead.{check_dead_lem}
use adaptive_ai_inference_ru.WorkloadAware.{QueueEntry, Lanes, tally_queue, tally}
use adaptive_ai_inference_ru.WorkloadAware.Select.{
  prune_queue, prune_models, drop_dead, drop_dead_at, bypass_queue, bypass_models,
}
use adaptive_ai_inference_ru.WorkloadAware.Lanes.{
  IsFresh, Distinct, put_lane-IsFresh, put_lane-Distinct,
}
use adaptive_ai_inference_ru.WorkloadAware.Calls.{drop_dead_keeps}
use adaptive_ai_inference_ru.WorkloadAware.Losses.{
  any, Loses, of_queue, Loses-refl, drop_one, keep_one, Since, since,
}

none_left :
    (q' q : List QueueEntry)
    → 0 < length q
    → get_elem? q' 0 ≡ none
    → tally_queue any q' < tally_queue any q
unfolding tally_queue
none_left [] [] b h = omega arith
none_left [] (e ∷ q) b h = omega arith
none_left (x ∷ xs) q b h = ground arith

module _ (moments : ℕ → Moment) where
  pub bypass_queue-tally :
      (f : Ref → ℕ) (q : List QueueEntry) (w : World)
      → tally_queue f (bypass_queue moments q w).0 ≡ tally_queue f q
  unfolding bypass_queue tally_queue
  bypass_queue-tally f [] w = refl
  bypass_queue-tally f (e ∷ q) w =
      let w' = (check_dead moments (some e.request) w).1 in
      ground (arith, bypass_queue-tally f q w')

  pub bypass_models-tally :
      (f : Ref → ℕ) (lanes : Lanes) (w : World)
      → tally f (bypass_models moments lanes w).0 ≡ tally f lanes
  unfolding bypass_models tally
  bypass_models-tally f [] w = refl
  bypass_models-tally f ((m, q) ∷ lanes) w =
      let (q', w') = bypass_queue moments q w in
      omega (arith, bypass_queue-tally f q w, bypass_models-tally f lanes w')

  bypass_models-IsFresh :
      (k : Bytes) (lanes : Lanes) (w : World)
      → IsFresh k lanes
      → IsFresh k (bypass_models moments lanes w).0
  unfolding bypass_models
  bypass_models-IsFresh k [] w h = tt
  bypass_models-IsFresh k ((m, q) ∷ lanes) w h =
      (h.0, bypass_models-IsFresh k lanes (bypass_queue moments q w).1 h.1)

  pub bypass_models-Distinct :
      (lanes : Lanes) (w : World) → Distinct lanes → Distinct (bypass_models moments lanes w).0
  unfolding bypass_models Distinct
  bypass_models-Distinct [] w h = tt
  bypass_models-Distinct ((m, q) ∷ lanes) w h =
      let w' = (bypass_queue moments q w).1 in
      (bypass_models-IsFresh m lanes w' h.0, bypass_models-Distinct lanes w' h.1)

  prune_models-IsFresh :
      (k : Bytes) (lanes : Lanes) (n : ℕ) (w : World)
      → IsFresh k lanes
      → IsFresh k (prune_models moments lanes n w).0
  unfolding prune_models
  prune_models-IsFresh k [] n w h = tt
  prune_models-IsFresh k ((m, q) ∷ lanes) n w h =
      let (q', n', w') = prune_queue moments q n w in
      put_lane-IsFresh k m q' _ h.0 (prune_models-IsFresh k lanes n' w' h.1)

  pub prune_models-Distinct :
      (lanes : Lanes) (n : ℕ) (w : World)
      → Distinct lanes
      → Distinct (prune_models moments lanes n w).0
  unfolding prune_models Distinct
  prune_models-Distinct [] n w h = tt
  prune_models-Distinct ((m, q) ∷ lanes) n w h =
      let (q', n', w') = prune_queue moments q n w in
      put_lane-Distinct m q' _ (prune_models-IsFresh m lanes n' w' h.0)
        (prune_models-Distinct lanes n' w' h.1)

  -- If nothing is left at a position of the queue, something was taken out.
  pub drop_dead_at-none :
      (i : ℕ) (q : List QueueEntry) (n : ℕ) (w : World)
      → i < length q
      → get_elem? (drop_dead_at moments i q n w).0 i ≡ none
      → tally_queue any (drop_dead_at moments i q n w).0 < tally_queue any q
  unfolding drop_dead_at tally_queue
  drop_dead_at-none i [] n w b h = omega arith
  drop_dead_at-none zero (e ∷ q) n w b h = none_left (drop_dead moments (e ∷ q) n w).0 (e ∷ q) b h
  drop_dead_at-none (suc i) (e ∷ q) n w b h =
      omega (arith, drop_dead_at-none i q n w (omega arith) h)

module _ (moments : ℕ → Moment) (quiet : AreQuiet moments) where
  drop_dead-Loses :
      (q : List QueueEntry) (n : ℕ) (w : World)
      → (let (q', n', w') = drop_dead moments q n w in
          Loses w'.store n (of_queue q) n' (of_queue q'))
  unfolding drop_dead
  drop_dead-Loses [] n w = Loses-refl w.store n (of_queue [])
  drop_dead-Loses (e ∷ q) n w =
      let w1 = (check_dead moments (some e.request) w).1 in
      let Goal = λ (o : List QueueEntry × ℕ × World).
        Loses o.2.store n (of_queue (e ∷ q)) o.1 (of_queue o.0) in
      let rest = drop_dead moments q (n - 1) w1 in
      if_cases Goal (check_dead moments (some e.request) w).0 _ _
        (λ d.
          drop_one rest.2.store n e q rest.1 (of_queue rest.0)
            ((drop_dead_keeps moments (Since moments quiet w1.store) (since moments quiet w1.store)
                q (n - 1) w1 (Advances-refl w1.store) e.request).0
              (sym (check_dead_lem moments quiet e.request w) ∙ d))
            (drop_dead-Loses q (n - 1) w1))
        (λ live. Loses-refl w1.store n (of_queue (e ∷ q)))

  pub drop_dead_at-Loses :
      (i : ℕ) (q : List QueueEntry) (n : ℕ) (w : World)
      → (let (q', n', w') = drop_dead_at moments i q n w in
          Loses w'.store n (of_queue q) n' (of_queue q'))
  unfolding drop_dead_at
  drop_dead_at-Loses i [] n w = Loses-refl w.store n (of_queue [])
  drop_dead_at-Loses zero (e ∷ q) n w = drop_dead-Loses (e ∷ q) n w
  drop_dead_at-Loses (suc i) (e ∷ q) n w =
      let rest = drop_dead_at moments i q n w in
      keep_one rest.2.store n e q rest.1 rest.0 (drop_dead_at-Loses i q n w)

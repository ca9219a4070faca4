-- ===== src/WorkloadAware/Calls.antt =====
-- What every check for a dead request keeps, the loops of `next` keep.
use adaptive_ai_inference_ru.Prelude.{
  ℕ, zero, suc, ◌-◌, Option, none, some, List, [], ◌∷◌, if◌then◌else◌, if_cases,
}
use adaptive_ai_inference_ru.Prelude.Bytes.{Bytes}
use adaptive_ai_inference_ru.Store.{Ref}
use adaptive_ai_inference_ru.World.{Moment, World, check_dead}
use adaptive_ai_inference_ru.WorkloadAware.{QueueEntry, Lanes}
use adaptive_ai_inference_ru.WorkloadAware.Select.{
  Choice, BestGroup, Starved, each_model, each_live, count_live, prune_queue, prune_models,
  older_front, oldest_seq, starved_queue, better_queue, best_group, choose_entry, unless_starved,
  drop_dead, drop_dead_at, bypass_queue, bypass_models,
}

module _ (moments : ℕ → Moment) (Q : World → Type 0)
    (kept : (r : Ref) (w : World) → Q w → Q (check_dead moments (some r) w).1) where
  pub each_model_keeps :
      {A : Type 0} (body : Bytes → List QueueEntry → A → World → A × World) (lanes : Lanes) (a : A)
      (w : World)
      → ((m : Bytes) (q : List QueueEntry) (a : A) (w : World) → Q w → Q (body m q a w).1)
      → Q w
      → Q (each_model body lanes a w).1
  unfolding each_model
  each_model_keeps body [] a w h k = k
  each_model_keeps body ((m, q) ∷ lanes) a w h k =
      each_model_keeps body lanes (body m q a w).0 (body m q a w).1 h (h m q a w k)

  pub each_live_keeps :
      {A : Type 0} (body : ℕ → QueueEntry → A → A) (i : ℕ) (q : List QueueEntry) (a : A) (w : World)
      → Q w
      → Q (each_live moments body i q a w).1
  unfolding each_live
  each_live_keeps body i [] a w k = k
  each_live_keeps body i (e ∷ q) a w k =
      let (dead, w') = check_dead moments (some e.request) w in
      each_live_keeps body (suc i) q (if dead then a else body i e a) w' (kept e.request w k)

  pub prune_queue_keeps :
      (q : List QueueEntry) (n : ℕ) (w : World) → Q w → Q (prune_queue moments q n w).2
  unfolding prune_queue
  prune_queue_keeps [] n w k = k
  prune_queue_keeps (e ∷ q) n w k =
      let (dead, w') = check_dead moments (some e.request) w in
      let rest = prune_queue_keeps q (if dead then n - 1 else n) w' (kept e.request w k) in
      if_cases (λ (o : List QueueEntry × ℕ × World). Q o.2) dead _ _ (λ t. rest) (λ f. rest)

  pub prune_models_keeps :
      (lanes : Lanes) (n : ℕ) (w : World) → Q w → Q (prune_models moments lanes n w).2
  unfolding prune_models
  prune_models_keeps [] n w k = k
  prune_models_keeps ((m, q) ∷ lanes) n w k =
      let (q', n', w') = prune_queue moments q n w in
      prune_models_keeps lanes n' w' (prune_queue_keeps q n w k)

  older_front_keeps :
      (m : Bytes) (q : List QueueEntry) (oldest : ℕ) (w : World)
      → Q w
      → Q (older_front moments m q oldest w).1
  unfolding older_front
  older_front_keeps m [] oldest w k = k
  older_front_keeps m (e ∷ q) oldest w k = kept e.request w k

  pub oldest_seq_keeps : (lanes : Lanes) (w : World) → Q w → Q (oldest_seq moments lanes w).1
  unfolding oldest_seq
  oldest_seq_keeps lanes w k = each_model_keeps (older_front moments) lanes _ w older_front_keeps k

  pub starved_queue_keeps :
      (limit : ℕ) (m : Bytes) (q : List QueueEntry) (best : Starved) (w : World)
      → Q w
      → Q (starved_queue moments limit m q best w).1
  unfolding starved_queue
  starved_queue_keeps limit m q best w k = each_live_keeps _ 0 q best w k

  pub better_queue_keeps :
      (m : Bytes) (q : List QueueEntry) (best : BestGroup) (w : World)
      → Q w
      → Q (better_queue moments m q best w).1
  unfolding better_queue
  better_queue_keeps m q best w k = each_live_keeps count_live 0 q _ w k

  pub unless_starved_keeps :
      (lanes : Lanes) (c : Option Choice) (w : World) → Q w → Q (unless_starved moments lanes c w).1
  unfolding unless_starved best_group
  unless_starved_keeps lanes none w k =
      each_model_keeps (better_queue moments) lanes _ w better_queue_keeps k
  unless_starved_keeps lanes (some c) w k = k

  pub choose_entry_keeps :
      (limit : ℕ) (lanes : Lanes) (w : World) → Q w → Q (choose_entry moments limit lanes w).1
  unfolding choose_entry
  choose_entry_keeps limit lanes w k =
      unless_starved_keeps lanes _ _
        (each_model_keeps (starved_queue moments limit) lanes _ w (starved_queue_keeps limit) k)

  pub drop_dead_keeps :
      (q : List QueueEntry) (n : ℕ) (w : World) → Q w → Q (drop_dead moments q n w).2
  unfolding drop_dead
  drop_dead_keeps [] n w k = k
  drop_dead_keeps (e ∷ q) n w k =
      let (dead, w') = check_dead moments (some e.request) w in
      let k' = kept e.request w k in
      if_cases (λ (o : List QueueEntry × ℕ × World). Q o.2) dead _ _
        (λ t. drop_dead_keeps q (n - 1) w' k') (λ f. k')

  pub drop_dead_at_keeps :
      (i : ℕ) (q : List QueueEntry) (n : ℕ) (w : World) → Q w → Q (drop_dead_at moments i q n w).2
  unfolding drop_dead_at
  drop_dead_at_keeps i [] n w k = k
  drop_dead_at_keeps zero (e ∷ q) n w k = drop_dead_keeps (e ∷ q) n w k
  drop_dead_at_keeps (suc i) (e ∷ q) n w k = drop_dead_at_keeps i q n w k

  bypass_queue_keeps : (q : List QueueEntry) (w : World) → Q w → Q (bypass_queue moments q w).1
  unfolding bypass_queue
  bypass_queue_keeps [] w k = k
  bypass_queue_keeps (e ∷ q) w k =
      bypass_queue_keeps q (check_dead moments (some e.request) w).1 (kept e.request w k)

  pub bypass_models_keeps : (lanes : Lanes) (w : World) → Q w → Q (bypass_models moments lanes w).1
  unfolding bypass_models
  bypass_models_keeps [] w k = k
  bypass_models_keeps ((m, q) ∷ lanes) w k =
      bypass_models_keeps lanes (bypass_queue moments q w).1 (bypass_queue_keeps q w k)

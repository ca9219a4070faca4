-- ===== src/WorkloadAware/Choices.antt =====
-- What `choose_entry` answers stands for an entry that is there.
use adaptive_ai_inference_ru.Prelude.{
  ℕ, suc, ◌+◌, ◌<◌, ◌≤◌, ◌≡◌, true, Option, none, some, List, [], ◌∷◌, length, if◌then◌else◌, ltb,
  leb, ◌==◌, ◌&&◌, arith, if_cases,
}
use adaptive_ai_inference_ru.Prelude.Bytes.{Bytes}
use adaptive_ai_inference_ru.Prelude.Assoc.{lookup}
use adaptive_ai_inference_ru.World.{Moment, World, check_dead}
use adaptive_ai_inference_ru.WorkloadAware.{QueueEntry, Lanes}
use adaptive_ai_inference_ru.WorkloadAware.Select.{
  Choice, Starved, Group, BestGroup, first_of, starved_entry, better_of, better_group, each_model,
  each_live, starved_queue, better_queue, best_group, unless_starved, choose_entry,
}
use adaptive_ai_inference_ru.WorkloadAware.Lanes.{Distinct, AreFound, Distinct-AreFound}

-- A position in one of the queues.
abbrev pub IsPlaced : Lanes → Option Choice → Type 0
IsPlaced lanes none = Unit
IsPlaced lanes (some c) =
    (q : List QueueEntry) × (lookup c.model lanes ≡ some q) × (c.index < length q)

-- A predicate on what a loop over the models gathers.
pub each_model_gathers :
    {A : Type 0} (P : A → Type 0) (lanes : Lanes)
    (body : Bytes → List QueueEntry → A → World → A × World) (rest : Lanes) (a : A) (w : World)
    → ((m : Bytes) (q : List QueueEntry) (a : A) (w : World)
        → lookup m lanes ≡ some q
        → P a
        → P (body m q a w).0)
    → AreFound lanes rest
    → P a
    → P (each_model body rest a w).0
unfolding each_model
each_model_gathers P lanes body [] a w f h p = p
each_model_gathers P lanes body ((m, q) ∷ rest) a w f h p =
    each_model_gathers P lanes body rest (body m q a w).0 (body m q a w).1 f h.1 (f m q a w h.0 p)

starved_entry-IsPlaced :
    (lanes : Lanes) (limit : ℕ) (m : Bytes) (q : List QueueEntry) (i : ℕ) (e : QueueEntry)
    (best : Starved)
    → lookup m lanes ≡ some q
    → i < length q
    → IsPlaced lanes best.chosen
    → IsPlaced lanes (starved_entry limit m i e best).chosen
unfolding starved_entry
starved_entry-IsPlaced lanes limit m q i e best h b p =
    let here : IsPlaced lanes (some (record { model = m; index = i; starvation = true })) =
      (q, h, b) in
    if_cases (λ (o : Starved). IsPlaced lanes o.chosen)
      (leb limit e.bypass_count && ltb e.enqueue_sequence best.seq) _ _ (λ t. here) (λ f. p)

better_of-IsPlaced :
    (lanes : Lanes) (m : Bytes) (q : List QueueEntry) (g : Group) (best : BestGroup)
    → lookup m lanes ≡ some q
    → 0 < length q
    → IsPlaced lanes (first_of best.chosen)
    → IsPlaced lanes (first_of (better_of m g best).chosen)
unfolding better_of
better_of-IsPlaced lanes m q g best h b p =
    let here : IsPlaced lanes (first_of (some m)) = (q, h, b) in
    let Goal = λ (o : BestGroup). IsPlaced lanes (first_of o.chosen) in
    if_cases Goal (g.size == 0) _ _ (λ t. p)
      (λ f. if_cases Goal (better_group m g best.group best.chosen) _ _ (λ t. here) (λ f. p))

module _ (moments : ℕ → Moment) where
  pub each_live_gathers :
      {A : Type 0} (P : A → Type 0) (n : ℕ) (body : ℕ → QueueEntry → A → A) (i : ℕ)
      (q : List QueueEntry) (a : A) (w : World)
      → ((k : ℕ) (e : QueueEntry) (a : A) → k < n → P a → P (body k e a))
      → i + length q ≤ n
      → P a
      → P (each_live moments body i q a w).0
  unfolding each_live
  each_live_gathers P n body i [] a w f b p = p
  each_live_gathers P n body i (e ∷ q) a w f b p =
      let (dead, w') = check_dead moments (some e.request) w in
      each_live_gathers P n body (suc i) q (if dead then a else body i e a) w' f (omega arith)
        (if_cases P dead a (body i e a) (λ d. p) (λ l. f i e a (omega arith) p))

  starved_queue-IsPlaced :
      (lanes : Lanes) (limit : ℕ) (m : Bytes) (q : List QueueEntry) (best : Starved) (w : World)
      → lookup m lanes ≡ some q
      → IsPlaced lanes best.chosen
      → IsPlaced lanes (starved_queue moments limit m q best w).0.chosen
  unfolding starved_queue
  starved_queue-IsPlaced lanes limit m q best w h p =
      each_live_gathers (λ (a : Starved). IsPlaced lanes a.chosen) (length q)
        (starved_entry limit m) 0 q best w
        (λ k e a b pa. starved_entry-IsPlaced lanes limit m q k e a h b pa) (omega arith) p

  better_queue-IsPlaced :
      (lanes : Lanes) (m : Bytes) (q : List QueueEntry) (best : BestGroup) (w : World)
      → lookup m lanes ≡ some q
      → IsPlaced lanes (first_of best.chosen)
      → IsPlaced lanes (first_of (better_queue moments m q best w).0.chosen)
  unfolding better_queue better_of each_live
  better_queue-IsPlaced lanes m [] best w h p = p
  better_queue-IsPlaced lanes m (e ∷ q) best w h p =
      better_of-IsPlaced lanes m (e ∷ q) _ best h (omega arith) p

  unless_starved-IsPlaced :
      (lanes : Lanes) (c : Option Choice) (w : World)
      → Distinct lanes
      → IsPlaced lanes c
      → IsPlaced lanes (unless_starved moments lanes c w).0
  unfolding unless_starved best_group
  unless_starved-IsPlaced lanes none w d p =
      each_model_gathers (λ (o : BestGroup). IsPlaced lanes (first_of o.chosen)) lanes
        (better_queue moments) lanes _ w (better_queue-IsPlaced lanes) (Distinct-AreFound lanes d)
        tt
  unless_starved-IsPlaced lanes (some c) w d p = p

  pub choose_entry-IsPlaced :
      (limit : ℕ) (lanes : Lanes) (w : World)
      → Distinct lanes
      → IsPlaced lanes (choose_entry moments limit lanes w).0
  unfolding choose_entry
  choose_entry-IsPlaced limit lanes w d = unless_starved-IsPlaced lanes _ _ d (
      each_model_gathers (λ (o : Starved). IsPlaced lanes o.chosen) lanes
        (starved_queue moments limit) lanes _ w (starved_queue-IsPlaced lanes limit)
        (Distinct-AreFound lanes d) tt)

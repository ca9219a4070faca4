-- ===== src/WorkloadAware/Select.antt =====
-- src/workload_aware_scheduler.cpp: `next` and `select_locked`, with what other threads do to the
-- requests before each call on one. `next` runs under the scheduler's lock. `none`: the recursion of
-- `select_locked` runs out of fuel.
use adaptive_ai_inference_ru.Prelude.{
  ℕ, zero, suc, ◌+◌, ◌-◌, ◌^◌, Bool, true, false, not, ◌&&◌, ◌||◌, Option, none, some, List, [],
  ◌∷◌, get_elem?, if◌then◌else◌, ltb, leb, ◌==◌, min, u64,
}
use adaptive_ai_inference_ru.Prelude.Bytes.{Bytes, bytes_lt}
use adaptive_ai_inference_ru.Prelude.Assoc.{lookup}
use adaptive_ai_inference_ru.Scheduler.{Next, item, finished, waiting}
use adaptive_ai_inference_ru.Store.{Ref}
use adaptive_ai_inference_ru.World.{Moment, World, check_dead}
use adaptive_ai_inference_ru.Worker.Execute.{sub64}
use adaptive_ai_inference_ru.WorkloadAware.{
  QueueEntry, Lanes, WorkloadAwareScheduler, store_queue, entry_count,
}

-- A model's queue and a position in it, and whether a starved entry stands there.
pub record Choice : Type 0 where
  pub model : Bytes
  pub index : ℕ
  pub starvation : Bool

-- `chosen_model`, with `best_starved_seq`.
pub record Starved : Type 0 where
  pub seq : ℕ
  pub chosen : Option Choice

-- The live entries of one queue.
pub record Group : Type 0 where
  pub size : ℕ
  pub oldest : ℕ

-- The best group so far, with its model.
pub record BestGroup : Type 0 where
  pub group : Group
  pub chosen : Option Bytes

-- How one run of `select_locked` ends: it returns, or calls itself.
pub data Step : Type 0 where
  stop : Option Ref → WorkloadAwareScheduler → World → Step
  again : WorkloadAwareScheduler → World → Step

abbrev pub max_u64 : ℕ
max_u64 = 2 ^ 64 - 1

abbrev pub put_lane : Bytes → List QueueEntry → Lanes → Lanes
put_lane m [] lanes = lanes
put_lane m (e ∷ q) lanes = (m, e ∷ q) ∷ lanes

unfoldable pub remove_at : ℕ → List QueueEntry → List QueueEntry
remove_at i [] = []
remove_at zero (e ∷ es) = es
remove_at (suc i) (e ∷ es) = e ∷ remove_at i es

-- A later entry is starved and older than the one found so far.
unfoldable pub starved_entry : ℕ → Bytes → ℕ → QueueEntry → Starved → Starved
starved_entry limit model i e best =
    if leb limit e.bypass_count && ltb e.enqueue_sequence best.seq
    then record {
      seq = e.enqueue_sequence;
      chosen = some (record { model = model; index = i; starvation = true });
    }
    else best

unfoldable pub count_live : ℕ → QueueEntry → Group → Group
count_live i e g = record { size = g.size + 1; oldest = min g.oldest e.enqueue_sequence }

-- `better`, against a best group of that size, that age and that model.
unfoldable pub better_group : Bytes → Group → Group → Option Bytes → Bool
better_group model g b none = true
better_group model g b (some m) =
    ltb b.size g.size
    || ((g.size == b.size) && ltb g.oldest b.oldest)
    || ((g.size == b.size) && (g.oldest == b.oldest) && bytes_lt model m)

unfoldable pub better_of : Bytes → Group → BestGroup → BestGroup
better_of model g best =
    if g.size == 0
    then best
    else if better_group model g best.group best.chosen
    then record { group = g; chosen = some model }
    else best

-- The first entry of the best group.
abbrev pub first_of : Option Bytes → Option Choice
first_of none = none
first_of (some model) = some (record { model = model; index = 0; starvation = false })

-- A loop over the models.
unfoldable pub each_model :
    {A : Type 0} → (Bytes → List QueueEntry → A → World → A × World) → Lanes → A → World → A × World
each_model body [] a w = (a, w)
each_model body ((m, q) ∷ lanes) a w = let (a', w') = body m q a w in each_model body lanes a' w'

abbrev pub handed : Option Ref → Next
handed none = finished
handed (some r) = item (some r)

unfoldable pub answer_of :
    Option (Option Ref × WorkloadAwareScheduler × World)
    → Option (Next × WorkloadAwareScheduler × World)
answer_of none = none
answer_of (some (r, s, w)) = some (handed r, s, w)

-- `select_locked` after a run: what it returns, or what it returns when it is called again.
unfoldable pub resume :
    (WorkloadAwareScheduler → World → Option (Option Ref × WorkloadAwareScheduler × World))
    → Step
    → Option (Option Ref × WorkloadAwareScheduler × World)
resume rerun (stop r s w) = some (r, s, w)
resume rerun (again s w) = rerun s w

module _ (moments : ℕ → Moment) where
  -- A loop over the entries of a queue, which skips the dead ones.
  unfoldable pub each_live :
      {A : Type 0} → (ℕ → QueueEntry → A → A) → ℕ → List QueueEntry → A → World → A × World
  each_live body i [] a w = (a, w)
  each_live body i (e ∷ es) a w =
      let (dead, w') = check_dead moments (some e.request) w in
      each_live body (suc i) es (if dead then a else body i e a) w'

  -- `prune_dead_entries_locked`
  unfoldable pub prune_queue : List QueueEntry → ℕ → World → List QueueEntry × ℕ × World
  prune_queue [] n w = ([], n, w)
  prune_queue (e ∷ es) n w =
      let (dead, w') = check_dead moments (some e.request) w in
      let rest = prune_queue es (if dead then n - 1 else n) w' in
      if dead then rest else (e ∷ rest.0, rest.1, rest.2)

  unfoldable pub prune_models : Lanes → ℕ → World → Lanes × ℕ × World
  prune_models [] n w = ([], n, w)
  prune_models ((m, q) ∷ lanes) n w =
      let (q', n', w') = prune_queue q n w in
      let rest = prune_models lanes n' w' in (put_lane m q' rest.0, rest.1, rest.2)

  unfoldable pub prune : WorkloadAwareScheduler → World → WorkloadAwareScheduler × World
  prune s w =
      let (lanes, n, w') = prune_models s.by_model s.size w in
      (record s { by_model = lanes; size = n }, w')

  unfoldable pub older_front : Bytes → List QueueEntry → ℕ → World → ℕ × World
  older_front m [] oldest w = (oldest, w)
  older_front m (e ∷ q) oldest w =
      let (dead, w') = check_dead moments (some e.request) w in
      ((if not dead && ltb e.enqueue_sequence oldest then e.enqueue_sequence else oldest), w')

  unfoldable pub oldest_seq : Lanes → World → ℕ × World
  oldest_seq lanes w = each_model older_front lanes max_u64 w

  unfoldable pub starved_queue : ℕ → Bytes → List QueueEntry → Starved → World → Starved × World
  starved_queue limit m q best w = each_live (starved_entry limit m) 0 q best w

  unfoldable pub better_queue : Bytes → List QueueEntry → BestGroup → World → BestGroup × World
  better_queue m q best w =
      let none_live : Group = record { size = 0; oldest = max_u64 } in
      let (g, w') = each_live count_live 0 q none_live w in (better_of m g best, w')

  unfoldable pub best_group : Lanes → World → Option Choice × World
  best_group lanes w =
      let none_better : BestGroup = record {
        group = record { size = 0; oldest = max_u64 };
        chosen = none;
      } in
      let (best, w') = each_model better_queue lanes none_better w in (first_of best.chosen, w')

  unfoldable pub unless_starved : Lanes → Option Choice → World → Option Choice × World
  unless_starved lanes none w = best_group lanes w
  unless_starved lanes (some c) w = (some c, w)

  unfoldable pub choose_entry : ℕ → Lanes → World → Option Choice × World
  choose_entry limit lanes w =
      let none_starved : Starved = record { seq = max_u64; chosen = none } in
      let (found, w') = each_model (starved_queue limit) lanes none_starved w in
      unless_starved lanes found.chosen w'

  -- The loop over the dead entries at the chosen position.
  unfoldable pub drop_dead : List QueueEntry → ℕ → World → List QueueEntry × ℕ × World
  drop_dead [] n w = ([], n, w)
  drop_dead (e ∷ es) n w =
      let (dead, w') = check_dead moments (some e.request) w in
      let rest = drop_dead es (n - 1) w' in if dead then rest else (e ∷ es, n, w')

  unfoldable pub drop_dead_at : ℕ → List QueueEntry → ℕ → World → List QueueEntry × ℕ × World
  drop_dead_at i [] n w = ([], n, w)
  drop_dead_at zero (e ∷ es) n w = drop_dead (e ∷ es) n w
  drop_dead_at (suc i) (e ∷ es) n w =
      let rest = drop_dead_at i es n w in (e ∷ rest.0, rest.1, rest.2)

  -- The last loop, over the entries that were passed over.
  unfoldable pub bypass_queue : List QueueEntry → World → List QueueEntry × World
  bypass_queue [] w = ([], w)
  bypass_queue (e ∷ es) w =
      let (dead, w') = check_dead moments (some e.request) w in
      let rest = bypass_queue es w' in
      ((if dead then e else record e { bypass_count = u64 (e.bypass_count + 1) }) ∷ rest.0, rest.1)

  unfoldable pub bypass_models : Lanes → World → Lanes × World
  bypass_models [] w = ([], w)
  bypass_models ((m, q) ∷ lanes) w =
      let (q', w') = bypass_queue q w in
      let rest = bypass_models lanes w' in ((m, q') ∷ rest.0, rest.1)

  unfoldable pub dispatch : ℕ → Bool → QueueEntry → WorkloadAwareScheduler → World → Step
  dispatch oldest starvation e s w =
      let c = s.metrics in
      let (lanes, w') = bypass_models s.by_model w in
      stop (some e.request)
        (record s {
          by_model = lanes;
          metrics = record {
            reordered_dispatches =
                if e.enqueue_sequence == oldest
                then c.reordered_dispatches
                else u64 (c.reordered_dispatches + 1);
            starvation_promotions =
                if starvation then u64 (c.starvation_promotions + 1) else c.starvation_promotions;
          };
        })
        w'

  -- On the entry at the chosen position of the queue, if there is one.
  unfoldable pub take_entry :
      ℕ → Choice → Option QueueEntry → List QueueEntry → WorkloadAwareScheduler → World → Step
  take_entry oldest c none q s w =
      again (record s { by_model = store_queue c.model q s.by_model }) w
  take_entry oldest c (some e) q s w =
      let s' = record s {
        by_model = store_queue c.model (remove_at c.index q) s.by_model;
        size = sub64 s.size 1;
      } in
      let (dead, w') = check_dead moments (some e.request) w in
      if dead then again s' w' else dispatch oldest c.starvation e s' w'

  unfoldable pub take_from :
      ℕ → Choice → Option (List QueueEntry) → WorkloadAwareScheduler → World → Step
  take_from oldest c none s w = stop none s w
  take_from oldest c (some q) s w =
      let (q', n, w') = drop_dead_at c.index q s.size w in
      take_entry oldest c (get_elem? q' c.index) q' (record s { size = n }) w'

  unfoldable pub take : ℕ → Option Choice → WorkloadAwareScheduler → World → Step
  take oldest none s w = let (s', w') = prune s w in stop none s' w'
  take oldest (some c) s w = take_from oldest c (lookup c.model s.by_model) s w

  unfoldable pub step_pruned : WorkloadAwareScheduler → World → Step
  step_pruned s w =
      let (oldest, w1) = oldest_seq s.by_model w in
      let (c, w2) = choose_entry s.max_bypass s.by_model w1 in
      if s.size == 0 then stop none s w else take oldest c s w2

  unfoldable pub step : WorkloadAwareScheduler → World → Step
  step s w = let (s', w') = prune s w in step_pruned s' w'

  unfoldable pub select :
      ℕ → WorkloadAwareScheduler → World → Option (Option Ref × WorkloadAwareScheduler × World)
  select zero s w = none
  select (suc fuel) s w = resume (λ s' w'. select fuel s' w') (step s w)

  unfoldable pub next :
      WorkloadAwareScheduler → World → Option (Next × WorkloadAwareScheduler × World)
  next s w =
      let (s', w') = prune s w in
      if (s.size == 0) && not s.closed
      then some (waiting, s, w)
      else if s'.size == 0
      then some (finished, s', w')
      else answer_of (select (suc (entry_count s'.by_model)) s' w')

-- ===== src/WorkloadAware/Steps.antt =====
-- One run of `select_locked` hands out at most one entry, loses none of a live request, and makes
-- progress if it calls itself.
use native.Mathlib.Decide.{ℕ_discrete}
use adaptive_ai_inference_ru.Prelude.{
  ℕ, ◌+◌, ◌<◌, ◌≡◌, ◌==◌, refl, sym, subst, ◌∙◌, inl, inr, Option, none, some, List, get_elem?,
  length, arith, if_cases,
}
use adaptive_ai_inference_ru.Prelude.Assoc.{lookup}
use adaptive_ai_inference_ru.Store.{Ref, Store}
use adaptive_ai_inference_ru.World.{Moment, World, check_dead}
use adaptive_ai_inference_ru.World.Later.{
  IsEnded, Advances, AreQuiet, Advances-refl, Advances-trans,
}
use adaptive_ai_inference_ru.World.Dead.{check_dead-Advances, check_dead_lem}
use adaptive_ai_inference_ru.Worker.Execute.{sub64}
use adaptive_ai_inference_ru.WorkloadAware.{
  QueueEntry, WorkloadAwareScheduler, store_queue, tally_queue, entry_count,
}
use adaptive_ai_inference_ru.WorkloadAware.Select.{
  Choice, Step, stop, again, remove_at, prune, oldest_seq, choose_entry, drop_dead_at,
  bypass_models, dispatch, take_entry, take_from, take, step_pruned, step,
}
use adaptive_ai_inference_ru.WorkloadAware.Lanes.{store_queue-Distinct}
use adaptive_ai_inference_ru.WorkloadAware.Calls.{
  oldest_seq_keeps, choose_entry_keeps, drop_dead_at_keeps, bypass_models_keeps,
}
use adaptive_ai_inference_ru.WorkloadAware.Losses.{
  any, one, Sums, Loses, of_queue, of_lanes, Loses-refl, Since, since, one_ne,
}
use adaptive_ai_inference_ru.WorkloadAware.Drops.{
  bypass_models-tally, bypass_models-Distinct, drop_dead_at-none, drop_dead_at-Loses,
}
use adaptive_ai_inference_ru.WorkloadAware.Choices.{IsPlaced, choose_entry-IsPlaced}
use adaptive_ai_inference_ru.WorkloadAware.Handed.{
  IsScheduler, with_hand, Handed, Handed-IsScheduler, Handed-trans, stored, store-Loses,
  remove-Loses, prune-Handed,
}

-- How a run may end.
abbrev pub IsStep : WorkloadAwareScheduler → World → Step → Type 0
IsStep s w (stop r s' w') = Advances w.store w'.store × Handed w'.store s s' r
IsStep s w (again s' w') =
    Advances w.store w'.store
    × Handed w'.store s s' none
    × (entry_count s'.by_model < entry_count s.by_model)

-- What is not handed out after all, because its request has ended.
drop_hand :
    (st st' : Store) (n n' : ℕ) (r : Ref) (h h' : Sums)
    → Advances st st'
    → IsEnded (st'.requests r)
    → Loses st n h (n' + 1) (with_hand (some r) h')
    → Loses st' n h n' h'
drop_hand st st' n n' r h h' a ended (less, size, live) = (
  omega arith,
  λ b. omega (arith, size b),
  λ j. elim (ℕ_discrete j r) [
    | yes same ↦ inl (subst (λ i. IsEnded (st'.requests i)) (sym same) ended)
    | no other ↦ elim (live j) [
      | inl t ↦ inl ((a j).0 t)
      | inr s ↦ inr (omega (arith, one_ne j r other))
    ]
  ],
)

-- Other entries, with the same sums.
same_sums :
    (st st' : Store) (n n' : ℕ) (r : Ref) (h k k' : Sums)
    → Advances st st'
    → ((f : Ref → ℕ) → k' f ≡ k f)
    → Loses st n h n' (with_hand (some r) k)
    → Loses st' n h n' (with_hand (some r) k')
same_sums st st' n n' r h k k' a same (less, size, live) = (
  omega (arith, same any),
  λ b. omega (arith, same any, size b),
  λ j. elim (live j) [ inl t ↦ inl ((a j).0 t) | inr s ↦ inr (omega (arith, same (one j))) ],
)

module _ (moments : ℕ → Moment) (quiet : AreQuiet moments) where
  take_entry-IsStep :
      (oldest : ℕ) (c : Choice) (q q' : List QueueEntry) (s : WorkloadAwareScheduler) (n : ℕ)
      (w w1 : World) (o : Option QueueEntry)
      → IsScheduler s
      → lookup c.model s.by_model ≡ some q
      → get_elem? q' c.index ≡ o
      → Advances w.store w1.store
      → Loses w1.store s.size (of_queue q) n (of_queue q')
      → (get_elem? q' c.index ≡ none → tally_queue any q' < tally_queue any q)
      → IsStep s w (take_entry moments oldest c o q' (record s { size = n }) w1)
  unfolding take_entry dispatch
  take_entry-IsStep oldest c q q' s n w w1 none known found at a loses fewer = (
    a,
    (
      store-Loses w1.store s.size n c.model q q' s.by_model found loses,
      refl,
      store_queue-Distinct c.model q' s.by_model known.3,
    ),
    omega (arith, fewer at, (stored any c.model q q' s.by_model found).0),
  )
  take_entry-IsStep oldest c q q' s n w w1 (some e) known found at a loses fewer =
      let (sized, fits, bounded, distinct) = known in
      let lanes = store_queue c.model (remove_at c.index q') s.by_model in
      let removed =
        remove-Loses w1.store s.size n c.index c.model q q' e s.by_model found at (omega arith)
          (omega arith) loses in
      let d = store_queue-Distinct c.model (remove_at c.index q') s.by_model distinct in
      let b = check_dead-Advances moments quiet (some e.request) w1 in
      let w2 = (check_dead moments (some e.request) w1).1 in
      let w3 = (bypass_models moments lanes w2).1 in
      let later =
        λ (st : Store) (k : Advances w1.store st). Advances-trans w.store w1.store st a k in
      let b' =
        bypass_models_keeps moments (Since moments quiet w1.store) (since moments quiet w1.store)
          lanes w2 b in
      if_cases (IsStep s w) (check_dead moments (some e.request) w1).0 _ _
        (λ t. (
          later w2.store b,
          (
            drop_hand w1.store w2.store s.size (sub64 n 1) e.request (of_lanes s.by_model)
                (of_lanes lanes) b (sym (check_dead_lem moments quiet e.request w1) ∙ t) removed,
            refl,
            d,
          ),
          omega (arith, removed.0),
        ))
        (λ f. (
          later w3.store b',
          (
            same_sums w1.store w3.store s.size (sub64 n 1 + 1) e.request (of_lanes s.by_model)
                (of_lanes lanes) (of_lanes (bypass_models moments lanes w2).0) b'
                (λ g. bypass_models-tally moments g lanes w2) removed,
            refl,
            bypass_models-Distinct moments lanes w2 d,
          ),
        ))

  take_from-IsStep :
      (oldest : ℕ) (c : Choice) (q : List QueueEntry) (s : WorkloadAwareScheduler) (w : World)
      → IsScheduler s
      → lookup c.model s.by_model ≡ some q
      → c.index < length q
      → IsStep s w (take_from moments oldest c (some q) s w)
  unfolding take_from
  take_from-IsStep oldest c q s w known found inside =
      let (q', n, w1) = drop_dead_at moments c.index q s.size w in
      take_entry-IsStep oldest c q q' s n w w1 (get_elem? q' c.index) known found refl
        (drop_dead_at_keeps moments (Since moments quiet w.store) (since moments quiet w.store)
          c.index q s.size w (Advances-refl w.store))
        (drop_dead_at-Loses moments quiet c.index q s.size w)
        (drop_dead_at-none moments c.index q s.size w inside)

  take-IsStep :
      (oldest : ℕ) (c : Option Choice) (s : WorkloadAwareScheduler) (w : World)
      → IsScheduler s
      → IsPlaced s.by_model c
      → IsStep s w (take moments oldest c s w)
  unfolding take
  take-IsStep oldest none s w known placed = prune-Handed moments quiet s w known.3
  take-IsStep oldest (some c) s w known (q, found, inside) =
      subst (λ o. IsStep s w (take_from moments oldest c o s w)) (sym found)
        (take_from-IsStep oldest c q s w known found inside)

  IsStep-after :
      (s s1 : WorkloadAwareScheduler) (w w1 w2 : World) (t : Step)
      → Advances w.store w1.store
      → Handed w1.store s s1 none
      → Advances w1.store w2.store
      → IsStep s1 w2 t
      → IsStep s w t
  IsStep-after s s1 w w1 w2 (stop r s' w') a h b (c, k) =
      let ab = Advances-trans w1.store w2.store w'.store b c in
      (
        Advances-trans w.store w1.store w'.store a ab,
        Handed-trans w1.store w'.store s s1 s' r ab h k,
      )
  IsStep-after s s1 w w1 w2 (again s' w') a h b (c, k, fewer) =
      let ab = Advances-trans w1.store w2.store w'.store b c in
      (
        Advances-trans w.store w1.store w'.store a ab,
        Handed-trans w1.store w'.store s s1 s' none ab h k,
        omega (arith, h.0.0),
      )

  step_pruned-IsStep :
      (s : WorkloadAwareScheduler) (w : World)
      → IsScheduler s
      → (w' : World) × Advances w.store w'.store × IsStep s w' (step_pruned moments s w)
  unfolding step_pruned
  step_pruned-IsStep s w known =
      let (oldest, w1) = oldest_seq moments s.by_model w in
      let (c, w2) = choose_entry moments s.max_bypass s.by_model w1 in
      let Goal = λ (t : Step). (w' : World) × Advances w.store w'.store × IsStep s w' t in
      let a =
        choose_entry_keeps moments (Since moments quiet w.store) (since moments quiet w.store)
          s.max_bypass s.by_model w1
          (oldest_seq_keeps moments (Since moments quiet w.store) (since moments quiet w.store)
            s.by_model w (Advances-refl w.store)) in
      if_cases Goal (s.size == 0) _ _
        (λ t. (
          w,
          Advances-refl w.store,
          (Advances-refl w.store, (Loses-refl w.store s.size (of_lanes s.by_model), refl, known.3)),
        ))
        (λ f. (
          w2,
          a,
          take-IsStep oldest c s w2 known
              (choose_entry-IsPlaced moments s.max_bypass s.by_model w1 known.3),
        ))

  pub step-IsStep :
      (s : WorkloadAwareScheduler) (w : World) → IsScheduler s → IsStep s w (step moments s w)
  unfolding step
  step-IsStep s w known =
      let (s1, w1) = prune moments s w in
      let (a, h) = prune-Handed moments quiet s w known.3 in
      let (w2, b, k) = step_pruned-IsStep s1 w1 (Handed-IsScheduler w1.store s s1 none known h) in
      IsStep-after s s1 w w1 w2 (step_pruned moments s1 w1) a h b k

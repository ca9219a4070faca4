-- ===== src/WorkloadAware/Handed.antt =====
-- One run of `select_locked`: which entries it takes out, and that it makes progress.
use adaptive_ai_inference_ru.Prelude.{
  ℕ, ◌+◌, ◌^◌, ◌≤◌, ◌<◌, ◌≡◌, refl, subst, ◌∙◌, inl, inr, Option, none, some, List, get_elem?,
  arith,
}
use adaptive_ai_inference_ru.Prelude.Bytes.{Bytes}
use adaptive_ai_inference_ru.Prelude.Assoc.{lookup}
use adaptive_ai_inference_ru.Store.{Ref, Store}
use adaptive_ai_inference_ru.World.{Moment, World}
use adaptive_ai_inference_ru.World.Later.{Advances, AreQuiet, Advances-refl}
use adaptive_ai_inference_ru.Worker.Execute.{sub64}
use adaptive_ai_inference_ru.WorkloadAware.{
  QueueEntry, Lanes, WorkloadAwareScheduler, erase, store_queue, entries_of, tally_queue, tally,
  entry_count,
}
use adaptive_ai_inference_ru.WorkloadAware.Select.{remove_at, prune}
use adaptive_ai_inference_ru.WorkloadAware.Lanes.{
  Distinct, tally-erase, tally-store_queue, tally-remove_at,
}
use adaptive_ai_inference_ru.WorkloadAware.Calls.{prune_models_keeps}
use adaptive_ai_inference_ru.WorkloadAware.Losses.{
  any, one, Sums, Loses, of_queue, of_lanes, Loses-trans, Since, since, prune_models-Loses,
}
use adaptive_ai_inference_ru.WorkloadAware.Drops.{prune_models-Distinct}

-- `size_` is the number of entries, at most the capacity, and no model has two queues.
abbrev pub IsScheduler : WorkloadAwareScheduler → Type 0
IsScheduler s =
    (s.size ≡ entry_count s.by_model)
    × (s.size ≤ s.capacity)
    × (s.capacity < 2 ^ 64)
    × Distinct s.by_model

-- Sums, and a count, with what is handed out.
abbrev pub with_hand : Option Ref → Sums → Sums
with_hand none h = h
with_hand (some r) h = λ f. h f + f r

abbrev pub with_one : Option Ref → ℕ → ℕ
with_one none n = n
with_one (some r) n = n + 1

-- From one state to the next: what is handed out has left the queues, and apart from it only
-- entries of ended requests have.
abbrev pub Handed : Store → WorkloadAwareScheduler → WorkloadAwareScheduler → Option Ref → Type 0
Handed st s s' r =
    Loses st s.size (of_lanes s.by_model) (with_one r s'.size) (with_hand r (of_lanes s'.by_model))
    × (s'.capacity ≡ s.capacity)
    × Distinct s'.by_model

pub Handed-IsScheduler :
    (st : Store) (s s' : WorkloadAwareScheduler) (r : Option Ref)
    → IsScheduler s
    → Handed st s s' r
    → IsScheduler s'
Handed-IsScheduler st s s' none (sized, fits, bounded, distinct) ((less, size, live), same, d) =
    (omega (arith, size (omega arith)), omega (arith, size (omega arith)), omega arith, d)
Handed-IsScheduler st s s' (some r) (sized, fits, bounded, distinct) ((less, size, live), same, d) =
    (omega (arith, size (omega arith)), omega (arith, size (omega arith)), omega arith, d)

pub Handed-trans :
    (st st' : Store) (s s1 s2 : WorkloadAwareScheduler) (r : Option Ref)
    → Advances st st'
    → Handed st s s1 none
    → Handed st' s1 s2 r
    → Handed st' s s2 r
Handed-trans st st' s s1 s2 r a (l1, c1, d1) (l2, c2, d2) = (
  Loses-trans st st' s.size s1.size (with_one r s2.size) (of_lanes s.by_model)
      (of_lanes s1.by_model) (with_hand r (of_lanes s2.by_model)) a l1 l2,
  c2 ∙ c1,
  d2,
)

-- A queue that is put back in place of the one that was found.
pub stored :
    (f : Ref → ℕ) (m : Bytes) (q q' : List QueueEntry) (lanes : Lanes)
    → lookup m lanes ≡ some q
    → (tally f (store_queue m q' lanes) + tally_queue f q ≡ tally f lanes + tally_queue f q')
      × (tally_queue f q ≤ tally f lanes)
stored f m q q' lanes found =
    let put =
      subst
        (λ o.
          tally f (store_queue m q' lanes) + tally_queue f (entries_of o)
          ≡ tally f lanes + tally_queue f q')
        found (tally-store_queue f m q' lanes) in
    let rest =
      subst (λ o. tally f (erase m lanes) + tally_queue f (entries_of o) ≡ tally f lanes) found
        (tally-erase f m lanes) in
    (put, omega (arith, rest))

-- With a queue that has lost some entries.
pub store-Loses :
    (st : Store) (n n' : ℕ) (m : Bytes) (q q' : List QueueEntry) (lanes : Lanes)
    → lookup m lanes ≡ some q
    → Loses st n (of_queue q) n' (of_queue q')
    → Loses st n (of_lanes lanes) n' (of_lanes (store_queue m q' lanes))
store-Loses st n n' m q q' lanes found (less, size, live) =
    let eq = λ (f : Ref → ℕ). stored f m q q' lanes found in
    (
      omega (arith, (eq any).0),
      λ b. omega (arith, (eq any).0, (eq any).1, size (omega (arith, (eq any).1))),
      λ j. elim (live j) [ inl t ↦ inl t | inr s ↦ inr (omega (arith, (eq (one j)).0)) ],
    )

-- And without the entry that is chosen.
pub remove-Loses :
    (st : Store) (n n' i : ℕ) (m : Bytes) (q q' : List QueueEntry) (e : QueueEntry) (lanes : Lanes)
    → lookup m lanes ≡ some q
    → get_elem? q' i ≡ some e
    → n < 2 ^ 64
    → tally any lanes ≤ n
    → Loses st n (of_queue q) n' (of_queue q')
    → Loses st n
        (of_lanes lanes)
        (sub64 n' 1 + 1)
        (with_hand (some e.request) (of_lanes (store_queue m (remove_at i q') lanes)))
remove-Loses st n n' i m q q' e lanes found at bounded fits (less, size, live) =
    let eq = λ (f : Ref → ℕ). stored f m q (remove_at i q') lanes found in
    let out = λ (f : Ref → ℕ). tally-remove_at f i q' e at in
    (
      omega (arith, (eq any).0, out any),
      λ b. omega (arith, (eq any).0, out any, (eq any).1, size (omega (arith, (eq any).1))),
      λ j. elim (live j) [
        | inl t ↦ inl t
        | inr s ↦ inr (omega (arith, (eq (one j)).0, out (one j)))
      ],
    )

module _ (moments : ℕ → Moment) (quiet : AreQuiet moments) where
  pub prune-Handed :
      (s : WorkloadAwareScheduler) (w : World)
      → Distinct s.by_model
      → (let (s', w') = prune moments s w in Advances w.store w'.store × Handed w'.store s s' none)
  unfolding prune
  prune-Handed s w d = (
    prune_models_keeps moments (Since moments quiet w.store) (since moments quiet w.store)
        s.by_model s.size w (Advances-refl w.store),
    (
      prune_models-Loses moments quiet s.by_model s.size w,
      refl,
      prune_models-Distinct moments s.by_model s.size w d,
    ),
  )

-- ===== src/WorkloadAware/Laws.antt =====
-- The scheduler's operations: none loses the entry of a live request, and `next` always returns.
use adaptive_ai_inference_ru.Prelude.{
  ℕ, zero, suc, ◌+◌, ◌<◌, ◌≡◌, ◌≢◌, ◌==◌, refl, ap, ◌⊎◌, inl, inr, true, false, ◌&&◌, not,
  Bool-cases, leb, Option, none, some, if◌then◌else◌, arith, if_cases,
}
use adaptive_ai_inference_ru.Status.{Status, ok}
use adaptive_ai_inference_ru.Scheduler.{Next, item, finished, waiting}
use adaptive_ai_inference_ru.Store.{Ref, Store}
use adaptive_ai_inference_ru.World.{Moment, World}
use adaptive_ai_inference_ru.World.Later.{
  IsEnded, Advances, AreQuiet, Advances-refl, Advances-trans,
}
use adaptive_ai_inference_ru.WorkloadAware.{
  QueueEntry, WorkloadAwareScheduler, enqueue, tally, entry_count,
}
use adaptive_ai_inference_ru.WorkloadAware.Select.{
  Step, stop, again, handed, answer_of, resume, prune, step, select, next,
}
use adaptive_ai_inference_ru.WorkloadAware.Lanes.{tally-push_entry, push_entry-Distinct}
use adaptive_ai_inference_ru.WorkloadAware.Losses.{any, one}
use adaptive_ai_inference_ru.WorkloadAware.Handed.{
  IsScheduler, Handed, Handed-IsScheduler, Handed-trans, prune-Handed,
}
use adaptive_ai_inference_ru.WorkloadAware.Steps.{IsStep, step-IsStep}

-- `next` blocks, and changes nothing, exactly if the scheduler is empty and open; otherwise it
-- comes to a request or to the end.
abbrev pub Waits : WorkloadAwareScheduler → World → Next × WorkloadAwareScheduler × World → Type 0
Waits s w o =
    ((s.size ≡ 0) × (s.closed ≡ false) × (o ≡ (waiting, s, w)))
    ⊎ (((s.size ≢ 0) ⊎ (s.closed ≡ true))
        × (((r : Ref) × (o.0 ≡ item (some r))) ⊎ (o.0 ≡ finished)))

handed_cases : (r : Option Ref) → ((j : Ref) × (handed r ≡ item (some j))) ⊎ (handed r ≡ finished)
handed_cases none = inr refl
handed_cases (some r) = inl (r, refl)

-- What a call of `next` hands out of a request's entries.
abbrev pub given : Ref → Next → ℕ
given j (item (some r)) = one j r
given j _ = 0

abbrev pub IsAnswer :
    WorkloadAwareScheduler → World → Next × WorkloadAwareScheduler × World → Type 0
IsAnswer s w (answer, s', w') =
    Advances w.store w'.store
    × IsScheduler s'
    × ((j : Ref)
        → IsEnded (w'.store.requests j)
          ⊎ (tally (one j) s.by_model ≡ tally (one j) s'.by_model + given j answer))

Handed-IsAnswer :
    (s s' : WorkloadAwareScheduler) (w w' : World) (r : Option Ref)
    → IsScheduler s
    → Advances w.store w'.store
    → Handed w'.store s s' r
    → IsAnswer s w (handed r, s', w')
Handed-IsAnswer s s' w w' none known a h = (
  a,
  Handed-IsScheduler w'.store s s' none known h,
  λ j. elim (h.0.2 j) [ inl t ↦ inl t | inr e ↦ inr (omega arith) ],
)
Handed-IsAnswer s s' w w' (some r) known a h = (
  a,
  Handed-IsScheduler w'.store s s' (some r) known h,
  λ j. elim (h.0.2 j) [ inl t ↦ inl t | inr e ↦ inr e ],
)

-- The result of `select_locked` on a state.
abbrev IsSelected :
    WorkloadAwareScheduler → World → Option (Option Ref × WorkloadAwareScheduler × World) → Type 0
IsSelected s w answer =
    (r : Option Ref) × (s' : WorkloadAwareScheduler) × (w' : World) × (answer ≡ some (r, s', w'))
    × Advances w.store w'.store
    × Handed w'.store s s' r

module _ (moments : ℕ → Moment) (quiet : AreQuiet moments) where
  resume-IsSelected :
      (fuel : ℕ) (s : WorkloadAwareScheduler) (w : World) (t : Step)
      → IsScheduler s
      → entry_count s.by_model < suc fuel
      → IsStep s w t
      → ((s' : WorkloadAwareScheduler) (w' : World)
          → IsScheduler s'
          → entry_count s'.by_model < fuel
          → IsSelected s' w' (select moments fuel s' w'))
      → IsSelected s w (resume (λ s' w'. select moments fuel s' w') t)
  unfolding resume
  resume-IsSelected fuel s w (stop r s' w') known enough (a, h) ih = (r, s', w', refl, a, h)
  resume-IsSelected fuel s w (again s1 w1) known enough (a, h, fewer) ih =
      let (r, s', w', e, b, k) =
        ih s1 w1 (Handed-IsScheduler w1.store s s1 none known h) (omega arith) in
      (
        r,
        s',
        w',
        e,
        Advances-trans w.store w1.store w'.store a b,
        Handed-trans w1.store w'.store s s1 s' r b h k,
      )

  select-IsSelected :
      (fuel : ℕ) (s : WorkloadAwareScheduler) (w : World)
      → IsScheduler s
      → entry_count s.by_model < fuel
      → IsSelected s w (select moments fuel s w)
  unfolding select
  select-IsSelected zero s w known enough = absurd (omega arith)
  select-IsSelected (suc fuel) s w known enough =
      resume-IsSelected fuel s w (step moments s w) known enough
        (step-IsStep moments quiet s w known) (select-IsSelected fuel)

  -- `next` comes to a request or to the end, or blocks. Unless the other threads do to a request what
  -- its methods forbid, afterwards the number of entries is right and within the capacity, and for
  -- every request, it has ended, or the scheduler holds as many entries of it as before, less the one
  -- handed out.
  pub next-IsAnswer :
      (s : WorkloadAwareScheduler) (w : World)
      → IsScheduler s
      → (o : Next × WorkloadAwareScheduler × World) × (next moments s w ≡ some o)
        × IsAnswer s w o
        × Waits s w o
  unfolding next answer_of
  next-IsAnswer s w known =
      let (s1, w1) = prune moments s w in
      let (a, h) = prune-Handed moments quiet s w known.3 in
      let known1 = Handed-IsScheduler w1.store s s1 none known h in
      let (r, s', w', e, b, k) =
        select-IsSelected (suc (entry_count s1.by_model)) s1 w1 known1 (omega arith) in
      let Goal = λ (x : Option (Next × WorkloadAwareScheduler × World)).
        (o : Next × WorkloadAwareScheduler × World) × (x ≡ some o) × IsAnswer s w o × Waits s w o in
      if_cases Goal ((s.size == 0) && not s.closed) _ _
        (λ t. (
          (waiting, s, w),
          refl,
          (Advances-refl w.store, known, λ j. inr (omega arith)),
          inl (ground arith, ground arith, refl),
        ))
        (λ f.
          let goes : (s.size ≢ 0) ⊎ (s.closed ≡ true) = elim (Bool-cases s.closed) [
            | inl c ↦ inr c
            | inr o ↦ inl (λ z. ground arith)
          ] in
          if_cases Goal (s1.size == 0) _ _
            (λ t. (
              (finished, s1, w1),
              refl,
              Handed-IsAnswer s s1 w w1 none known a h,
              inr (goes, inr refl),
            ))
            (λ g. (
              (handed r, s', w'),
              ap answer_of e,
              Handed-IsAnswer s s' w w' r known (Advances-trans w.store w1.store w'.store a b)
                  (Handed-trans w1.store w'.store s s1 s' r b h k),
              inr (goes, handed_cases r),
            )))

-- A request is refused if the scheduler is closed or full, and gets one more entry otherwise. The
-- other requests keep their entries, and the number of entries stays right and within the capacity.
pub enqueue-IsScheduler :
    (r : Ref) (st : Store) (s : WorkloadAwareScheduler)
    → IsScheduler s
    → (let (status, s') = enqueue (some r) st s in
        IsScheduler s'
        × (ok status ≡ (not s.closed && not (leb s.capacity s.size)))
        × ((j : Ref)
            → tally (one j) s'.by_model
              ≡ tally (one j) s.by_model + (if ok status then one j r else 0)))
unfolding enqueue
enqueue-IsScheduler r st s known =
    let (sized, fits, bounded, distinct) = known in
    let Goal = λ (o : Status × WorkloadAwareScheduler).
      IsScheduler o.1
      × (ok o.0 ≡ (not s.closed && not (leb s.capacity s.size)))
      × ((j : Ref)
          → tally (one j) o.1.by_model
            ≡ tally (one j) s.by_model + (if ok o.0 then one j r else 0)) in
    let e : QueueEntry = record {
      request = r;
      enqueue_sequence = s.next_sequence;
      bypass_count = 0;
    } in
    let m = (st.requests r).model_id in
    if_cases Goal (s.closed) _ _ (λ t. (known, ground arith, λ j. omega arith))
      (λ f.
        if_cases Goal (leb s.capacity s.size) _ _ (λ t. (known, ground arith, λ j. omega arith))
          (λ room.
            let below : s.size < s.capacity = ground arith in
            (
              (
                omega (arith, tally-push_entry any m e s.by_model),
                ground arith,
                bounded,
                push_entry-Distinct m e s.by_model distinct,
              ),
              ground arith,
              λ j. tally-push_entry (one j) m e s.by_model,
            )))

-- ===== src/WorkloadAware/Histories.antt =====
-- Any sequence of calls on a new scheduler, while other threads act on the requests.
use mathlib.Core.Option.{none-ne-some, some-injective}
use adaptive_ai_inference_ru.Prelude.{
  ℕ, ◌+◌, ◌^◌, ◌<◌, ◌≡◌, ◌==◌, refl, ap, subst, ◌⊎◌, inl, inr, Bool, true, ◌||◌, Option, none, some,
  List, [], ◌∷◌, if◌then◌else◌, arith, if_cases, Bool-cases,
}
use adaptive_ai_inference_ru.Status.{ok}
use adaptive_ai_inference_ru.Scheduler.{Next}
use adaptive_ai_inference_ru.Store.{Ref}
use adaptive_ai_inference_ru.World.{Moment, World}
use adaptive_ai_inference_ru.World.Later.{
  IsEnded, Advances, AreQuiet, Advances-refl, Advances-trans,
}
use adaptive_ai_inference_ru.WorkloadAware.{
  WorkloadAwareScheduler, new, make, enqueue, close, tally,
}
use adaptive_ai_inference_ru.WorkloadAware.Select.{next}
use adaptive_ai_inference_ru.WorkloadAware.Lanes.{Distinct}
use adaptive_ai_inference_ru.WorkloadAware.Losses.{one}
use adaptive_ai_inference_ru.WorkloadAware.Handed.{IsScheduler}
use adaptive_ai_inference_ru.WorkloadAware.Laws.{
  given, IsAnswer, Waits, next-IsAnswer, enqueue-IsScheduler,
}

pub data Op : Type 0 where
  enqueue_op : Ref → Op
  next_op : Op
  close_op : Op

-- What a sequence of calls leaves, with the requests it accepted and the answers it gave.
pub record Log : Type 0 where
  pub scheduler : WorkloadAwareScheduler
  pub world : World
  pub accepted : List Ref
  pub answers : List Next

abbrev pub add_accepted : Ref → Option Log → Option Log
add_accepted r none = none
add_accepted r (some l) = some (record l { accepted = r ∷ l.accepted })

abbrev pub add_answer : Next → Option Log → Option Log
add_answer a none = none
add_answer a (some l) = some (record l { answers = a ∷ l.answers })

abbrev pub after_next :
    (WorkloadAwareScheduler → World → Option Log)
    → Option (Next × WorkloadAwareScheduler × World)
    → Option Log
after_next rest none = none
after_next rest (some (a, s, w)) = add_answer a (rest s w)

module _ (moments : ℕ → Moment) where
  unfoldable pub run : List Op → WorkloadAwareScheduler → World → Option Log
  run [] s w = some (record { scheduler = s; world = w; accepted = []; answers = [] })
  run (enqueue_op r ∷ ops) s w =
      let (status, s') = enqueue (some r) w.store s in
      let rest = run ops s' w in if ok status then add_accepted r rest else rest
  run (next_op ∷ ops) s w = after_next (λ s' w'. run ops s' w') (next moments s w)
  run (close_op ∷ ops) s w = run ops (close s) w

-- How often a request was accepted, and how often it was handed out.
abbrev pub times_accepted : Ref → List Ref → ℕ
times_accepted j [] = 0
times_accepted j (r ∷ rs) = one j r + times_accepted j rs

abbrev pub times_given : Ref → List Next → ℕ
times_given j [] = 0
times_given j (a ∷ answers) = given j a + times_given j answers

abbrev pub IsRun : WorkloadAwareScheduler → World → Option Log → Type 0
IsRun s w answer =
    (l : Log) × (answer ≡ some l)
    × Advances w.store l.world.store
    × IsScheduler l.scheduler
    × ((j : Ref)
        → IsEnded (l.world.store.requests j)
          ⊎ (tally (one j) s.by_model + times_accepted j l.accepted
              ≡ tally (one j) l.scheduler.by_model + times_given j l.answers))

abbrev accept : Ref → Log → Option Log
accept r l = some (record l { accepted = r ∷ l.accepted })

abbrev reply : Next → Log → Option Log
reply a l = some (record l { answers = a ∷ l.answers })

make-IsScheduler :
    (capacity max_bypass : ℕ) (s : WorkloadAwareScheduler)
    → capacity < 2 ^ 64
    → make capacity max_bypass ≡ some s
    → IsScheduler s × ((j : Ref) → tally (one j) s.by_model ≡ 0)
unfolding make tally Distinct
make-IsScheduler capacity max_bypass s bounded made =
    if_cases
      (λ (o : Option WorkloadAwareScheduler).
        o ≡ some s → IsScheduler s × ((j : Ref) → tally (one j) s.by_model ≡ 0))
      ((capacity == 0) || (max_bypass == 0)) _ _ (λ t e. absurd (none-ne-some s e))
      (λ f e.
        subst
          (λ (x : WorkloadAwareScheduler).
            IsScheduler x × ((j : Ref) → tally (one j) x.by_model ≡ 0))
          (some-injective (new capacity max_bypass) s e)
          ((refl, omega arith, bounded, tt), λ j. refl))
      made

accepted-IsRun :
    (s s' : WorkloadAwareScheduler) (w : World) (r : Ref) (o : Option Log)
    → ((j : Ref) → tally (one j) s'.by_model ≡ tally (one j) s.by_model + one j r)
    → IsRun s' w o
    → IsRun s w (add_accepted r o)
accepted-IsRun s s' w r none more (l, e, a, k, live) = absurd (none-ne-some l e)
accepted-IsRun s s' w r (some l') more (l, e, a, k, live) =
    let same = some-injective l' l e in
    (
      record l { accepted = r ∷ l.accepted },
      ap (accept r) same,
      a,
      k,
      λ j. elim (live j) [ inl t ↦ inl t | inr q ↦ inr (omega (arith, more j)) ],
    )

refused-IsRun :
    (s s' : WorkloadAwareScheduler) (w : World) (o : Option Log)
    → ((j : Ref) → tally (one j) s'.by_model ≡ tally (one j) s.by_model)
    → IsRun s' w o
    → IsRun s w o
refused-IsRun s s' w o same (l, e, a, k, live) =
    (l, e, a, k, λ j. elim (live j) [ inl t ↦ inl t | inr q ↦ inr (omega (arith, same j)) ])

answered-IsRun :
    (s s' : WorkloadAwareScheduler) (w w' : World) (n : Next) (o : Option Log)
    → IsAnswer s w (n, s', w')
    → IsRun s' w' o
    → IsRun s w (add_answer n o)
answered-IsRun s s' w w' n none h (l, e, a, k, live) = absurd (none-ne-some l e)
answered-IsRun s s' w w' n (some l') (b, known, kept) (l, e, a, k, live) = (
  record l { answers = n ∷ l.answers },
  ap (reply n) (some-injective l' l e),
  Advances-trans w.store w'.store l.world.store b a,
  k,
  λ j. elim (kept j) [
    | inl t ↦ inl ((a j).0 t)
    | inr p ↦ elim (live j) [ inl t ↦ inl t | inr q ↦ inr (omega arith) ]
  ],
)

module _ (moments : ℕ → Moment) (quiet : AreQuiet moments) where
  run-IsRun :
      (ops : List Op) (s : WorkloadAwareScheduler) (w : World)
      → IsScheduler s
      → IsRun s w (run moments ops s w)
  unfolding run close
  run-IsRun [] s w known = (
    record { scheduler = s; world = w; accepted = []; answers = [] },
    refl,
    Advances-refl w.store,
    known,
    λ j. inr refl,
  )
  run-IsRun (enqueue_op r ∷ ops) s w known =
      let (status, s') = enqueue (some r) w.store s in
      let (known', answer, more) = enqueue-IsScheduler r w.store s known in
      let rest = run-IsRun ops s' w known' in
      elim (Bool-cases (ok status)) [
        | inl t ↦ rw t (
            accepted-IsRun s s' w r (run moments ops s' w)
              (λ j.
                subst
                  (λ (b : Bool).
                    tally (one j) s'.by_model
                    ≡ tally (one j) s.by_model + (if b then one j r else 0))
                  t (more j))
              rest)
        | inr f ↦ rw f (
            refused-IsRun s s' w (run moments ops s' w)
              (λ j. omega (
                arith,
                subst
                    (λ (b : Bool).
                      tally (one j) s'.by_model
                      ≡ tally (one j) s.by_model + (if b then one j r else 0))
                    f (more j),
              ))
              rest)
      ]
  run-IsRun (next_op ∷ ops) s w known =
      let ((n, s', w'), e, h, _) = next-IsAnswer moments quiet s w known in
      rw e (answered-IsRun s s' w w' n (run moments ops s' w') h (run-IsRun ops s' w' h.1))
  run-IsRun (close_op ∷ ops) s w known = run-IsRun ops (record s { closed = true }) w known

  -- On a new scheduler with a 64-bit capacity, every sequence of enqueue, next and close runs to its
  -- end, where a next that blocks in the code is recorded as waiting. Afterwards the size is the
  -- number of entries and at most the capacity; for every request, it has ended, or it was accepted
  -- as often as it was handed out or is still held; and one more next blocks, and changes nothing,
  -- exactly if the scheduler is empty and open, and otherwise comes to a request or to the end. The
  -- other threads may do to a request what its methods allow after admission.
  pub run_accounts :
      (capacity max_bypass : ℕ) (ops : List Op) (s : WorkloadAwareScheduler) (w : World)
      → capacity < 2 ^ 64
      → make capacity max_bypass ≡ some s
      → (l : Log) × (run moments ops s w ≡ some l)
        × IsScheduler l.scheduler
        × ((j : Ref)
            → IsEnded (l.world.store.requests j)
              ⊎ (times_accepted j l.accepted
                  ≡ tally (one j) l.scheduler.by_model + times_given j l.answers))
        × ((o : Next × WorkloadAwareScheduler × World) × (next moments l.scheduler l.world ≡ some o)
            × Waits l.scheduler l.world o)
  run_accounts capacity max_bypass ops s w bounded made =
      let (known, none_held) = make-IsScheduler capacity max_bypass s bounded made in
      let (l, e, a, k, live) = run-IsRun ops s w known in
      let (o, e', _, waits) = next-IsAnswer moments quiet l.scheduler l.world k in
      (
        l,
        e,
        k,
        λ j. elim (live j) [ inl t ↦ inl t | inr q ↦ inr (omega (arith, none_held j)) ],
        (o, e', waits),
      )

-- ===== src/WorkloadAware/Losses.antt =====
-- What the loops of `next` take out of the queues: the entries of requests that have ended, and
-- `size_` goes down by as many.
use native.Mathlib.Decide.{ℕ_discrete}
use adaptive_ai_inference_ru.Prelude.{
  ℕ, ◌+◌, ◌-◌, ◌≤◌, ◌≡◌, ◌≢◌, refl, sym, subst, ◌∙◌, ◌⊎◌, inl, inr, some, List, [], ◌∷◌,
  if◌then◌else◌, ◌==◌, arith, Bool-cases,
}
use adaptive_ai_inference_ru.Store.{Ref, Store}
use adaptive_ai_inference_ru.World.{Moment, World, check_dead}
use adaptive_ai_inference_ru.World.Later.{
  IsEnded, Advances, AreQuiet, Advances-refl, Advances-trans,
}
use adaptive_ai_inference_ru.World.Dead.{check_dead-Advances, check_dead_lem}
use adaptive_ai_inference_ru.WorkloadAware.{QueueEntry, Lanes, tally_queue, tally}
use adaptive_ai_inference_ru.WorkloadAware.Select.{prune_queue, prune_models}
use adaptive_ai_inference_ru.WorkloadAware.Lanes.{tally-put_lane}
use adaptive_ai_inference_ru.WorkloadAware.Calls.{prune_queue_keeps, prune_models_keeps}

-- The entries of one request, and all entries.
abbrev pub one : Ref → Ref → ℕ
one j r = if r == j then 1 else 0

abbrev pub any : Ref → ℕ
any r = 1

-- Sums over some entries, as a function of the summand.
abbrev pub Sums : Type 0
Sums = (Ref → ℕ) → ℕ

-- From `n` and `h` to `n'` and `h'`: entries of ended requests are gone, and the count is less by as
-- many.
abbrev pub Loses : Store → ℕ → Sums → ℕ → Sums → Type 0
Loses st n h n' h' =
    (h' any ≤ h any)
    × (h any ≤ n → n + h' any ≡ n' + h any)
    × ((j : Ref) → IsEnded (st.requests j) ⊎ (h (one j) ≡ h' (one j)))

abbrev pub of_queue : List QueueEntry → Sums
of_queue q f = tally_queue f q

abbrev pub of_lanes : Lanes → Sums
of_lanes lanes f = tally f lanes

pub Loses-refl : (st : Store) (n : ℕ) (h : Sums) → Loses st n h n h
Loses-refl st n h = (omega arith, λ b. refl, λ j. inr refl)

pub one_ne : (j r : Ref) → j ≢ r → one j r ≡ 0
one_ne j r h = ground arith

pub drop_one :
    (st : Store) (n : ℕ) (e : QueueEntry) (q : List QueueEntry) (n' : ℕ) (h' : Sums)
    → IsEnded (st.requests e.request)
    → Loses st (n - 1) (of_queue q) n' h'
    → Loses st n (of_queue (e ∷ q)) n' h'
unfolding tally_queue
drop_one st n e q n' h' ended (less, size, live) = (
  omega arith,
  λ b. omega (arith, size (omega arith)),
  λ j. elim (ℕ_discrete j e.request) [
    | yes same ↦ inl (subst (λ i. IsEnded (st.requests i)) (sym same) ended)
    | no other ↦ elim (live j) [
      | inl t ↦ inl t
      | inr s ↦ inr (omega (arith, one_ne j e.request other))
    ]
  ],
)

pub keep_one :
    (st : Store) (n : ℕ) (e : QueueEntry) (q : List QueueEntry) (n' : ℕ) (q' : List QueueEntry)
    → Loses st n (of_queue q) n' (of_queue q')
    → Loses st n (of_queue (e ∷ q)) n' (of_queue (e ∷ q'))
unfolding tally_queue
keep_one st n e q n' q' (less, size, live) = (
  omega arith,
  λ b. omega (arith, size (omega arith)),
  λ j. elim (live j) [ inl t ↦ inl t | inr s ↦ inr (omega arith) ],
)

pub ended_later :
    (st st' : Store) (h h' : Sums)
    → Advances st st'
    → ((j : Ref) → IsEnded (st.requests j) ⊎ (h (one j) ≡ h' (one j)))
    → (j : Ref) → IsEnded (st'.requests j) ⊎ (h (one j) ≡ h' (one j))
ended_later st st' h h' a live j = elim (live j) [ inl t ↦ inl ((a j).0 t) | inr s ↦ inr s ]

Loses-sum :
    (st st' : Store) (n n1 n2 : ℕ) (h h' k k' : Sums)
    → Advances st st'
    → Loses st n h n1 h'
    → Loses st' n1 k n2 k'
    → Loses st' n (λ f. h f + k f) n2 (λ f. h' f + k' f)
Loses-sum st st' n n1 n2 h h' k k' a (less1, size1, live1) (less2, size2, live2) = (
  omega arith,
  λ b. omega (arith, size1 (omega arith), size2 (omega (arith, size1 (omega arith)))),
  λ j. elim (ended_later st st' h h' a live1 j) [
    | inl t ↦ inl t
    | inr s ↦ elim (live2 j) [ inl t ↦ inl t | inr s' ↦ inr (omega arith) ]
  ],
)

pub Loses-trans :
    (st st' : Store) (n n1 n2 : ℕ) (h h1 h2 : Sums)
    → Advances st st'
    → Loses st n h n1 h1
    → Loses st' n1 h1 n2 h2
    → Loses st' n h n2 h2
Loses-trans st st' n n1 n2 h h1 h2 a (less1, size1, live1) (less2, size2, live2) = (
  omega arith,
  λ b. omega (arith, size1 b, size2 (omega (arith, size1 b))),
  λ j. elim (ended_later st st' h h1 a live1 j) [
    | inl t ↦ inl t
    | inr s ↦ elim (live2 j) [ inl t ↦ inl t | inr s' ↦ inr (s ∙ s') ]
  ],
)

module _ (moments : ℕ → Moment) (quiet : AreQuiet moments) where
  pub since :
      (st : Store) (r : Ref) (w : World)
      → Advances st w.store
      → Advances st (check_dead moments (some r) w).1.store
  since st r w a =
      Advances-trans st w.store (check_dead moments (some r) w).1.store a
        (check_dead-Advances moments quiet (some r) w)

  abbrev pub Since : Store → World → Type 0
  Since st w = Advances st w.store

  pub prune_queue-Loses :
      (q : List QueueEntry) (n : ℕ) (w : World)
      → (let (q', n', w') = prune_queue moments q n w in
          Loses w'.store n (of_queue q) n' (of_queue q'))
  unfolding prune_queue
  prune_queue-Loses [] n w = Loses-refl w.store n (of_queue [])
  prune_queue-Loses (e ∷ q) n w =
      let w1 = (check_dead moments (some e.request) w).1 in
      let Goal = λ (o : List QueueEntry × ℕ × World).
        Loses o.2.store n (of_queue (e ∷ q)) o.1 (of_queue o.0) in
      let Rest = λ (b : ℕ). prune_queue moments q b w1 in
      elim (Bool-cases (check_dead moments (some e.request) w).0) [
        | inl d ↦ rw d (
            drop_one (Rest (n - 1)).2.store n e q (Rest (n - 1)).1 (of_queue (Rest (n - 1)).0)
              ((prune_queue_keeps moments (Since w1.store) (since w1.store) q (n - 1) w1
                  (Advances-refl w1.store) e.request).0
                (sym (check_dead_lem moments quiet e.request w) ∙ d))
              (prune_queue-Loses q (n - 1) w1))
        | inr d ↦
            rw d (keep_one (Rest n).2.store n e q (Rest n).1 (Rest n).0 (prune_queue-Loses q n w1))
      ]

  pub prune_models-Loses :
      (lanes : Lanes) (n : ℕ) (w : World)
      → (let (lanes', n', w') = prune_models moments lanes n w in
          Loses w'.store n (of_lanes lanes) n' (of_lanes lanes'))
  unfolding prune_models tally
  prune_models-Loses [] n w = Loses-refl w.store n (of_lanes [])
  prune_models-Loses ((m, q) ∷ lanes) n w =
      let (q', n1, w1) = prune_queue moments q n w in
      let (lanes', n2, w2) = prune_models moments lanes n1 w1 in
      let a =
        prune_models_keeps moments (Since w1.store) (since w1.store) lanes n1 w1
          (Advances-refl w1.store) in
      let (less, size, live) =
        Loses-sum w1.store w2.store n n1 n2 (of_queue q) (of_queue q') (of_lanes lanes)
          (of_lanes lanes') a (prune_queue-Loses q n w) (prune_models-Loses lanes n1 w1) in
      let eq = λ (f : Ref → ℕ). tally-put_lane f m q' lanes' in
      (
        omega (arith, eq any),
        λ b. omega (arith, eq any, size b),
        λ j. elim (live j) [ inl t ↦ inl t | inr s ↦ inr (s ∙ sym (eq (one j))) ],
      )

-- ===== src/Scheduler/Fifo.antt =====
-- The first-in first-out scheduler hands out the first live request, and skips only dead ones.
use mathlib.Core.Bool.{false≢true}
use native.Mathlib.Decide.{ℕ_discrete}
use adaptive_ai_inference_ru.Prelude.{
  ℕ, suc, ◌<◌, ◌≡◌, refl, sym, ap, subst, All-mono, ◌∙◌, ◌⊎◌, inl, inr, true, false, none, some,
  List, [], ◌∷◌, ◌++◌, All, Bool-cases, arith, length,
}
use adaptive_ai_inference_ru.Request.{is_terminal}
use adaptive_ai_inference_ru.Store.{RequestPtr, Store, is_dead_request}
use adaptive_ai_inference_ru.Store.Dead.{
  is_dead_request-Checked, IsPast, dead_why, live_why, check_effect,
}
use adaptive_ai_inference_ru.Scheduler.{
  Next, item, finished, waiting, FifoScheduler, next_from, fifo_next,
}

-- A null pointer, or a request that is terminal.
abbrev pub IsTerminalAt : Store → RequestPtr → Type 0
IsTerminalAt st none = Unit
IsTerminalAt st (some r) = is_terminal (st.requests r) ≡ true

-- In the store `st` the request is neither terminal nor past its deadline, and it is the same in `st'`.
abbrev pub IsLiveAt : ℕ → Store → Store → RequestPtr → Type 0
IsLiveAt now st st' none = ⊥
IsLiveAt now st st' (some r) =
    (is_terminal (st.requests r) ≡ false)
    × (¬ (IsPast now (st.requests r)))
    × (st'.requests r ≡ st.requests r)

-- A null pointer, or a request that is terminal in the store or past its deadline at one of the first
-- `n` readings of the clock.
abbrev pub IsDeadAt : (ℕ → ℕ) → ℕ → Store → RequestPtr → Type 0
IsDeadAt clock n st none = Unit
IsDeadAt clock n st (some r) =
    (is_terminal (st.requests r) ≡ true) ⊎ ((i : ℕ) × (i < n) × IsPast (clock i) (st.requests r))

stays-terminal :
    (now : ℕ) (p x : RequestPtr) (st : Store)
    → IsTerminalAt st x
    → IsTerminalAt (is_dead_request now p st).1 x
stays-terminal now none x st t = unfold is_dead_request in t
stays-terminal now (some r) none st t = tt
stays-terminal now (some r) (some j) st t =
    let (a, b, c, d) = is_dead_request-Checked now r st in
    elim (ℕ_discrete j r) [ yes p ↦ rw p (b ∙ a ∙ ground arith) | no n ↦ rw (d j n) t ]

dead_terminal :
    (now : ℕ) (p : RequestPtr) (st : Store)
    → (is_dead_request now p st).0 ≡ true
    → IsTerminalAt (is_dead_request now p st).1 p
dead_terminal now none st h = tt
dead_terminal now (some r) st h = let (a, b, c, d) = is_dead_request-Checked now r st in b ∙ h

live_kept :
    (now : ℕ) (p : RequestPtr) (st : Store)
    → (is_dead_request now p st).0 ≡ false
    → IsLiveAt now st (is_dead_request now p st).1 p
unfolding is_dead_request
live_kept now none st h = absurd (false≢true (sym h))
live_kept now (some r) st h = live_why now r st h

dead_first :
    (clock : ℕ → ℕ) (n : ℕ) (p : RequestPtr) (st : Store)
    → (is_dead_request (clock 0) p st).0 ≡ true
    → IsDeadAt clock (suc n) st p
dead_first clock n none st h = tt
dead_first clock n (some r) st h = elim (dead_why (clock 0) r st h) [
  | inl t ↦ inl t
  | inr past ↦ inr (0, omega arith, past)
]

-- What is dead after the first check was dead before it, or the check saw it so.
dead_later :
    (clock : ℕ → ℕ) (n : ℕ) (p : RequestPtr) (st : Store) (x : RequestPtr)
    → IsDeadAt (λ i. clock (suc i)) n (is_dead_request (clock 0) p st).1 x
    → IsDeadAt clock (suc n) st x
dead_later clock n p st none h = tt
dead_later clock n p st (some r) h = elim (check_effect (clock 0) p r st) [
  | inr (inl t, _) ↦ inl t
  | inr (inr past, _) ↦ inr (0, omega arith, past)
  | inl e ↦ elim h [
    | inl t ↦ inl (ap is_terminal (sym e) ∙ t)
    | inr (i, lt, past) ↦ inr (suc i, omega arith, subst (IsPast (clock (suc i))) e past)
  ]
]

-- What is live after the first check was so before it.
live_before :
    (clock : ℕ → ℕ) (now : ℕ) (p : RequestPtr) (st st' : Store) (x : RequestPtr)
    → IsLiveAt now (is_dead_request (clock 0) p st).1 st' x
    → IsLiveAt now st st' x
live_before clock now p st st' none h = h
live_before clock now p st st' (some r) (l, k, e) = elim (check_effect (clock 0) p r st) [
  | inr (_, t) ↦ absurd (false≢true (sym l ∙ t))
  | inl same ↦
      (ap is_terminal (sym same) ∙ l, λ past. k (subst (IsPast now) (sym same) past), e ∙ same)
]

next_from-skip :
    (clock : ℕ → ℕ) (ps : List RequestPtr) (p : RequestPtr) (st : Store) (q : FifoScheduler)
    → (is_dead_request (clock 0) p st).0 ≡ true
    → next_from clock (p ∷ ps) st q
      ≡ next_from (λ i. clock (suc i)) ps (is_dead_request (clock 0) p st).1 q
unfolding next_from
next_from-skip clock ps p st q d = rw (d, next_from) refl

next_from-item :
    (clock : ℕ → ℕ) (ps : List RequestPtr) (p : RequestPtr) (st : Store) (q : FifoScheduler)
    → (is_dead_request (clock 0) p st).0 ≡ false
    → next_from clock (p ∷ ps) st q
      ≡ (item p, (is_dead_request (clock 0) p st).1, record q { queue = ps })
unfolding next_from
next_from-item clock ps p st q d = rw (d, next_from) refl

next_from-stays :
    (clock : ℕ → ℕ) (ps : List RequestPtr) (x : RequestPtr) (st : Store) (q : FifoScheduler)
    → IsTerminalAt st x
    → IsTerminalAt (next_from clock ps st q).1 x
unfolding next_from
next_from-stays clock [] x st q t = t
next_from-stays clock (p ∷ ps) x st q t =
    let s = stays-terminal (clock 0) p x st t in
    let rest = next_from-stays (λ i. clock (suc i)) ps x (is_dead_request (clock 0) p st).1 q s in
    elim (Bool-cases (is_dead_request (clock 0) p st).0) [
      | inl d ↦ rw (next_from-skip clock ps p st q d) rest
      | inr l ↦ rw (next_from-item clock ps p st q l) s
    ]

-- What `next` comes to on the values `ps`, from the store `st`: it skipped `dead`, each of them dead
-- when the call began or by a deadline that came during it, and terminal by then; and it hands out
-- the live request behind them, as it was, leaving the rest; or it skipped all of them, and ends or
-- waits as the queue is closed or open.
abbrev pub Nexts :
    (ℕ → ℕ) → List RequestPtr → Store → FifoScheduler → Next × Store × FifoScheduler → Type 0
Nexts clock ps st q (n, st', q') =
    ((dead : List RequestPtr) × (p : RequestPtr) × (ps ≡ dead ++ (p ∷ q'.queue))
      × (n ≡ item p)
      × All (IsTerminalAt st') dead
      × All (IsDeadAt clock (length dead) st) dead
      × IsLiveAt (clock (length dead)) st st' p
      × (q' ≡ record q { queue = q'.queue }))
    ⊎ (((q.closed ≡ true) × (n ≡ finished) ⊎ (q.closed ≡ false) × (n ≡ waiting))
        × All (IsTerminalAt st') ps
        × All (IsDeadAt clock (length ps) st) ps
        × (q' ≡ record q { queue = [] }))

-- One more dead value in front.
skip_Nexts :
    (clock : ℕ → ℕ) (p : RequestPtr) (ps : List RequestPtr) (st : Store) (q : FifoScheduler)
    (o : Next × Store × FifoScheduler)
    → IsTerminalAt o.1 p
    → (is_dead_request (clock 0) p st).0 ≡ true
    → Nexts (λ i. clock (suc i)) ps (is_dead_request (clock 0) p st).1 q o
    → Nexts clock (p ∷ ps) st q o
skip_Nexts clock p ps st q o t found (inl (dead, x, e, n, a, d, l, same)) = inl (
  p ∷ dead,
  x,
  cc,
  n,
  (t, a),
  (
    dead_first clock (length dead) p st found,
    All-mono dead (λ y. dead_later clock (length dead) p st y) d,
  ),
  live_before clock (clock (suc (length dead))) p st o.1 x l,
  same,
)
skip_Nexts clock p ps st q o t found (inr (n, a, d, same)) = inr (
  n,
  (t, a),
  (
    dead_first clock (length ps) p st found,
    All-mono ps (λ y. dead_later clock (length ps) p st y) d,
  ),
  same,
)

next_from-Nexts :
    (clock : ℕ → ℕ) (ps : List RequestPtr) (st : Store) (q : FifoScheduler)
    → Nexts clock ps st q (next_from clock ps st q)
unfolding next_from
next_from-Nexts clock [] st q = inr (
  (elim (Bool-cases q.closed) [ inl c ↦ inl (c, rw c refl) | inr o ↦ inr (o, rw o refl) ]),
  tt,
  tt,
  refl,
)
next_from-Nexts clock (p ∷ ps) st q =
    let st' = (is_dead_request (clock 0) p st).1 in
    let rest = next_from-Nexts (λ i. clock (suc i)) ps st' q in
    elim (Bool-cases (is_dead_request (clock 0) p st).0) [
      | inl d ↦
          let t =
            next_from-stays (λ i. clock (suc i)) ps p st' q (dead_terminal (clock 0) p st d) in
          subst (Nexts clock (p ∷ ps) st q) (sym (next_from-skip clock ps p st q d))
            (skip_Nexts clock p ps st q (next_from (λ i. clock (suc i)) ps st' q) t d rest)
      | inr l ↦
          rw (next_from-item clock ps p st q l)
            (inl ([], p, refl, refl, tt, tt, live_kept (clock 0) p st l, refl))
    ]

-- `next` hands out the first request of the queue that is live, as it was when the call began, and
-- leaves those behind it. All that it skips is null, terminal or past its deadline by a reading of
-- the clock, and terminal afterwards. With no live request it empties the queue, and ends if the
-- queue is closed and waits if it is open.
pub fifo_next-Nexts :
    (clock : ℕ → ℕ) (st : Store) (q : FifoScheduler)
    → Nexts clock q.queue st q (fifo_next clock st q)
unfolding fifo_next
fifo_next-Nexts clock st q = next_from-Nexts clock q.queue st q

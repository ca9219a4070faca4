-- ===== src/WorkloadAware/Starvation.antt =====
-- The scan for starved entries: which entry `choose_entry` puts first.
use adaptive_ai_inference_ru.Prelude.{
  ℕ, suc, ◌+◌, ◌≤◌, ◌<◌, ◌≡◌, refl, sym, ap, ◌∙◌, ◌⊎◌, inl, inr, true, false, ◌&&◌, Option, none,
  some, List, [], ◌∷◌, All, All-mono, get_elem?, ltb, leb, arith, if_cases,
}
use adaptive_ai_inference_ru.Prelude.Bytes.{Bytes}
use adaptive_ai_inference_ru.Prelude.Assoc.{lookup}
use adaptive_ai_inference_ru.Store.{Store}
use adaptive_ai_inference_ru.World.{Moment, World, check_dead}
use adaptive_ai_inference_ru.World.Later.{IsEnded, Advances, AreQuiet, Advances-refl}
use adaptive_ai_inference_ru.World.Dead.{check_dead_lem}
use adaptive_ai_inference_ru.WorkloadAware.{QueueEntry, Lanes}
use adaptive_ai_inference_ru.WorkloadAware.Select.{
  Choice, Starved, max_u64, first_of, starved_entry, each_model, each_live, starved_queue,
  best_group, unless_starved, choose_entry,
}
use adaptive_ai_inference_ru.WorkloadAware.Lanes.{Distinct, AreFound, Distinct-AreFound}
use adaptive_ai_inference_ru.WorkloadAware.Calls.{
  each_live_keeps, each_model_keeps, starved_queue_keeps, unless_starved_keeps,
}
use adaptive_ai_inference_ru.WorkloadAware.Losses.{Since, since}

-- An entry that does not come before the sequence number `n`: its request has ended, it has not been
-- passed over often enough, or it is not older.
abbrev pub IsBehind : ℕ → ℕ → Store → QueueEntry → Type 0
IsBehind limit n st x =
    IsEnded (st.requests x.request) ⊎ (x.bypass_count < limit) ⊎ (n ≤ x.enqueue_sequence)

abbrev pub AreBehind : ℕ → ℕ → Store → Lanes → Type 0
AreBehind limit n st lanes = All (λ l. All (IsBehind limit n st) l.1) lanes

-- A starved choice stands for an entry with the sequence number `n` that has been passed over often
-- enough. Any other choice is made only if `n` is the bound of the scan.
abbrev pub IsFirst : Lanes → ℕ → ℕ → Option Choice → Type 0
IsFirst lanes limit n none = n ≡ max_u64
IsFirst lanes limit n (some c) =
    ((c.starvation ≡ false) × (n ≡ max_u64))
    ⊎ ((q : List QueueEntry) × (e : QueueEntry) × (lookup c.model lanes ≡ some q)
        × (get_elem? q c.index ≡ some e)
        × (e.enqueue_sequence ≡ n)
        × (limit ≤ e.bypass_count))

IsBehind-later :
    (limit n n' : ℕ) (st st' : Store) (x : QueueEntry)
    → Advances st st'
    → n' ≤ n
    → IsBehind limit n st x
    → IsBehind limit n' st' x
IsBehind-later limit n n' st st' x a less (inl t) = inl ((a x.request).0 t)
IsBehind-later limit n n' st st' x a less (inr (inl b)) = inr (inl b)
IsBehind-later limit n n' st st' x a less (inr (inr c)) = inr (inr (omega arith))

queue_later :
    (limit n n' : ℕ) (st st' : Store) (q : List QueueEntry)
    → Advances st st'
    → n' ≤ n
    → All (IsBehind limit n st) q
    → All (IsBehind limit n' st') q
queue_later limit n n' st st' q a less h =
    All-mono q (λ x b. IsBehind-later limit n n' st st' x a less b) h

AreBehind-later :
    (limit n n' : ℕ) (st st' : Store) (lanes : Lanes)
    → Advances st st'
    → n' ≤ n
    → AreBehind limit n st lanes
    → AreBehind limit n' st' lanes
AreBehind-later limit n n' st st' lanes a less h =
    All-mono lanes (λ l b. queue_later limit n n' st st' l.1 a less b) h

-- One entry of the scan.
starved_entry_lem :
    (lanes : Lanes) (limit : ℕ) (m : Bytes) (q : List QueueEntry) (i : ℕ) (x : QueueEntry)
    (best : Starved)
    → lookup m lanes ≡ some q
    → get_elem? q i ≡ some x
    → IsFirst lanes limit best.seq best.chosen
    → (let b = starved_entry limit m i x best in
        (b.seq ≤ best.seq)
        × ((x.bypass_count < limit) ⊎ (b.seq ≤ x.enqueue_sequence))
        × IsFirst lanes limit b.seq b.chosen)
unfolding starved_entry
starved_entry_lem lanes limit m q i x best found at h =
    let Goal = λ (b : Starved).
      (b.seq ≤ best.seq)
      × ((x.bypass_count < limit) ⊎ (b.seq ≤ x.enqueue_sequence))
      × IsFirst lanes limit b.seq b.chosen in
    let here : Starved = record {
      seq = x.enqueue_sequence;
      chosen = some (record { model = m; index = i; starvation = true });
    } in
    if_cases Goal (leb limit x.bypass_count && ltb x.enqueue_sequence best.seq) here best
      (λ t. (ground arith, inr (omega arith), inr (q, x, found, at, refl, ground arith)))
      (λ f. (omega arith, ground arith, h))

first_of-IsFirst :
    (lanes : Lanes) (limit n : ℕ) (o : Option Bytes)
    → n ≡ max_u64
    → IsFirst lanes limit n (first_of o)
first_of-IsFirst lanes limit n none h = h
first_of-IsFirst lanes limit n (some m) h = inl (refl, h)

from_zero : (q : List QueueEntry) (k : ℕ) → get_elem? q (0 + k) ≡ get_elem? q k
from_zero q k = let same : 0 + k ≡ k = omega arith in ap (λ j. get_elem? q j) same

at_zero :
    (q : List QueueEntry) (i : ℕ) (es : List QueueEntry) (x : QueueEntry)
    → get_elem? q (i + 0) ≡ get_elem? (x ∷ es) 0
    → get_elem? q i ≡ some x
at_zero q i es x h = let same : i + 0 ≡ i = omega arith in ap (λ k. get_elem? q k) (sym same) ∙ h

shifted :
    (q : List QueueEntry) (i k : ℕ) (es : List QueueEntry) (x : QueueEntry)
    → get_elem? q (i + suc k) ≡ get_elem? (x ∷ es) (suc k)
    → get_elem? q (suc i + k) ≡ get_elem? es k
shifted q i k es x h =
    let same : i + suc k ≡ suc i + k = omega arith in ap (λ j. get_elem? q j) (sym same) ∙ h

module _ (moments : ℕ → Moment) (quiet : AreQuiet moments) where
  -- The scan of a queue, from the position `i` on.
  live_lem :
      (lanes : Lanes) (limit : ℕ) (m : Bytes) (q : List QueueEntry) (i : ℕ) (es : List QueueEntry)
      (best : Starved) (w : World)
      → lookup m lanes ≡ some q
      → ((k : ℕ) → get_elem? q (i + k) ≡ get_elem? es k)
      → IsFirst lanes limit best.seq best.chosen
      → (let (b, w') = each_live moments (starved_entry limit m) i es best w in
          (b.seq ≤ best.seq)
          × All (IsBehind limit b.seq w'.store) es
          × IsFirst lanes limit b.seq b.chosen)
  unfolding each_live
  live_lem lanes limit m q i [] best w found at h = (omega arith, tt, h)
  live_lem lanes limit m q i (x ∷ es) best w found at h =
      let w1 = (check_dead moments (some x.request) w).1 in
      let later = λ (best1 : Starved).
        each_live_keeps moments (Since moments quiet w1.store) (since moments quiet w1.store)
          (starved_entry limit m) (suc i) es best1 w1 (Advances-refl w1.store) in
      let next_at = λ (k : ℕ). shifted q i k es x (at (suc k)) in
      let b1 = starved_entry limit m i x best in
      let Goal = λ (a : Starved).
        (let (b, w') = each_live moments (starved_entry limit m) (suc i) es a w1 in
          (b.seq ≤ best.seq)
          × All (IsBehind limit b.seq w'.store) (x ∷ es)
          × IsFirst lanes limit b.seq b.chosen) in
      if_cases Goal (check_dead moments (some x.request) w).0 best b1
        (λ d.
          let (less, all, first) = live_lem lanes limit m q (suc i) es best w1 found next_at h in
          (
            less,
            (
              inl ((later best x.request).0 (sym (check_dead_lem moments quiet x.request w) ∙ d)),
              all,
            ),
            first,
          ))
        (λ f.
          let (less1, here, h1) =
            starved_entry_lem lanes limit m q i x best found (at_zero q i es x (at 0)) h in
          let (less, all, first) = live_lem lanes limit m q (suc i) es b1 w1 found next_at h1 in
          (
            omega arith,
            (elim here [ inl s ↦ inr (inl s) | inr s ↦ inr (inr (omega arith)) ], all),
            first,
          ))

  models_lem :
      (lanes : Lanes) (limit : ℕ) (rest : Lanes) (best : Starved) (w : World)
      → AreFound lanes rest
      → IsFirst lanes limit best.seq best.chosen
      → (let (b, w') = each_model (starved_queue moments limit) rest best w in
          (b.seq ≤ best.seq)
          × AreBehind limit b.seq w'.store rest
          × IsFirst lanes limit b.seq b.chosen)
  unfolding each_model starved_queue
  models_lem lanes limit [] best w found h = (omega arith, tt, h)
  models_lem lanes limit ((m, q) ∷ rest) best w found h =
      let (b1, w1) = starved_queue moments limit m q best w in
      let (b2, w2) = each_model (starved_queue moments limit) rest b1 w1 in
      let (less1, all1, h1) = live_lem lanes limit m q 0 q best w found.0 (λ k. from_zero q k) h in
      let (less2, all2, h2) = models_lem lanes limit rest b1 w1 found.1 h1 in
      let a =
        each_model_keeps moments (Since moments quiet w1.store) (since moments quiet w1.store)
          (starved_queue moments limit) rest b1 w1
          (starved_queue_keeps moments (Since moments quiet w1.store) (since moments quiet w1.store)
            limit)
          (Advances-refl w1.store) in
      (omega arith, (queue_later limit b1.seq b2.seq w1.store w2.store q a less2 all1, all2), h2)

  unless_starved-IsFirst :
      (lanes : Lanes) (limit n : ℕ) (c : Option Choice) (w : World)
      → IsFirst lanes limit n c
      → IsFirst lanes limit n (unless_starved moments lanes c w).0
  unfolding unless_starved best_group
  unless_starved-IsFirst lanes limit n none w h = first_of-IsFirst lanes limit n _ h
  unless_starved-IsFirst lanes limit n (some c) w h = h

  -- For some sequence number, every entry is behind it: its request has ended, it has been passed
  -- over less often than the limit, or it is not older. And the choice is a starved entry with that
  -- number, unless the number is the largest there is. The other threads may do to a request what
  -- its methods allow after admission.
  pub choose_entry-IsFirst :
      (lanes : Lanes) (limit : ℕ) (w : World)
      → Distinct lanes
      → (let (c, w') = choose_entry moments limit lanes w in
          (n : ℕ) × AreBehind limit n w'.store lanes × IsFirst lanes limit n c)
  unfolding choose_entry
  choose_entry-IsFirst lanes limit w distinct =
      let start : Starved = record { seq = max_u64; chosen = none } in
      let (b, w1) = each_model (starved_queue moments limit) lanes start w in
      let (less, all, h) =
        models_lem lanes limit lanes start w (Distinct-AreFound lanes distinct) refl in
      let (c, w2) = unless_starved moments lanes b.chosen w1 in
      let a =
        unless_starved_keeps moments (Since moments quiet w1.store) (since moments quiet w1.store)
          lanes b.chosen w1 (Advances-refl w1.store) in
      (
        b.seq,
        AreBehind-later limit b.seq b.seq w1.store w2.store lanes a (omega arith) all,
        unless_starved-IsFirst lanes limit b.seq b.chosen w1 h,
      )

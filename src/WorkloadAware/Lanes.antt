-- ===== src/WorkloadAware/Lanes.antt =====
-- The queues by model: sums over their entries, and that no model has two queues.
use adaptive_ai_inference_ru.Prelude.{
  ℕ, zero, suc, ◌+◌, ◌≡◌, refl, false, some, List, [], ◌∷◌, ◌++◌, All, get_elem?, arith, if_cases,
}
use adaptive_ai_inference_ru.Prelude.Bytes.{Bytes, bytes_eq, bytes_eq_refl}
use adaptive_ai_inference_ru.Prelude.Assoc.{lookup, insert}
use adaptive_ai_inference_ru.Store.{Ref}
use adaptive_ai_inference_ru.WorkloadAware.{
  QueueEntry, Lanes, entries_of, push_entry, erase, store_queue, tally_queue, tally,
}
use adaptive_ai_inference_ru.WorkloadAware.Select.{put_lane, remove_at}

pub tally_queue-append :
    (f : Ref → ℕ) (q : List QueueEntry) (e : QueueEntry)
    → tally_queue f (q ++ e ∷ []) ≡ tally_queue f q + f e.request
unfolding tally_queue
tally_queue-append f [] e = omega arith
tally_queue-append f (x ∷ q) e = omega (arith, tally_queue-append f q e)

pub tally-put_lane :
    (f : Ref → ℕ) (m : Bytes) (q : List QueueEntry) (lanes : Lanes)
    → tally f (put_lane m q lanes) ≡ tally_queue f q + tally f lanes
unfolding tally tally_queue
tally-put_lane f m [] lanes = omega arith
tally-put_lane f m (e ∷ q) lanes = refl

tally-insert :
    (f : Ref → ℕ) (m : Bytes) (q : List QueueEntry) (lanes : Lanes)
    → tally f (insert m q lanes) + tally_queue f (entries_of (lookup m lanes))
      ≡ tally f lanes + tally_queue f q
unfolding tally tally_queue insert lookup
tally-insert f m q [] = omega arith
tally-insert f m q ((k, p) ∷ lanes) = ground (arith, tally-insert f m q lanes)

pub tally-erase :
    (f : Ref → ℕ) (m : Bytes) (lanes : Lanes)
    → tally f (erase m lanes) + tally_queue f (entries_of (lookup m lanes)) ≡ tally f lanes
unfolding tally tally_queue erase lookup
tally-erase f m [] = omega arith
tally-erase f m ((k, p) ∷ lanes) = ground (arith, tally-erase f m lanes)

-- A queue that is put back in place of the one that was found.
pub tally-store_queue :
    (f : Ref → ℕ) (m : Bytes) (q : List QueueEntry) (lanes : Lanes)
    → tally f (store_queue m q lanes) + tally_queue f (entries_of (lookup m lanes))
      ≡ tally f lanes + tally_queue f q
unfolding store_queue
tally-store_queue f m [] lanes = unfold tally_queue in omega (arith, tally-erase f m lanes)
tally-store_queue f m (e ∷ q) lanes = tally-insert f m (e ∷ q) lanes

pub tally-push_entry :
    (f : Ref → ℕ) (m : Bytes) (e : QueueEntry) (lanes : Lanes)
    → tally f (push_entry m e lanes) ≡ tally f lanes + f e.request
unfolding push_entry
tally-push_entry f m e lanes =
    let q = entries_of (lookup m lanes) in
    omega (arith, tally-insert f m (q ++ e ∷ []) lanes, tally_queue-append f q e)

pub tally-remove_at :
    (f : Ref → ℕ) (i : ℕ) (q : List QueueEntry) (e : QueueEntry)
    → get_elem? q i ≡ some e
    → tally_queue f (remove_at i q) + f e.request ≡ tally_queue f q
unfolding tally_queue remove_at
tally-remove_at f i [] e h = ground arith
tally-remove_at f zero (x ∷ q) e h = ground arith
tally-remove_at f (suc i) (x ∷ q) e h = omega (arith, tally-remove_at f i q e h)

-- No queue of that model.
abbrev pub IsFresh : Bytes → Lanes → Type 0
IsFresh m lanes = All (λ l. bytes_eq m l.0 ≡ false) lanes

unfoldable pub Distinct : Lanes → Type 0
Distinct [] = Unit
Distinct ((m, q) ∷ lanes) = IsFresh m lanes × Distinct lanes

pub put_lane-IsFresh :
    (k m : Bytes) (q : List QueueEntry) (lanes : Lanes)
    → bytes_eq k m ≡ false
    → IsFresh k lanes
    → IsFresh k (put_lane m q lanes)
put_lane-IsFresh k m [] lanes d h = h
put_lane-IsFresh k m (e ∷ q) lanes d h = (d, h)

pub put_lane-Distinct :
    (m : Bytes) (q : List QueueEntry) (lanes : Lanes)
    → IsFresh m lanes
    → Distinct lanes
    → Distinct (put_lane m q lanes)
unfolding Distinct
put_lane-Distinct m [] lanes d h = h
put_lane-Distinct m (e ∷ q) lanes d h = (d, h)

insert-IsFresh :
    (k m : Bytes) (q : List QueueEntry) (lanes : Lanes)
    → bytes_eq k m ≡ false
    → IsFresh k lanes
    → IsFresh k (insert m q lanes)
unfolding insert
insert-IsFresh k m q [] d h = (d, tt)
insert-IsFresh k m q ((j, p) ∷ lanes) d h =
    if_cases (IsFresh k) (bytes_eq j m) _ _ (λ t. h) (λ f. (h.0, insert-IsFresh k m q lanes d h.1))

pub insert-Distinct :
    (m : Bytes) (q : List QueueEntry) (lanes : Lanes) → Distinct lanes → Distinct (insert m q lanes)
unfolding insert Distinct
insert-Distinct m q [] h = (tt, tt)
insert-Distinct m q ((j, p) ∷ lanes) h =
    if_cases Distinct (bytes_eq j m) _ _ (λ t. h)
      (λ f. (insert-IsFresh j m q lanes f h.0, insert-Distinct m q lanes h.1))

pub push_entry-Distinct :
    (m : Bytes) (e : QueueEntry) (lanes : Lanes) → Distinct lanes → Distinct (push_entry m e lanes)
unfolding push_entry
push_entry-Distinct m e lanes h = insert-Distinct m _ lanes h

erase-IsFresh : (k m : Bytes) (lanes : Lanes) → IsFresh k lanes → IsFresh k (erase m lanes)
unfolding erase
erase-IsFresh k m [] h = tt
erase-IsFresh k m ((j, p) ∷ lanes) h =
    if_cases (IsFresh k) (bytes_eq j m) _ _ (λ t. h.1) (λ f. (h.0, erase-IsFresh k m lanes h.1))

erase-Distinct : (m : Bytes) (lanes : Lanes) → Distinct lanes → Distinct (erase m lanes)
unfolding erase Distinct
erase-Distinct m [] h = tt
erase-Distinct m ((j, p) ∷ lanes) h =
    if_cases Distinct (bytes_eq j m) _ _ (λ t. h.1)
      (λ f. (erase-IsFresh j m lanes h.0, erase-Distinct m lanes h.1))

pub store_queue-Distinct :
    (m : Bytes) (q : List QueueEntry) (lanes : Lanes)
    → Distinct lanes
    → Distinct (store_queue m q lanes)
unfolding store_queue
store_queue-Distinct m [] lanes h = erase-Distinct m lanes h
store_queue-Distinct m (e ∷ q) lanes h = insert-Distinct m (e ∷ q) lanes h

abbrev pub AreFound : Lanes → Lanes → Type 0
AreFound lanes some_lanes = All (λ l. lookup l.0 lanes ≡ some l.1) some_lanes

found_later :
    (m : Bytes) (q : List QueueEntry) (lanes ks : Lanes)
    → IsFresh m ks
    → AreFound lanes ks
    → AreFound ((m, q) ∷ lanes) ks
unfolding lookup
found_later m q lanes [] d h = tt
found_later m q lanes ((k, p) ∷ ks) d h = (ground arith, found_later m q lanes ks d.1 h.1)

-- Each queue is the one that its model is mapped to.
pub Distinct-AreFound : (lanes : Lanes) → Distinct lanes → AreFound lanes lanes
unfolding Distinct lookup
Distinct-AreFound [] h = tt
Distinct-AreFound ((m, q) ∷ lanes) h =
    (ground (arith, bytes_eq_refl m), found_later m q lanes lanes h.0 (Distinct-AreFound lanes h.1))

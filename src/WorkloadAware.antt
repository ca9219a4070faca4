-- ===== src/WorkloadAware.antt =====
-- src/workload_aware_scheduler.cpp and include/airuntime/workload_aware_scheduler.hpp: the state of
-- the scheduler that groups requests by model, and the operations that hand out none. `by_model_` is
-- an association list in its order of iteration. An entry's request is never null: `enqueue`
-- refuses one.
pub mod Select
pub mod Lanes
pub mod Calls
pub mod Losses
pub mod Drops
pub mod Choices
pub mod Handed
pub mod Steps
pub mod Laws
pub mod Histories
pub mod Starvation
mod Tests
use adaptive_ai_inference_ru.Prelude.{
  ℕ, ◌+◌, Bool, true, false, Option, none, some, List, [], ◌∷◌, ◌++◌, if◌then◌else◌, ◌||◌, ltb, leb,
  ◌==◌, u64,
}
use adaptive_ai_inference_ru.Prelude.Bytes.{Bytes, bytes_eq}
use adaptive_ai_inference_ru.Prelude.Assoc.{lookup, insert}
use adaptive_ai_inference_ru.Status.{ErrorCode, Status, success, error}
use adaptive_ai_inference_ru.Store.{Ref, RequestPtr, Store}

pub record WorkloadAwareSchedulerMetrics : Type 0 where
  pub reordered_dispatches : ℕ
  pub starvation_promotions : ℕ

pub record QueueEntry : Type 0 where
  pub request : Ref
  pub enqueue_sequence : ℕ
  pub bypass_count : ℕ

abbrev pub Lanes : Type 0
Lanes = List (Bytes × List QueueEntry)

pub record WorkloadAwareScheduler : Type 0 where
  pub capacity : ℕ
  pub max_bypass : ℕ
  pub by_model : Lanes
  pub size : ℕ
  pub next_sequence : ℕ
  pub closed : Bool
  pub metrics : WorkloadAwareSchedulerMetrics

abbrev pub new : ℕ → ℕ → WorkloadAwareScheduler
new capacity max_bypass = record {
  capacity = capacity;
  max_bypass = max_bypass;
  by_model = [];
  size = 0;
  next_sequence = 0;
  closed = false;
  metrics = record { reordered_dispatches = 0; starvation_promotions = 0 };
}

-- `none`: the constructor throws.
unfoldable pub make : ℕ → ℕ → Option WorkloadAwareScheduler
make capacity max_bypass =
    if (capacity == 0) || (max_bypass == 0) then none else some (new capacity max_bypass)

abbrev pub entries_of : Option (List QueueEntry) → List QueueEntry
entries_of none = []
entries_of (some q) = q

-- `by_model_[model].push_back(entry)`
unfoldable pub push_entry : Bytes → QueueEntry → Lanes → Lanes
push_entry model e lanes = insert model (entries_of (lookup model lanes) ++ e ∷ []) lanes

unfoldable pub enqueue :
    RequestPtr → Store → WorkloadAwareScheduler → Status × WorkloadAwareScheduler
enqueue none st s = (error ErrorCode.internal_error "null request", s)
enqueue (some r) st s =
    let e : QueueEntry = record {
      request = r;
      enqueue_sequence = s.next_sequence;
      bypass_count = 0;
    } in
    if s.closed
    then (error ErrorCode.queue_closed "scheduler is closed", s)
    else if leb s.capacity s.size
    then (error ErrorCode.queue_full "scheduler is full", s)
    else (
      success,
      record s {
        next_sequence = u64 (s.next_sequence + 1);
        by_model = push_entry (st.requests r).model_id e s.by_model;
        size = u64 (s.size + 1);
      },
    )

unfoldable pub close : WorkloadAwareScheduler → WorkloadAwareScheduler
close s = record s { closed = true }

-- `erase` of a model's queue, and a queue that is put back, unless it is empty.
unfoldable pub erase : Bytes → Lanes → Lanes
erase model [] = []
erase model ((m, q) ∷ lanes) = if bytes_eq m model then lanes else (m, q) ∷ erase model lanes

unfoldable pub store_queue : Bytes → List QueueEntry → Lanes → Lanes
store_queue model [] lanes = erase model lanes
store_queue model (e ∷ q) lanes = insert model (e ∷ q) lanes

-- A sum over the entries, and how many there are.
unfoldable pub tally_queue : (Ref → ℕ) → List QueueEntry → ℕ
tally_queue f [] = 0
tally_queue f (e ∷ q) = f e.request + tally_queue f q

unfoldable pub tally : (Ref → ℕ) → Lanes → ℕ
tally f [] = 0
tally f ((m, q) ∷ lanes) = tally_queue f q + tally f lanes

abbrev pub entry_count : Lanes → ℕ
entry_count lanes = tally (λ r. 1) lanes

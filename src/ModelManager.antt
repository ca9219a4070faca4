-- ===== src/ModelManager.antt =====
-- src/model_manager.cpp: which models are loaded on a worker, within its memory budget.
-- Only the worker's own thread changes a manager (its mutex serves the readers of metrics), so a
-- call is a function of the manager and of the backend's state. The map of entries is a list in
-- its iteration order.
pub mod Evict
pub mod Ensure
pub mod Entries
pub mod Invariant
pub mod Eviction
pub mod Free
pub mod Loading
pub mod Residency
pub mod Behaviour
mod Tests
use adaptive_ai_inference_ru.Prelude.{
  ℕ, zero, suc, ◌+◌, Bool, true, false, Option, none, some, List, [], ◌∷◌, if◌then◌else◌, ltb,
  length, u64,
}
use adaptive_ai_inference_ru.Prelude.Bytes.{Bytes, bytes_lt}
use adaptive_ai_inference_ru.Prelude.Assoc.{lookup, insert}
use adaptive_ai_inference_ru.Prelude.Sort.{sort}
use adaptive_ai_inference_ru.Status.{Status}
use adaptive_ai_inference_ru.ResourceManager.{ResourceManager, make as make_resources}

pub data ModelState : Type 0 where
  unloaded loading resident evicting failed : ModelState

pub record Entry : Type 0 where
  pub state : ModelState
  pub estimated_memory_bytes : ℕ
  pub last_used : ℕ
  pub use_count : ℕ
  pub previously_loaded : Bool

pub record ResidencyMetrics : Type 0 where
  pub residency_hits : ℕ
  pub residency_misses : ℕ
  pub loads : ℕ
  pub unloads : ℕ
  pub evictions : ℕ
  pub reloads : ℕ

abbrev pub Entries : Type 0
Entries = List (Bytes × Entry)

pub record ModelManager : Type 0 where
  pub resources : ResourceManager
  pub entries : Entries
  pub touch_counter : ℕ
  pub metrics : ResidencyMetrics

unfoldable pub make : ℕ → ModelManager
make memory_budget_bytes = record {
  resources = make_resources memory_budget_bytes;
  entries = [];
  touch_counter = 0;
  metrics = record {
    residency_hits = 0;
    residency_misses = 0;
    loads = 0;
    unloads = 0;
    evictions = 0;
    reloads = 0;
  };
}

abbrev pub is_resident : ModelState → Bool
is_resident resident = true
is_resident _ = false

-- The entry that `entries_[id]` makes of a missing one.
abbrev pub entry_or_new : Option Entry → Entry
entry_or_new none = record {
  state = unloaded;
  estimated_memory_bytes = 0;
  last_used = 0;
  use_count = 0;
  previously_loaded = false;
}
entry_or_new (some e) = e

abbrev pub state_of : Option Entry → ModelState
state_of none = unloaded
state_of (some e) = e.state

unfoldable pub model_state : Bytes → ModelManager → ModelState
model_state id m = state_of (lookup id m.entries)

abbrev pub count_of : Option Entry → ℕ
count_of none = 0
count_of (some e) = e.use_count

unfoldable pub use_count : Bytes → ModelManager → ℕ
use_count id m = count_of (lookup id m.entries)

resident_ids : Entries → List Bytes
resident_ids [] = []
resident_ids ((id, e) ∷ es) = if is_resident e.state then id ∷ resident_ids es else resident_ids es

unfoldable pub resident_model_ids : ModelManager → List Bytes
unfolding resident_ids
resident_model_ids m = sort bytes_lt (resident_ids m.entries)

-- A manager with one entry written.
abbrev pub put : Bytes → Entry → ModelManager → ModelManager
put id e m = record m { entries = insert id e m.entries }

-- A call's status, and what it leaves of the manager and of the backend.
pub record Outcome (S : Type 0) : Type 0 where
  pub status : Status
  pub manager : ModelManager
  pub backend : S

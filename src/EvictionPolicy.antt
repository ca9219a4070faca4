-- ===== src/EvictionPolicy.antt =====
-- include/airuntime/eviction_policy.hpp and src/eviction_policy.cpp: in which order resident
-- models give way.
pub mod Order
mod Tests
use mathlib.Core.List.{Perm}
use adaptive_ai_inference_ru.Prelude.{
  ℕ, Bool, true, false, not, List, [], ◌∷◌, if◌then◌else◌, ltb, ◌==◌,
}
use adaptive_ai_inference_ru.Prelude.Bytes.{Bytes, bytes_lt}
use adaptive_ai_inference_ru.Prelude.Sort.{sort, sort-perm}

pub record EvictionCandidate : Type 0 where
  pub model_id : Bytes
  pub estimated_memory_bytes : ℕ
  pub last_used : ℕ
  pub estimated_load_cost : ℕ
  pub use_count : ℕ

-- The interface: the victims, the first to be evicted first. The law is what a client relies on:
-- a policy reorders the candidates, and neither drops one nor makes one up.
pub record IEvictionPolicy : Type 0 where
  pub order_victims : List EvictionCandidate → List EvictionCandidate
  pub order_victims-perm : (cs : List EvictionCandidate) → Perm (order_victims cs) cs

unfoldable pub lru_less : EvictionCandidate → EvictionCandidate → Bool
lru_less a b =
    if not (a.last_used == b.last_used)
    then ltb a.last_used b.last_used
    else bytes_lt a.model_id b.model_id

unfoldable pub cost_less : EvictionCandidate → EvictionCandidate → Bool
cost_less a b =
    if not (a.estimated_load_cost == b.estimated_load_cost)
    then ltb a.estimated_load_cost b.estimated_load_cost
    else if not (a.use_count == b.use_count)
    then ltb a.use_count b.use_count
    else if not (a.estimated_memory_bytes == b.estimated_memory_bytes)
    then ltb b.estimated_memory_bytes a.estimated_memory_bytes
    else if not (a.last_used == b.last_used)
    then ltb a.last_used b.last_used
    else bytes_lt a.model_id b.model_id

-- `LruEvictionPolicy`
abbrev pub lru : IEvictionPolicy
lru = record { order_victims = sort lru_less; order_victims-perm = sort-perm lru_less }

-- `CostAwareEvictionPolicy`
abbrev pub cost_aware : IEvictionPolicy
cost_aware = record { order_victims = sort cost_less; order_victims-perm = sort-perm cost_less }

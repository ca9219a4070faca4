-- ===== src/EvictionPolicy/Tests.antt =====
-- The two policies on three candidates.
use mathlib.Core.List.{Perm}
use adaptive_ai_inference_ru.Prelude.{ℕ, ◌≡◌, refl, List, [], ◌∷◌, map}
use adaptive_ai_inference_ru.Prelude.Bytes.{Bytes, bytes, bytes_lt}
use adaptive_ai_inference_ru.Prelude.Sort.{sort}
use adaptive_ai_inference_ru.EvictionPolicy.{
  EvictionCandidate, lru, cost_aware, lru_less, cost_less,
}
use adaptive_ai_inference_ru.EvictionPolicy.Order.{
  Ordered, NotNewer, NotDearer, lru-Ordered, cost_aware-Ordered,
}

abbrev candidate : Bytes → ℕ → ℕ → ℕ → ℕ → EvictionCandidate
candidate id memory used cost uses = record {
  model_id = id;
  estimated_memory_bytes = memory;
  last_used = used;
  estimated_load_cost = cost;
  use_count = uses;
}

abbrev three : List EvictionCandidate
three =
    candidate (bytes "a") 10 5 2 1
    ∷ candidate (bytes "b") 20 3 9 1
    ∷ candidate (bytes "c") 30 4 2 1
    ∷ []

lru_takes_oldest :
    map (λ c. c.model_id) (lru.order_victims three) ≡ bytes "b" ∷ bytes "c" ∷ bytes "a" ∷ []
unfolding sort lru_less bytes_lt
lru_takes_oldest = refl

cost_takes_cheapest :
    map (λ c. c.model_id) (cost_aware.order_victims three) ≡ bytes "c" ∷ bytes "a" ∷ bytes "b" ∷ []
unfolding sort cost_less bytes_lt
cost_takes_cheapest = refl

lru-Ordered_example :
    Perm (lru.order_victims three) three × Ordered NotNewer (lru.order_victims three)
lru-Ordered_example = lru-Ordered three

cost_aware-Ordered_example :
    Perm (cost_aware.order_victims three) three × Ordered NotDearer (cost_aware.order_victims three)
cost_aware-Ordered_example = cost_aware-Ordered three

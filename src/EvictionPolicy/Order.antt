-- ===== src/EvictionPolicy/Order.antt =====
-- The two policies sort by strict weak orders, so the first victim is a least candidate.
use mathlib.Core.List.{Perm}
use adaptive_ai_inference_ru.Prelude.{
  ◌≤◌, ◌≡◌, Bool, true, false, List, [], ◌∷◌, arith, All, All-mono,
}
use adaptive_ai_inference_ru.Prelude.Bytes.{bytes_lt, bytes_lt_asym, bytes_lt_neg_trans}
use adaptive_ai_inference_ru.Prelude.Sort.{
  IsSortedBy, IsStrictWeak, sort, sort-perm, sort-IsSortedBy,
}
use adaptive_ai_inference_ru.EvictionPolicy.{
  EvictionCandidate, lru, cost_aware, lru_less, cost_less,
}

lru_asym : (a b : EvictionCandidate) → lru_less a b ≡ true → lru_less b a ≡ false
unfolding lru_less
lru_asym a b h = ground (arith, bytes_lt_asym a.model_id b.model_id)

lru_neg_trans :
    (a b c : EvictionCandidate) → lru_less b a ≡ false → lru_less c b ≡ false → lru_less c a ≡ false
unfolding lru_less
lru_neg_trans a b c h k = ground (arith, bytes_lt_neg_trans a.model_id b.model_id c.model_id)

pub lru_less-IsStrictWeak : IsStrictWeak lru_less
lru_less-IsStrictWeak = record { asym = lru_asym; neg_trans = lru_neg_trans }

cost_asym : (a b : EvictionCandidate) → cost_less a b ≡ true → cost_less b a ≡ false
unfolding cost_less
cost_asym a b h = ground (arith, bytes_lt_asym a.model_id b.model_id)

cost_neg_trans :
    (a b c : EvictionCandidate)
    → cost_less b a ≡ false
    → cost_less c b ≡ false
    → cost_less c a ≡ false
unfolding cost_less
cost_neg_trans a b c h k = ground (arith, bytes_lt_neg_trans a.model_id b.model_id c.model_id)

pub cost_less-IsStrictWeak : IsStrictWeak cost_less
cost_less-IsStrictWeak = record { asym = cost_asym; neg_trans = cost_neg_trans }

-- Every entry stands before the later ones in the sense of `R`.
abbrev pub Ordered :
    (EvictionCandidate → EvictionCandidate → Type 0) → List EvictionCandidate → Type 0
Ordered R [] = Unit
Ordered R (x ∷ xs) = All (R x) xs × Ordered R xs

Ordered-mono :
    (less : EvictionCandidate → EvictionCandidate → Bool)
    (R : EvictionCandidate → EvictionCandidate → Type 0)
    → ((x y : EvictionCandidate) → less y x ≡ false → R x y)
    → (xs : List EvictionCandidate) → IsSortedBy less xs
    → Ordered R xs
Ordered-mono less R f [] h = tt
Ordered-mono less R f (x ∷ xs) h = (All-mono xs (f x) h.0, Ordered-mono less R f xs h.1)

-- `x` was used no later than `y`; at the same time, its id is not the larger.
abbrev pub NotNewer : EvictionCandidate → EvictionCandidate → Type 0
NotNewer x y =
    (x.last_used ≤ y.last_used)
    × (x.last_used ≡ y.last_used → bytes_lt y.model_id x.model_id ≡ false)

-- `x` costs no more to load again than `y`; at the same cost it was used no more often; then it
-- frees no less memory; then it was used no later; then its id is not the larger.
abbrev pub NotDearer : EvictionCandidate → EvictionCandidate → Type 0
NotDearer x y =
    (x.estimated_load_cost ≤ y.estimated_load_cost)
    × (x.estimated_load_cost ≡ y.estimated_load_cost
        → (x.use_count ≤ y.use_count)
          × (x.use_count ≡ y.use_count
              → (y.estimated_memory_bytes ≤ x.estimated_memory_bytes)
                × (x.estimated_memory_bytes ≡ y.estimated_memory_bytes → NotNewer x y)))

lru_less-NotNewer : (x y : EvictionCandidate) → lru_less y x ≡ false → NotNewer x y
unfolding lru_less
lru_less-NotNewer x y h = (ground arith, λ e. ground arith)

cost_less-NotDearer : (x y : EvictionCandidate) → cost_less y x ≡ false → NotDearer x y
unfolding cost_less
cost_less-NotDearer x y h =
    (ground arith, λ e. (ground arith, λ f. (ground arith, λ g. (ground arith, λ k. ground arith))))

-- The least recently used policy reorders the candidates so that each was used no later than all
-- behind it.
pub lru-Ordered :
    (cs : List EvictionCandidate)
    → Perm (lru.order_victims cs) cs × Ordered NotNewer (lru.order_victims cs)
lru-Ordered cs = (
  sort-perm lru_less cs,
  Ordered-mono lru_less NotNewer lru_less-NotNewer (sort lru_less cs)
      (sort-IsSortedBy lru_less lru_less-IsStrictWeak cs),
)

-- The cost-aware policy reorders the candidates by load cost, then use count, then memory (the
-- largest first), then last use, then id.
pub cost_aware-Ordered :
    (cs : List EvictionCandidate)
    → Perm (cost_aware.order_victims cs) cs × Ordered NotDearer (cost_aware.order_victims cs)
cost_aware-Ordered cs = (
  sort-perm cost_less cs,
  Ordered-mono cost_less NotDearer cost_less-NotDearer (sort cost_less cs)
      (sort-IsSortedBy cost_less cost_less-IsStrictWeak cs),
)

-- ===== src/ModelRegistry/Laws.antt =====
-- What a registry that was built by `add` holds.
use mathlib.Core.List.{Perm}
use adaptive_ai_inference_ru.Prelude.{
  ◌<◌, ◌≡◌, refl, ◌≢◌, none, some, List, [], ◌∷◌, map, arith, ◌==◌, ◌&&◌, not, if◌then◌else◌, All,
  All-mono,
}
use adaptive_ai_inference_ru.Prelude.Bytes.{
  Bytes, bytes_eq, bytes_eq_iff, bytes_lt_asym, bytes_lt_neg_trans, NotAfter, bytes_lt-NotAfter,
}
use adaptive_ai_inference_ru.Prelude.Assoc.{lookup}
use adaptive_ai_inference_ru.Prelude.Sort.{
  IsSortedBy, IsStrictWeak, sort, sort-perm, sort-IsSortedBy, sort-All,
}
use adaptive_ai_inference_ru.Status.{found, ok}
use adaptive_ai_inference_ru.ModelRegistry.{
  ModelSpec, Models, add, find, contains, models, spec_less, is_empty_id,
}

-- Every entry stands under its own id, has a positive size and cost, and no id stands twice.
abbrev pub IsRegistry : Models → Type 0
IsRegistry [] = Unit
IsRegistry ((id, spec) ∷ m) =
    (spec.model_id ≡ id)
    × (id ≢ [])
    × (0 < spec.estimated_memory_bytes)
    × (0 < spec.estimated_load_cost)
    × (lookup id m ≡ none)
    × IsRegistry m

-- The models that a list of `add` calls leaves.
unfoldable pub add_all : List ModelSpec → Models → Models
add_all [] m = m
add_all (s ∷ ss) m = add_all ss (add s m).1

add-IsRegistry : (s : ModelSpec) (m : Models) → IsRegistry m → IsRegistry (add s m).1
unfolding add
add-IsRegistry s m h = ground arith

-- Whatever is added, the registry stays well formed.
pub add_all-IsRegistry :
    (ss : List ModelSpec) (m : Models) → IsRegistry m → IsRegistry (add_all ss m)
unfolding add_all
add_all-IsRegistry [] m h = h
add_all-IsRegistry (s ∷ ss) m h = add_all-IsRegistry ss (add s m).1 (add-IsRegistry s m h)

lookup-facts :
    (id : Bytes) (m : Models) (spec : ModelSpec)
    → IsRegistry m
    → lookup id m ≡ some spec
    → (spec.model_id ≡ id) × (0 < spec.estimated_memory_bytes) × (0 < spec.estimated_load_cost)
unfolding lookup
lookup-facts id [] spec h e = cc
lookup-facts id ((j, s) ∷ m) spec h e = ground (arith, bytes_eq_iff j id, lookup-facts id m spec)

-- What `find` gives has the id that was asked for, and a positive size and load cost.
pub find-facts :
    (id : Bytes) (m : Models) (spec : ModelSpec)
    → IsRegistry m
    → find id m ≡ found spec
    → (spec.model_id ≡ id) × (0 < spec.estimated_memory_bytes) × (0 < spec.estimated_load_cost)
unfolding find
find-facts id m spec h e = ground (arith, lookup-facts id m spec)

is_empty_id-bytes_eq : (id : Bytes) → bytes_eq id [] ≡ is_empty_id id
unfolding bytes_eq
is_empty_id-bytes_eq [] = refl
is_empty_id-bytes_eq (c ∷ cs) = refl

-- After an addition that succeeds, `find` gives the new model under its id and what it gave
-- before under every other; one that fails changes nothing. It succeeds exactly if the id is new
-- and not empty and both figures are positive.
pub find-add :
    (s : ModelSpec) (m : Models) (id : Bytes)
    → (find id (add s m).1
        ≡ (if ok (add s m).0 && bytes_eq s.model_id id then found s else find id m))
      × (ok (add s m).0 ≡ (
          not (bytes_eq s.model_id [])
          && not (s.estimated_memory_bytes == 0)
          && not (s.estimated_load_cost == 0)
          && not (contains s.model_id m)))
unfolding find add lookup
find-add s m id = ground (arith, is_empty_id-bytes_eq s.model_id)

spec_less-IsStrictWeak : IsStrictWeak spec_less
spec_less-IsStrictWeak = record {
  asym = λ a b. bytes_lt_asym a.model_id b.model_id;
  neg_trans = λ a b c. bytes_lt_neg_trans a.model_id b.model_id c.model_id;
}

-- The ids ascend, in the lexicographic order of their bytes.
abbrev pub Ascending : List ModelSpec → Type 0
Ascending [] = Unit
Ascending (x ∷ xs) = All (λ y. NotAfter x.model_id y.model_id) xs × Ascending xs

sorted-Ascending : (xs : List ModelSpec) → IsSortedBy spec_less xs → Ascending xs
sorted-Ascending [] h = tt
sorted-Ascending (x ∷ xs) h =
    (All-mono xs (λ y. bytes_lt-NotAfter x.model_id y.model_id) h.0, sorted-Ascending xs h.1)

-- Under distinct ids, every entry is what `find` gives.
find-map :
    (m m' : Models)
    → IsRegistry m
    → ((id : Bytes) (spec : ModelSpec) → lookup id m ≡ some spec → lookup id m' ≡ some spec)
    → All (λ s. find s.model_id m' ≡ found s) (map (λ e. e.1) m)
unfolding find
find-map [] m' known same = tt
find-map ((id, s) ∷ m) m' (e, nonempty, size, cost, new_id, rest) same = (
  rw (same s.model_id s (unfold lookup in ground (arith, bytes_eq_iff id s.model_id)), find) refl,
  find-map m m' rest (λ j t h. same j t (unfold lookup in ground (arith, bytes_eq_iff id j))),
)

-- `models` of a well-formed registry lists, in the order of the ids, every entry as often as it
-- stands there, whatever the iteration order of the map; and `find` gives each of them under its id.
pub models_sorted :
    (m : Models)
    → IsRegistry m
    → Perm (models m) (map (λ e. e.1) m)
      × Ascending (models m)
      × All (λ s. find s.model_id m ≡ found s) (models m)
unfolding models
models_sorted m known =
    let xs : List ModelSpec = map (λ e. e.1) m in
    (
      sort-perm spec_less xs,
      sorted-Ascending (sort spec_less xs) (sort-IsSortedBy spec_less spec_less-IsStrictWeak xs),
      sort-All spec_less (λ s. find s.model_id m ≡ found s) xs (find-map m m known (λ id s h. h)),
    )

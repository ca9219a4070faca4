-- ===== src/ModelManager/Entries.antt =====
-- Sums over the map of entries, and how a write changes them.

use adaptive_ai_inference_ru.Prelude.{
  ℕ, ◌+◌, ◌≤◌, ◌≡◌, refl, false, Option, none, some, [], ◌∷◌, arith, if◌then◌else◌, length,
}
use adaptive_ai_inference_ru.Prelude.Bytes.{Bytes, bytes_eq, bytes_eq_iff, bytes_eq_refl}
use adaptive_ai_inference_ru.Prelude.Assoc.{lookup, insert, lookup-insert}
use adaptive_ai_inference_ru.ModelManager.{loading, evicting, Entry, Entries, is_resident}

-- What an entry holds of the budget, whether it is resident, and whether it is in transition.
abbrev pub memory_of : Entry → ℕ
memory_of e = if is_resident e.state then e.estimated_memory_bytes else 0

abbrev pub resident_of : Entry → ℕ
resident_of e = if is_resident e.state then 1 else 0

abbrev pub busy_of : Entry → ℕ
busy_of e = elim (e.state) [ loading ↦ 1 | evicting ↦ 1 | _ ↦ 0 ]

module _ (w : Entry → ℕ) where
  pub total : Entries → ℕ
  total [] = 0
  total ((id, e) ∷ es) = w e + total es

  -- The weight of what stands under a key.
  abbrev pub weight_at : Option Entry → ℕ
  weight_at none = 0
  weight_at (some e) = w e

  -- A write replaces the weight of the entry that stood there.
  pub total-insert :
      (id : Bytes) (e : Entry) (es : Entries)
      → total (insert id e es) + weight_at (lookup id es) ≡ total es + w e
  unfolding total insert lookup
  total-insert id e [] = omega arith
  total-insert id e ((j, x) ∷ es) = ground (arith, total-insert id e es)

  pub weight_at-le : (id : Bytes) (es : Entries) → weight_at (lookup id es) ≤ total es
  unfolding total lookup
  weight_at-le id [] = omega arith
  weight_at-le id ((j, x) ∷ es) = ground (arith, weight_at-le id es)

pub total-nil : (w : Entry → ℕ) → total w [] ≡ 0
unfolding total
total-nil w = refl

pub total_resident-le : (es : Entries) → total resident_of es ≤ length es
unfolding total
total_resident-le [] = omega arith
total_resident-le ((j, x) ∷ es) = ground (arith, total_resident-le es)

-- No key stands twice.
abbrev pub Distinct : Entries → Type 0
Distinct [] = Unit
Distinct ((id, e) ∷ es) = (lookup id es ≡ none) × Distinct es

pub insert-Distinct :
    (id : Bytes) (e : Entry) (es : Entries) → Distinct es → Distinct (insert id e es)
unfolding insert
insert-Distinct id e [] d = (unfold lookup in refl, tt)
insert-Distinct id e ((j, x) ∷ es) d =
    ground (
      arith,
      lookup-insert id j e es,
      bytes_eq_iff j id,
      bytes_eq_iff id j,
      insert-Distinct id e es,
    )

pub lookup-insert_self :
    (id : Bytes) (e : Entry) (es : Entries) → lookup id (insert id e es) ≡ some e
lookup-insert_self id e es = rw (lookup-insert, bytes_eq_refl)

pub lookup-insert_ne :
    (id j : Bytes) (e : Entry) (es : Entries)
    → bytes_eq id j ≡ false
    → lookup j (insert id e es) ≡ lookup j es
lookup-insert_ne id j e es h = rw (lookup-insert, h)

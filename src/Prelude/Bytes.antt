-- ===== src/Prelude/Bytes.antt =====
-- `std::string` as its bytes: equality, and the lexicographic order of `operator<`.
use adaptive_ai_inference_ru.Prelude.Tests.{ltb, ltb→lt, ◌==◌, Bool-cases}
use Prim.Native.Nat.{ℕ, ◌<◌}
use Prim.Native.Char.{code}
use Prim.Native.String.{String}
use mathlib.Core.Path.{◌≡◌, refl, sym}
use mathlib.Core.Logic.{◌↔◌, ◌⊎◌, inl, inr}
use mathlib.Core.Bool.{Bool, true, false, ◌&&◌, ◌||◌, false≢true}
use mathlib.Core.List.{List, [], ◌∷◌}
use native.Mathlib.Omega.{arith}

abbrev pub Bytes : Type 0
Bytes = List ℕ

abbrev pub bytes : String → Bytes
bytes String.[] = []
bytes (String.◌∷◌ c s) = code c ∷ bytes s

unfoldable pub bytes_eq : Bytes → Bytes → Bool
bytes_eq [] [] = true
bytes_eq [] (b ∷ bs) = false
bytes_eq (a ∷ as') [] = false
bytes_eq (a ∷ as') (b ∷ bs) = a == b && bytes_eq as' bs

unfoldable pub bytes_lt : Bytes → Bytes → Bool
bytes_lt [] [] = false
bytes_lt [] (b ∷ bs) = true
bytes_lt (a ∷ as') [] = false
bytes_lt (a ∷ as') (b ∷ bs) = ltb a b || (a == b && bytes_lt as' bs)

pub bytes_eq_sound : (a b : Bytes) → bytes_eq a b ≡ true → a ≡ b
unfolding bytes_eq
bytes_eq_sound [] [] h = refl
bytes_eq_sound [] (b ∷ bs) h = cc
bytes_eq_sound (a ∷ as') [] h = cc
bytes_eq_sound (a ∷ as') (b ∷ bs) h = ground (arith, bytes_eq_sound as' bs)

pub bytes_eq_refl : (a : Bytes) → bytes_eq a a ≡ true
unfolding bytes_eq
bytes_eq_refl [] = refl
bytes_eq_refl (a ∷ as') = ground (arith, bytes_eq_refl as')

pub bytes_eq_iff : (a b : Bytes) → (bytes_eq a b ≡ true) ↔ (a ≡ b)
bytes_eq_iff a b = (bytes_eq_sound a b, λ e. ground (arith, bytes_eq_refl a))

pub bytes_lt_irrefl : (a : Bytes) → bytes_lt a a ≡ false
unfolding bytes_lt
bytes_lt_irrefl [] = refl
bytes_lt_irrefl (a ∷ as') = ground (arith, bytes_lt_irrefl as')

pub bytes_lt_trans :
    (a b c : Bytes) → bytes_lt a b ≡ true → bytes_lt b c ≡ true → bytes_lt a c ≡ true
unfolding bytes_lt
bytes_lt_trans [] [] c h k = cc
bytes_lt_trans [] (b ∷ bs) [] h k = cc
bytes_lt_trans [] (b ∷ bs) (c ∷ cs) h k = refl
bytes_lt_trans (a ∷ as') [] c h k = cc
bytes_lt_trans (a ∷ as') (b ∷ bs) [] h k = cc
bytes_lt_trans (a ∷ as') (b ∷ bs) (c ∷ cs) h k = ground (arith, bytes_lt_trans as' bs cs)

-- The order is total: of two strings that are not below one another, both are the same.
pub bytes_lt_total : (a b : Bytes) → bytes_lt a b ≡ false → bytes_lt b a ≡ false → a ≡ b
unfolding bytes_lt
bytes_lt_total [] [] h k = refl
bytes_lt_total [] (b ∷ bs) h k = cc
bytes_lt_total (a ∷ as') [] h k = cc
bytes_lt_total (a ∷ as') (b ∷ bs) h k = ground (arith, bytes_lt_total as' bs)

-- Not below is transitive.
pub bytes_lt_neg_trans :
    (a b c : Bytes) → bytes_lt b a ≡ false → bytes_lt c b ≡ false → bytes_lt c a ≡ false
unfolding bytes_lt
bytes_lt_neg_trans [] [] [] h k = refl
bytes_lt_neg_trans [] [] (c ∷ cs) h k = refl
bytes_lt_neg_trans [] (b ∷ bs) [] h k = refl
bytes_lt_neg_trans [] (b ∷ bs) (c ∷ cs) h k = refl
bytes_lt_neg_trans (a ∷ as') [] c h k = cc
bytes_lt_neg_trans (a ∷ as') (b ∷ bs) [] h k = cc
bytes_lt_neg_trans (a ∷ as') (b ∷ bs) (c ∷ cs) h k = ground (arith, bytes_lt_neg_trans as' bs cs)

pub bytes_lt_asym : (a b : Bytes) → bytes_lt a b ≡ true → bytes_lt b a ≡ false
unfolding bytes_lt
bytes_lt_asym [] [] h = cc
bytes_lt_asym [] (b ∷ bs) h = refl
bytes_lt_asym (a ∷ as') [] h = cc
bytes_lt_asym (a ∷ as') (b ∷ bs) h = ground (arith, bytes_lt_asym as' bs)

-- The lexicographic order by its meaning: `a` is a prefix of `b`, or smaller at the first difference.
abbrev pub NotAfter : Bytes → Bytes → Type 0
NotAfter [] b = Unit
NotAfter (x ∷ a) [] = ⊥
NotAfter (x ∷ a) (y ∷ b) = (x < y) ⊎ ((x ≡ y) × NotAfter a b)

pub bytes_lt-NotAfter : (a b : Bytes) → bytes_lt b a ≡ false → NotAfter a b
unfolding bytes_lt
bytes_lt-NotAfter [] b h = tt
bytes_lt-NotAfter (x ∷ a) [] h = absurd (false≢true (sym h))
bytes_lt-NotAfter (x ∷ a) (y ∷ b) h = elim (Bool-cases (ltb x y)) [
  | inl t ↦ inl (ltb→lt x y t)
  | inr f ↦ inr (ground arith, bytes_lt-NotAfter a b (ground arith))
]

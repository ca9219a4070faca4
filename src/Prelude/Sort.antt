-- ===== src/Prelude/Sort.antt =====
-- `std::sort` by a strict comparison, as insertion sort.
use mathlib.Core.Path.{◌≡◌}
use mathlib.Core.Bool.{Bool, true, false}
use mathlib.Core.List.{List, [], ◌∷◌, Perm}
use mathlib.Core.List.Perm
use adaptive_ai_inference_ru.Prelude.Tests.{if◌then◌else◌, Bool-cases, if_cases}
use adaptive_ai_inference_ru.Prelude.Lists.{All, All-mono}
use mathlib.Core.Logic.{inl, inr}

module _ {ℓ} {A : Type ℓ} (less : A → A → Bool) where
  unfoldable pub insert_sorted : A → List A → List A
  insert_sorted x [] = x ∷ []
  insert_sorted x (y ∷ ys) = if less y x then y ∷ insert_sorted x ys else x ∷ y ∷ ys

  unfoldable pub sort : List A → List A
  unfolding insert_sorted
  sort [] = []
  sort (x ∷ xs) = insert_sorted x (sort xs)

  insert_sorted-perm : (x : A) (xs : List A) → Perm (insert_sorted x xs) (x ∷ xs)
  unfolding insert_sorted
  insert_sorted-perm x [] = Perm.refl (x ∷ [])
  insert_sorted-perm x (y ∷ ys) = elim (Bool-cases (less y x)) [
    | inl e ↦ rw e (Perm.trans (Perm.cons y (insert_sorted-perm x ys)) (Perm.swap x y ys))
    | inr e ↦ rw e (Perm.refl (x ∷ y ∷ ys))
  ]

  pub sort-perm : (xs : List A) → Perm (sort xs) xs
  unfolding sort
  sort-perm [] = Perm.refl []
  sort-perm (x ∷ xs) = Perm.trans (insert_sorted-perm x (sort xs)) (Perm.cons x (sort-perm xs))

  insert_sorted-keeps {κ} :
      (P : A → Type κ) (x : A) (xs : List A) → P x → All P xs → All P (insert_sorted x xs)
  unfolding insert_sorted
  insert_sorted-keeps P x [] h hs = (h, tt)
  insert_sorted-keeps P x (y ∷ ys) h hs =
      if_cases (All P) (less y x) _ _ (λ t. (hs.0, insert_sorted-keeps P x ys h hs.1))
        (λ f. (h, hs))

  pub sort-All {κ} : (P : A → Type κ) (xs : List A) → All P xs → All P (sort xs)
  unfolding sort
  sort-All P [] h = tt
  sort-All P (x ∷ xs) h = insert_sorted-keeps P x (sort xs) h.0 (sort-All P xs h.1)

  -- No entry is above an earlier one.
  abbrev pub IsSortedBy : List A → Type ℓ
  IsSortedBy [] = Unit
  IsSortedBy (x ∷ xs) = All (λ y. less y x ≡ false) xs × IsSortedBy xs

  -- The requirement of `std::sort` on its comparison: a strict weak order.
  pub record IsStrictWeak : Type ℓ where
    pub asym : (x y : A) → less x y ≡ true → less y x ≡ false
    pub neg_trans : (x y z : A) → less y x ≡ false → less z y ≡ false → less z x ≡ false

module _ {ℓ} {A : Type ℓ} (less : A → A → Bool) (order : IsStrictWeak less) where
  insert_sorted-All :
      (y x : A) (xs : List A)
      → less x y ≡ false
      → All (λ z. less z y ≡ false) xs
      → All (λ z. less z y ≡ false) (insert_sorted less x xs)
  unfolding insert_sorted
  insert_sorted-All y x [] h hs = (h, tt)
  insert_sorted-All y x (z ∷ zs) h hs = elim (Bool-cases (less z x)) [
    | inl e ↦ rw e (hs.0, insert_sorted-All y x zs h hs.1)
    | inr e ↦ rw e (h, (hs.0, hs.1))
  ]

  insert_sorted-IsSortedBy :
      (x : A) (xs : List A) → IsSortedBy less xs → IsSortedBy less (insert_sorted less x xs)
  unfolding insert_sorted
  insert_sorted-IsSortedBy x [] h = (tt, tt)
  insert_sorted-IsSortedBy x (y ∷ ys) h = elim (Bool-cases (less y x)) [
    | inl e ↦
        rw e (insert_sorted-All y x ys (order.asym y x e) h.0, insert_sorted-IsSortedBy x ys h.1)
    | inr e ↦ rw e ((e, All-mono ys (λ z hz. order.neg_trans x y z e hz) h.0), (h.0, h.1))
  ]

  pub sort-IsSortedBy : (xs : List A) → IsSortedBy less (sort less xs)
  unfolding sort
  sort-IsSortedBy [] = tt
  sort-IsSortedBy (x ∷ xs) = insert_sorted-IsSortedBy x (sort less xs) (sort-IsSortedBy xs)

-- ===== src/RequestHandler/Checks.antt =====
-- The checks of the request handler: what each lets through.
use mathlib.Core.Option.{none-ne-some, some-injective}
use adaptive_ai_inference_ru.Prelude.{
  ℕ, ◌≤◌, ◌≡◌, ◌≢◌, ◌↔◌, refl, sym, ap, subst, ◌∙◌, ◌⊎◌, inl, inr, true, false, ◌||◌, Option, none,
  some, List, [], ◌∷◌, All, ltb, arith, Option-cases, Bool-cases,
}
use adaptive_ai_inference_ru.Prelude.Bytes.{Bytes}
use adaptive_ai_inference_ru.Prelude.Integers.{ℤ, pos, negsuc}
use adaptive_ai_inference_ru.RequestHandler.Json.{IJson}
use adaptive_ai_inference_ru.RequestHandler.Parse.{
  Checked, value, refused, and_then, is_known, check_keys, check_nonempty, value_of, in_range,
  as_string, as_integer,
}

abbrev IsRefused : {A : Type 0} → Checked A → Type 0
IsRefused (value a) = ⊥
IsRefused (refused e) = Unit

abbrev pub value_or : {A : Type 0} → A → Checked A → A
value_or d (value a) = a
value_or d (refused e) = d

pub value_ne : {A : Type 0} (e : Bytes) (a : A) → ¬ (refused e ≡ value a)
value_ne {A = A} e a h = absurd (subst (λ (c : Checked A). IsRefused c) h tt)

pub and_then_inv :
    {A B : Type 0} (c : Checked A) (f : A → Checked B) (b : B)
    → and_then c f ≡ value b
    → (a : A) × (c ≡ value a) × (f a ≡ value b)
unfolding and_then
and_then_inv (value a) f b h = (a, refl, h)
and_then_inv (refused e) f b h = absurd (value_ne e b h)

pub check_keys_iff :
    (keys : List Bytes) → (check_keys keys ≡ value tt) ↔ All (λ key. is_known key ≡ true) keys
unfolding check_keys
check_keys_iff [] = (λ h. tt, λ h. refl)
check_keys_iff (key ∷ keys) = elim (Bool-cases (is_known key)) [
  | inl t ↦ rw t (λ h. (refl, (check_keys_iff keys).0 h), λ h. (check_keys_iff keys).1 h.1)
  | inr f ↦ rw f (λ h. absurd (value_ne _ tt h), λ h. ground arith)
]

pub check_nonempty_iff : (error s : Bytes) → (check_nonempty error s ≡ value tt) ↔ (s ≢ [])
unfolding check_nonempty
check_nonempty_iff error [] = (λ h. absurd (value_ne error tt h), λ h. absurd (h refl))
check_nonempty_iff error (b ∷ bs) = (λ h. ground arith, λ h. refl)

abbrev IsNegative : ℤ → Type 0
IsNegative (pos n) = ⊥
IsNegative (negsuc n) = Unit

abbrev magnitude : ℤ → ℕ
magnitude (pos n) = n
magnitude (negsuc n) = n

outside : (m n high : ℕ) → (ltb m 1 || ltb high m) ≡ true → pos m ≡ pos n → 1 ≤ n → n ≤ high → ⊥
outside m n high t z low top = let same = ap magnitude z in ground arith

inside :
    (m n high : ℕ)
    → (ltb m 1 || ltb high m) ≡ false
    → m ≡ n
    → (pos m ≡ pos n) × (1 ≤ n) × (n ≤ high)
inside m n high f e = (ap pos e, ground arith, ground arith)

in_range_iff :
    (high : ℕ) (error : Bytes) (z : ℤ) (n : ℕ)
    → (in_range 1 high error z ≡ value n) ↔ ((z ≡ pos n) × (1 ≤ n) × (n ≤ high))
unfolding in_range
in_range_iff high error (pos m) n = elim (Bool-cases (ltb m 1 || ltb high m)) [
  | inl t ↦
      rw t
        (λ h. absurd (value_ne error n h), λ (z, low, top). absurd (outside m n high t z low top))
  | inr f ↦
      rw f (λ h. inside m n high f (ap (value_or 0) h), λ (z, low, top). ap value (ap magnitude z))
]
in_range_iff high error (negsuc m) n =
    (λ h. absurd (value_ne error n h), λ (z, low, top). absurd (subst IsNegative z tt))

module _ {J : Type 0} (json : IJson J) where
  pub as_string_iff :
      (error : Bytes) (o : Option J) (s : Bytes)
      → (as_string json error o ≡ value s) ↔ ((v : J) × (o ≡ some v) × (json.get_string v ≡ some s))
  unfolding as_string value_of
  as_string_iff error none s =
      (λ h. absurd (value_ne error s h), λ (v, q, g). absurd (none-ne-some v q))
  as_string_iff error (some j) s = elim (Option-cases (json.get_string j)) [
    | inl n ↦ rw n (
      λ h. absurd (value_ne error s h),
      λ (v, q, g). absurd (none-ne-some s (sym n ∙ ap json.get_string (some-injective j v q) ∙ g)),
    )
    | inr (x, e) ↦ rw e (
      λ h. (j, refl, e ∙ ap (λ y. some y) (ap (value_or []) h)),
      λ (v, q, g).
          ap value (some-injective x s (sym e ∙ ap json.get_string (some-injective j v q) ∙ g)),
    )
  ]

  pub as_integer_iff :
      (default high : ℕ) (type_error range_error : Bytes) (o : Option J) (n : ℕ)
      → (as_integer json default high type_error range_error o ≡ value n) ↔ (
          ((o ≡ none) × (n ≡ default))
          ⊎ ((v : J) × (o ≡ some v) × (json.get_integer v ≡ some (pos n)) × (1 ≤ n) × (n ≤ high)))
  unfolding as_integer value_of and_then
  as_integer_iff default high type_error range_error none n = (
    λ h. inl (refl, sym (ap (value_or 0) h)),
    λ h. elim h [
      | inl (q, e) ↦ ap value (sym e)
      | inr (v, q, g, low, top) ↦ absurd (none-ne-some v q)
    ],
  )
  as_integer_iff default high type_error range_error (some j) n =
      elim (Option-cases (json.get_integer j)) [
        | inl m ↦ rw m (
          λ h. absurd (value_ne type_error n h),
          λ h. elim h [
            | inl (q, e) ↦ absurd (none-ne-some j (sym q))
            | inr (v, q, g, low, top) ↦
                absurd
                  (none-ne-some (pos n) (sym m ∙ ap json.get_integer (some-injective j v q) ∙ g))
          ],
        )
        | inr (z, e) ↦ rw e (
          λ h.
              let (k, low, top) = (in_range_iff high range_error z n).0 h in
              inr (j, refl, e ∙ ap (λ y. some y) k, low, top),
          λ h. elim h [
            | inl (q, e') ↦ absurd (none-ne-some j (sym q))
            | inr (v, q, g, low, top) ↦ (in_range_iff high range_error z n).1 (
              some-injective z (pos n) (sym e ∙ ap json.get_integer (some-injective j v q) ∙ g),
              low,
              top,
            )
          ],
        )
      ]

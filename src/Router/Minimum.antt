-- ===== src/Router/Minimum.antt =====
-- One loop that both load-based routers are instances of: it finds the least worker by tier, then
-- load, then id.
use adaptive_ai_inference_ru.Prelude.{
  ℕ, ◌≤◌, ◌<◌, ◌≡◌, refl, ◌⊎◌, inl, inr, Bool, true, false, Option, none, some, List, [], ◌∷◌,
  arith, All, Bool-cases, if◌then◌else◌, sym,
}
use adaptive_ai_inference_ru.ModelRegistry.{ModelSpec}
use adaptive_ai_inference_ru.Router.{
  WorkerSnapshot, is_m2_feasible, Best, load_of, better_load, better_tier, least_loop, tier_loop,
  residency_tier,
}

-- Some worker of the list has property `P`.
abbrev pub Some : (WorkerSnapshot → Type 0) → List WorkerSnapshot → Type 0
Some P [] = ⊥
Some P (w ∷ ws) = P w ⊎ Some P ws

module _ (model : ModelSpec) (tier : WorkerSnapshot → ℕ) where
  -- By tier, then load, then id, `a` does not come after `b`.
  abbrev pub NotAfter : WorkerSnapshot → WorkerSnapshot → Type 0
  NotAfter a b =
      (tier a < tier b)
      ⊎ ((tier a ≡ tier b)
          × ((load_of a < load_of b) ⊎ ((load_of a ≡ load_of b) × (a.worker_id ≤ b.worker_id))))

  -- `b` is a feasible worker of the list, and no feasible one comes before it.
  abbrev pub IsLeast : WorkerSnapshot → List WorkerSnapshot → Type 0
  IsLeast b ws =
      Some (λ w. (w ≡ b) × (is_m2_feasible model w ≡ true)) ws
      × All (λ w. is_m2_feasible model w ≡ true → NotAfter b w) ws

  abbrev pub key : WorkerSnapshot → Best
  key w = record { tier = tier w; load = load_of w; id = w.worker_id }

  pub loop : List WorkerSnapshot → Option Best → Option Best
  loop [] best = best
  loop (w ∷ ws) best = loop ws (
      if is_m2_feasible model w
      then (if better_tier (tier w) w best then some (key w) else best)
      else best)

  NotAfter-trans : (a b c : WorkerSnapshot) → NotAfter a b → NotAfter b c → NotAfter a c
  NotAfter-trans a b c h k = ground arith

  better_NotAfter :
      (a b : WorkerSnapshot) → better_tier (tier a) a (some (key b)) ≡ true → NotAfter a b
  unfolding better_tier
  better_NotAfter a b h = ground arith

  not_better_NotAfter :
      (a b : WorkerSnapshot) → better_tier (tier a) a (some (key b)) ≡ false → NotAfter b a
  unfolding better_tier
  not_better_NotAfter a b h = ground arith

  -- With a best worker `a` so far, the loop ends with one that is `a` or of the list, and that
  -- does not come after either.
  loop-some :
      (ws : List WorkerSnapshot) (a : WorkerSnapshot)
      → (b : WorkerSnapshot) × (loop ws (some (key a)) ≡ some (key b))
        × ((b ≡ a) ⊎ Some (λ w. (w ≡ b) × (is_m2_feasible model w ≡ true)) ws)
        × NotAfter b a
        × All (λ w. is_m2_feasible model w ≡ true → NotAfter b w) ws
  unfolding loop
  loop-some [] a = (a, refl, inl refl, ground arith, tt)
  loop-some (w ∷ ws) a = elim (Bool-cases (is_m2_feasible model w)) [
    | inr f ↦
        let (b, e, from, le, all) = loop-some ws a in
        (b, rw f e, later b (from), le, ((λ t. cc), all))
    | inl t ↦ elim (Bool-cases (better_tier (tier w) w (some (key a)))) [
      | inl g ↦
          let (b, e, from, le, all) = loop-some ws w in
          (
            b,
            rw (t, g) e,
            inr (taken b t from),
            NotAfter-trans b w a le (better_NotAfter w a g),
            ((λ _. le), all),
          )
      | inr n ↦
          let (b, e, from, le, all) = loop-some ws a in
          (
            b,
            rw (t, n) e,
            later b from,
            le,
            ((λ _. NotAfter-trans b a w le (not_better_NotAfter w a n)), all),
          )
    ]
  ]
    where
      later :
          (b : WorkerSnapshot)
          → (b ≡ a) ⊎ Some (λ x. (x ≡ b) × (is_m2_feasible model x ≡ true)) ws
          → (b ≡ a)
            ⊎ (((w ≡ b) × (is_m2_feasible model w ≡ true))
                ⊎ Some (λ x. (x ≡ b) × (is_m2_feasible model x ≡ true)) ws)
      later b (inl e) = inl e
      later b (inr s) = inr (inr s)

      taken :
          (b : WorkerSnapshot)
          → is_m2_feasible model w ≡ true
          → (b ≡ w) ⊎ Some (λ x. (x ≡ b) × (is_m2_feasible model x ≡ true)) ws
          → ((w ≡ b) × (is_m2_feasible model w ≡ true))
            ⊎ Some (λ x. (x ≡ b) × (is_m2_feasible model x ≡ true)) ws
      taken b t (inl e) = inl (sym e, t)
      taken b t (inr s) = inr s

  -- From nothing, the loop finds a least feasible worker, or there is no feasible one.
  pub loop-none :
      (ws : List WorkerSnapshot)
      → ((loop ws none ≡ none) × All (λ w. is_m2_feasible model w ≡ false) ws)
        ⊎ ((b : WorkerSnapshot) × (loop ws none ≡ some (key b)) × IsLeast b ws)
  unfolding loop
  loop-none [] = inl (refl, tt)
  loop-none (w ∷ ws) = elim (Bool-cases (is_m2_feasible model w)) [
    | inl t ↦
        let (b, e, from, le, all) = loop-some ws w in
        inr (
          b,
          unfold better_tier in rw t e,
          (elim from [ inl q ↦ inl (sym q, t) | inr s ↦ inr s ], ((λ _. le), all)),
        )
    | inr f ↦ elim (loop-none ws) [
      | inl (e, no_one) ↦ inl (rw f e, (f, no_one))
      | inr (b, e, (from, all)) ↦ inr (b, rw f e, (inr from, ((λ t. cc), all)))
    ]
  ]

pub tier_loop-loop :
    (model : ModelSpec) (ws : List WorkerSnapshot) (best : Option Best)
    → tier_loop model ws best ≡ loop model (residency_tier model) ws best
unfolding tier_loop loop
tier_loop-loop model [] best = refl
tier_loop-loop model (w ∷ ws) best = tier_loop-loop model ws _

abbrev HasTierZero : Option Best → Type 0
HasTierZero none = Unit
HasTierZero (some b) = b.tier ≡ 0

better_load-better_tier :
    (w : WorkerSnapshot) (best : Option Best)
    → HasTierZero best
    → better_load w best ≡ better_tier 0 w best
unfolding better_load better_tier
better_load-better_tier w none h = refl
better_load-better_tier w (some b) h = ground arith

-- The least-loaded router's loop is the same loop with every worker in one tier.
pub least_loop-loop :
    (model : ModelSpec) (ws : List WorkerSnapshot) (best : Option Best)
    → HasTierZero best
    → least_loop model ws best ≡ loop model (λ _. 0) ws best
unfolding least_loop loop
least_loop-loop model [] best h = refl
least_loop-loop model (w ∷ ws) best h =
    rw (better_load-better_tier w best h)
      (least_loop-loop model ws _ (next_tier (is_m2_feasible model w) (better_tier 0 w best)))
  where
    next_tier :
        (f g : Bool)
        → HasTierZero (
            if f
            then (if g
                then some (record { tier = 0; load = load_of w; id = w.worker_id })
                else best)
            else best)
    next_tier false g = h
    next_tier true false = h
    next_tier true true = refl

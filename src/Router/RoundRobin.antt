-- ===== src/Router/RoundRobin.antt =====
-- The round-robin router takes the first feasible worker in cyclic order, and moves on behind it.
use mathlib.Core.Option.{none-ne-some, some-injective}
use native.Mathlib.Decide.{ℕ_discrete}
use adaptive_ai_inference_ru.Prelude.{
  ℕ, zero, suc, ◌+◌, ◌%◌, ◌≤◌, ◌<◌, ◌≡◌, refl, ◌⊎◌, inl, inr, true, false, Option, none, some, List,
  [], ◌∷◌, arith, length, get_elem?, Bool-cases, Option-cases, if◌then◌else◌, leb, subst, sym, ap,
  ◌∙◌,
}
use adaptive_ai_inference_ru.Status.{found}
use adaptive_ai_inference_ru.ModelRegistry.{ModelSpec}
use adaptive_ai_inference_ru.Router.{
  WorkerSnapshot, is_m2_feasible, scan, chosen, round_robin, none_feasible,
}

-- The worker at distance `k` behind `start` in cyclic order, if any, is not feasible.
abbrev pub Skipped : ModelSpec → List WorkerSnapshot → ℕ → ℕ → Type 0
Skipped model ws start k =
    (w : WorkerSnapshot)
    → get_elem? ws ((start + k) % length ws) ≡ some w
    → is_m2_feasible model w ≡ false

-- What the scan of `rounds` workers from distance `offset` on returns: nothing, and all of them were
-- skipped; or the worker at some distance, which is feasible, and those before it were skipped.
abbrev pub Scanned :
    ModelSpec → List WorkerSnapshot → ℕ → ℕ → ℕ → Option (ℕ × WorkerSnapshot) → Type 0
Scanned model ws start rounds offset o =
    ((o ≡ none) × ((j : ℕ) → offset ≤ j → j < offset + rounds → Skipped model ws start j))
    ⊎ ((k : ℕ) × (w : WorkerSnapshot) × (o ≡ some ((start + k) % length ws, w))
        × (offset ≤ k)
        × (k < offset + rounds)
        × (get_elem? ws ((start + k) % length ws) ≡ some w)
        × (is_m2_feasible model w ≡ true)
        × ((j : ℕ) → offset ≤ j → j < k → Skipped model ws start j))

module _ (model : ModelSpec) (ws : List WorkerSnapshot) (start : ℕ) where
  first_or_later :
      (offset j : ℕ)
      → Skipped model ws start offset
      → offset ≤ j
      → (offset + 1 ≤ j → Skipped model ws start j)
      → Skipped model ws start j
  first_or_later offset j h le later = elim (ℕ_discrete offset j) [
    | yes e ↦ subst (Skipped model ws start) e h
    | no n ↦ later (omega arith)
  ]

  Scanned-skip :
      (rounds offset : ℕ) (o : Option (ℕ × WorkerSnapshot))
      → Skipped model ws start offset
      → Scanned model ws start rounds (offset + 1) o
      → Scanned model ws start (suc rounds) offset o
  Scanned-skip rounds offset o h (inl (e, all)) =
      inl (e, λ j le lt. first_or_later offset j h le (λ le'. all j le' (omega arith)))
  Scanned-skip rounds offset o h (inr (k, w, e, le, lt, at, t, before)) = inr (
    k,
    w,
    e,
    omega arith,
    omega arith,
    at,
    t,
    λ j jle jlt. first_or_later offset j h jle (λ le'. before j le' jlt),
  )

  scan_absent :
      (rounds offset : ℕ)
      → get_elem? ws ((start + offset) % length ws) ≡ none
      → scan model ws start (suc rounds) offset ≡ scan model ws start rounds (offset + 1)
  unfolding scan
  scan_absent rounds offset e = ground arith

  scan_infeasible :
      (rounds offset : ℕ) (w : WorkerSnapshot)
      → get_elem? ws ((start + offset) % length ws) ≡ some w
      → is_m2_feasible model w ≡ false
      → scan model ws start (suc rounds) offset ≡ scan model ws start rounds (offset + 1)
  unfolding scan
  scan_infeasible rounds offset w e f = ground arith

  scan_hit :
      (rounds offset : ℕ) (w : WorkerSnapshot)
      → get_elem? ws ((start + offset) % length ws) ≡ some w
      → is_m2_feasible model w ≡ true
      → scan model ws start (suc rounds) offset ≡ some ((start + offset) % length ws, w)
  unfolding scan
  scan_hit rounds offset w e t = ground arith

  pub scan-Scanned :
      (rounds offset : ℕ) → Scanned model ws start rounds offset (scan model ws start rounds offset)
  scan-Scanned zero offset = inl (unfold scan in refl, λ j h k. absurd (omega arith))
  scan-Scanned (suc rounds) offset =
      elim (Option-cases (get_elem? ws ((start + offset) % length ws))) [
        | inl e ↦ rw (scan_absent rounds offset e) (
            Scanned-skip rounds offset _ (λ w q. absurd (none-ne-some w (sym e ∙ q)))
              (scan-Scanned rounds (offset + 1)))
        | inr (w, e) ↦ elim (Bool-cases (is_m2_feasible model w)) [
          | inl t ↦ inr (
            offset,
            w,
            scan_hit rounds offset w e t,
            omega arith,
            omega arith,
            e,
            t,
            λ j h k. absurd (omega arith),
          )
          | inr f ↦ rw (scan_infeasible rounds offset w e f) (
              Scanned-skip rounds offset _
                (λ w' q.
                  subst (λ x. is_m2_feasible model x ≡ false) (some-injective w w' (sym e ∙ q)) f)
                (scan-Scanned rounds (offset + 1)))
        ]
      ]

-- The index that the router starts from.
abbrev pub start_of : List WorkerSnapshot → ℕ → ℕ
start_of ws next_index = if leb (length ws) next_index then 0 else next_index

-- The router names the first feasible worker in cyclic order from its index on (those before it
-- are not feasible), and its next index is the one behind it and in range; or no worker within
-- a whole round is feasible, and it refuses.
pub round_robin_lem :
    (model : ModelSpec) (ws : List WorkerSnapshot) (next_index : ℕ)
    → 0 < length ws
    → let start = start_of ws next_index in
      ((round_robin model ws next_index ≡ (none_feasible, start))
        × ((k : ℕ) → k < length ws → Skipped model ws start k))
      ⊎ ((k : ℕ) × (w : WorkerSnapshot) × (get_elem? ws ((start + k) % length ws) ≡ some w)
          × (is_m2_feasible model w ≡ true)
          × (k < length ws)
          × ((j : ℕ) → j < k → Skipped model ws start j)
          × (round_robin model ws next_index
              ≡ (found w.worker_id, ((start + k) % length ws + 1) % length ws))
          × ((round_robin model ws next_index).1 < length ws))
unfolding round_robin
round_robin_lem model [] next_index h = elim h [ ]
round_robin_lem model (x ∷ xs) next_index h =
    let ws : List WorkerSnapshot = x ∷ xs in
    let start : ℕ = start_of ws next_index in
    elim (scan-Scanned model ws start (length ws) 0) [
      | inl (e, all) ↦
          inl (ap (chosen start (length ws)) e, λ k lt. all k (omega arith) (omega arith))
      | inr (k, w, e, _, lt, at, t, before) ↦
          let q = ap (chosen start (length ws)) e in
          inr (
            k,
            w,
            at,
            t,
            omega arith,
            (λ j jlt. before j (omega arith) jlt),
            q,
            rw (ap (λ r. r.1) q) (omega arith),
          )
    ]

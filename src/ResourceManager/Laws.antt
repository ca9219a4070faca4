-- ===== src/ResourceManager/Laws.antt =====
-- The 64-bit budget arithmetic is exact: no call under- or overflows.
use adaptive_ai_inference_ru.Prelude.{
  ℕ, ◌+◌, ◌^◌, ◌≤◌, ◌<◌, ◌≡◌, refl, ◌↔◌, true, List, [], ◌∷◌, arith, ◌∙◌, if◌then◌else◌,
}
use adaptive_ai_inference_ru.Status.{Status, ok}
use adaptive_ai_inference_ru.ResourceManager.{
  ResourceManager, make, available, can_reserve, reserve, release,
}

-- A budget of 64 bits, and no more used than it allows.
pub record IsWithin (r : ResourceManager) : Type 0 where
  pub fits : r.budget < 2 ^ 64
  pub within : r.used ≤ r.budget

-- Within the budget, a reservation is granted exactly if it fits in what is left, and adds to what
-- is used with no wrap-around; a refused one changes nothing.
reserve_exact :
    (bytes : ℕ) (r : ResourceManager)
    → IsWithin r
    → ((ok (reserve bytes r).0 ≡ true) ↔ (r.used + bytes ≤ r.budget))
      × ((reserve bytes r).1.used ≡ (if ok (reserve bytes r).0 then r.used + bytes else r.used))
      × (ok (reserve bytes r).0 ≡ can_reserve bytes r)
unfolding reserve can_reserve
reserve_exact bytes r w = ((λ h. ground arith, λ h. ground arith), ground arith, ground arith)

-- Any sequence of reservations and releases.
pub data Op : Type 0 where
  reserve_op release_op : ℕ → Op

unfoldable pub step : ResourceManager → Op → Status × ResourceManager
unfolding reserve release
step r (reserve_op n) = reserve n r
step r (release_op n) = release n r

unfoldable pub run : ResourceManager → List Op → ResourceManager
run r [] = r
run r (o ∷ os) = run (step r o).1 os

-- What a command takes, and gives back, if it succeeds.
abbrev pub taken : ResourceManager → Op → ℕ
taken r (release_op n) = 0
taken r (reserve_op n) = if ok (reserve n r).0 then n else 0

abbrev pub given : ResourceManager → Op → ℕ
given r (reserve_op n) = 0
given r (release_op n) = if ok (release n r).0 then n else 0

abbrev pub reserved : ResourceManager → List Op → ℕ
reserved r [] = 0
reserved r (o ∷ os) = taken r o + reserved (step r o).1 os

abbrev pub released : ResourceManager → List Op → ℕ
released r [] = 0
released r (o ∷ os) = given r o + released (step r o).1 os

step_balance :
    (r : ResourceManager) (o : Op)
    → IsWithin r
    → IsWithin (step r o).1
      × ((step r o).1.used + given r o ≡ r.used + taken r o)
      × ((step r o).1.budget ≡ r.budget)
unfolding step
step_balance r (reserve_op n) w = ground arith
step_balance r (release_op n) w = ground arith

run_balance :
    (r : ResourceManager) (os : List Op)
    → IsWithin r
    → IsWithin (run r os)
      × ((run r os).used + released r os ≡ r.used + reserved r os)
      × ((run r os).budget ≡ r.budget)
unfolding run
run_balance r [] w = (w, refl, refl)
run_balance r (o ∷ os) w =
    let (v, e, b) = step_balance r o w in
    let (v', e', b') = run_balance (step r o).1 os v in (v', omega arith, b' ∙ b)

-- From a fresh manager with a 64-bit budget, after any calls: the memory used is what the
-- successful reservations took less what the successful releases gave back, it stays within the
-- budget, and `available` is the exact rest.
pub run-make-balance :
    (budget : ℕ) (os : List Op)
    → budget < 2 ^ 64
    → let r = run (make budget) os in
      (r.used + released (make budget) os ≡ reserved (make budget) os)
      × (r.used ≤ budget)
      × (available r + r.used ≡ budget)
unfolding make available
run-make-balance budget os h =
    let (v, e, b) = run_balance (make budget) os (record { fits = h; within = omega arith }) in
    (omega arith, omega (arith, v.within, b), omega (arith, v.within, v.fits, b))

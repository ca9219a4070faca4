-- ===== src/ResourceManager/Tests.antt =====
-- Runs of the budget, and its theorems at concrete inputs.
use adaptive_ai_inference_ru.Prelude.{◌+◌, ◌≤◌, ◌≡◌, refl, List, [], ◌∷◌, arith}
use adaptive_ai_inference_ru.ResourceManager.{
  ResourceManager, make, available, reserve, cannot_reserve, over_release, release,
}
use adaptive_ai_inference_ru.ResourceManager.Laws.{
  Op, reserve_op, release_op, run, reserved, released, run-make-balance,
}

abbrev half_used : ResourceManager
half_used = record { budget = 100; used = 50 }

refuses : (reserve 51 half_used).0 ≡ cannot_reserve
unfolding reserve
refuses = refl

refuses_release : (release 51 half_used).0 ≡ over_release
unfolding release
refuses_release = refl

abbrev calls : List Op
calls = reserve_op 60 ∷ reserve_op 50 ∷ release_op 20 ∷ reserve_op 50 ∷ release_op 99 ∷ []

run-make-balance_example :
    let r = run (make 100) calls in
    (r.used + released (make 100) calls ≡ reserved (make 100) calls)
    × (r.used ≤ 100)
    × (available r + r.used ≡ 100)
run-make-balance_example = run-make-balance 100 calls (omega arith)

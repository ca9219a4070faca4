-- ===== src/World.antt =====
-- Calls on shared requests while other threads act. Before each call of a method the other threads
-- do what the moment says, and the moment has the reading of the clock, if the call makes one.
-- `check_dead` is `is_dead_request` of src/worker.cpp and src/workload_aware_scheduler.cpp.
pub mod Later
pub mod Dead
pub mod Calm
use adaptive_ai_inference_ru.Prelude.{
  ℕ, ◌+◌, Bool, true, false, Option, none, some, List, [], ◌∷◌, if◌then◌else◌,
}
use adaptive_ai_inference_ru.Request.{
  InferenceRequest, Outcome, is_terminal, try_timeout_if_expired,
}
use adaptive_ai_inference_ru.Store.{Ref, RequestPtr, Store, apply}

pub record Moment : Type 0 where
  pub now : ℕ
  pub others : Store → Store

-- The store, and how many moments have passed.
pub record World : Type 0 where
  pub store : Store
  pub time : ℕ

-- A method that only reads the object.
abbrev pub reading : {A : Type 0} → (InferenceRequest → A) → InferenceRequest → Outcome A
reading f x = record { request = x; calls = []; woken = false; value = f x }

module _ (moments : ℕ → Moment) where
  unfoldable pub call : {A : Type 0} → (InferenceRequest → Outcome A) → Ref → World → A × World
  call f r w =
      let done = apply f r ((moments w.time).others w.store) in
      (done.0, record { store = done.1; time = w.time + 1 })

  abbrev pub ask : {A : Type 0} → (InferenceRequest → A) → Ref → World → A × World
  ask f r w = call (reading f) r w

  unfoldable pub check_dead : RequestPtr → World → Bool × World
  check_dead none w = (true, w)
  check_dead (some r) w =
      let (dead, w1) = ask is_terminal r w in
      let w2 = (call (try_timeout_if_expired (moments w1.time).now) r w1).1 in
      if dead then (true, w1) else ask is_terminal r w2

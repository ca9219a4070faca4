-- ===== src/Admission.antt =====
-- src/admission_controller.cpp: `AdmissionController::admit` over any scheduler. The threads that
-- share the request may use it between the calls that `admit` makes: `Others` lists what they do.
pub mod Laws
mod Tests
use adaptive_ai_inference_ru.Prelude.{
  ℕ, Bool, true, false, none, some, List, if◌then◌else◌, ◌==◌, String,
}
use adaptive_ai_inference_ru.Status.{ErrorCode, Status, ok, success, error}
use adaptive_ai_inference_ru.Request.{
  queued, InferenceRequest, Outcome, is_terminal, transition_to, try_reject, try_timeout_if_expired,
}
use adaptive_ai_inference_ru.Request.Ops.{Op, run}
use adaptive_ai_inference_ru.Store.{Ref, RequestPtr, Store, apply}
use adaptive_ai_inference_ru.Scheduler.{IRequestScheduler}
use Prim.Native.String.{len}

-- What other threads do with the request before the calls named.
pub record Others : Type 0 where
  pub before_is_terminal : List Op
  pub before_transition_to : List Op
  pub before_enqueue : List Op
  pub before_try_reject : List Op

abbrev run_all : List Op → InferenceRequest → Outcome (Unit {0})
run_all ops x = record { request = (run x ops).0; calls = (run x ops).1; woken = false; value = tt }

unfoldable pub meanwhile : List Op → Ref → Store → Store
meanwhile ops r st = (apply (run_all ops) r st).1

unfoldable pub is_queue_closed : ErrorCode → Bool
is_queue_closed ErrorCode.queue_closed = true
is_queue_closed _ = false

unfoldable pub reject_status : Status → Status
reject_status e =
    error (if is_queue_closed e.code then ErrorCode.runtime_stopped else e.code)
      (if len e.message == 0 then "request rejected by admission" else e.message)

-- The answer of `admit`, the store and the scheduler.
abbrev pub Answer : Type 0 → Type 0
Answer S = Status × Store × S

-- After a failed `enqueue`.
unfoldable pub refuse : {S : Type 0} → Ref → Status → Store → S → Answer S
refuse r e st s =
    let (rejected, st') = apply (try_reject e) r st in
    (
      (if rejected then e else error ErrorCode.invalid_state_transition "request already terminal"),
      st',
      s,
    )

module _ {S : Type 0} (scheduler : IRequestScheduler S) where
  unfoldable pub enqueue_or_refuse : Others → Ref → Store → S → Answer S
  enqueue_or_refuse others r st s =
      let (enqueued, s') = scheduler.enqueue (some r) st s in
      if ok enqueued
      then (success, st, s')
      else refuse r (reject_status enqueued) (meanwhile others.before_try_reject r st) s'

  unfoldable pub admit_live : Others → Ref → Store → S → Answer S
  admit_live others r st s =
      let (moved, st') = apply (transition_to queued) r st in
      if ok moved
      then enqueue_or_refuse others r (meanwhile others.before_enqueue r st') s
      else (moved, st', s)

  unfoldable pub admit : Others → ℕ → RequestPtr → Store → S → Answer S
  admit others now none st s = (error ErrorCode.internal_error "null request", st, s)
  admit others now (some r) st s =
      let st' = meanwhile others.before_is_terminal r (apply (try_timeout_if_expired now) r st).1 in
      if is_terminal (st'.requests r)
      then (success, st', s)
      else admit_live others r (meanwhile others.before_transition_to r st') s

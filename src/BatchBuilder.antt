-- ===== src/BatchBuilder.antt =====
-- src/batch_builder.cpp and include/airuntime/batch_builder.hpp: how a worker forms a batch. What
-- `form` calls is a record of operations on a state of the caller's; the pointers that it pops are
-- not null (a null pointer would be dereferenced, and a lane holds none). Durations are not negative.
pub mod Laws
mod Tests
use adaptive_ai_inference_ru.Prelude.{
  ℕ, zero, suc, ◌+◌, ◌-◌, min, Bool, true, false, Option, none, some, List, [], ◌∷◌, ◌++◌,
  if◌then◌else◌, ltb, ◌==◌,
}
use adaptive_ai_inference_ru.Prelude.Bytes.{Bytes, bytes_eq}
use adaptive_ai_inference_ru.Request.{InferenceRequest}
use adaptive_ai_inference_ru.Store.{Ref, RequestPtr}

pub record BatchBuilderConfig : Type 0 where
  pub max_batch_size : ℕ
  pub max_batch_wait : ℕ

pub record FormedBatch : Type 0 where
  pub requests : List Ref
  pub deferred : Option Ref

-- `pop_until` and `on_extra_request`, where that is given, and the requests as they are in a state.
pub record Lane (S : Type 0) : Type 0 where
  pub requests : S → Ref → InferenceRequest
  pub pop_until : ℕ → S → Option Ref × S
  pub on_extra_request : Option (Ref → S → Bool × S)

-- `none`: the constructor throws `std::invalid_argument`.
unfoldable pub make : BatchBuilderConfig → Option BatchBuilderConfig
make config = if ltb config.max_batch_size 1 then none else some config

abbrev earlier : Option ℕ → Option ℕ → Option ℕ
earlier none earliest = earliest
earlier (some d) none = some d
earlier (some d) (some e) = if ltb d e then some d else some e

-- The loop of `earliest_deadline`, with what it has found so far.
unfoldable pub earliest_from : (Ref → InferenceRequest) → List Ref → Option ℕ → Option ℕ
earliest_from requests [] earliest = earliest
earliest_from requests (r ∷ rs) earliest =
    earliest_from requests rs (earlier (requests r).deadline earliest)

unfoldable pub earliest_deadline : (Ref → InferenceRequest) → List Ref → Option ℕ
earliest_deadline requests rs = earliest_from requests rs none

abbrev min_deadline : ℕ → Option ℕ → ℕ
min_deadline wait_deadline none = wait_deadline
min_deadline wait_deadline (some d) = min wait_deadline d

-- The lambda `compute_deadline`: it reads the clock once, and again if it must not wait.
unfoldable pub compute_deadline :
    BatchBuilderConfig → Bool → (ℕ → ℕ) → (Ref → InferenceRequest) → List Ref → ℕ
compute_deadline config allow_wait clock requests rs =
    if allow_wait
    then min_deadline (clock 0 + config.max_batch_wait) (earliest_deadline requests rs)
    else clock 1

-- The readings of the clock behind those of one `compute_deadline`.
abbrev later : Bool → (ℕ → ℕ) → ℕ → ℕ
later allow_wait clock i = if allow_wait then clock (i + 1) else clock (i + 2)

abbrev check_extra : {S : Type 0} → Option (Ref → S → Bool × S) → Ref → S → Bool × S
check_extra none r s = (true, s)
check_extra (some f) r s = f r s

module _ {S : Type 0} (config : BatchBuilderConfig) (lane : Lane S) (allow_wait : Bool)
    (model_id : Bytes) where
  -- What becomes of a request that was popped: whether it joins, and the state.
  unfoldable pub joins : Ref → S → Bool × S
  joins r s =
      let (accepted, s') = check_extra lane.on_extra_request r s in
      (if accepted then bytes_eq (lane.requests s' r).model_id model_id else false, s')

  -- The loop of `form`, by the room that is left in the batch.
  unfoldable pub collect : ℕ → (ℕ → ℕ) → List Ref → S → FormedBatch × S
  collect zero clock rs s = (record { requests = rs; deferred = none }, s)
  collect (suc room) clock rs s =
      let deadline = compute_deadline config allow_wait clock (lane.requests s) rs in
      elim ((lane.pop_until deadline s).0) [
        | none ↦ (record { requests = rs; deferred = none }, (lane.pop_until deadline s).1)
        | some r ↦ elim ((joins r (lane.pop_until deadline s).1).0) [
          | true ↦
              collect room (later allow_wait clock) (rs ++ (r ∷ []))
                (joins r (lane.pop_until deadline s).1).1
          | false ↦ (
            record { requests = rs; deferred = some r },
            (joins r (lane.pop_until deadline s).1).1,
          )
        ]
      ]

unfoldable pub form :
    {S : Type 0} → BatchBuilderConfig → Lane S → Bool → (ℕ → ℕ) → RequestPtr → S → FormedBatch × S
form config lane allow_wait clock none s = (record { requests = []; deferred = none }, s)
form config lane allow_wait clock (some first) s =
    collect config lane allow_wait (lane.requests s first).model_id (config.max_batch_size - 1)
      clock (first ∷ []) s

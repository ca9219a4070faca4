-- ===== src/BatchBuilder/Tests.antt =====
-- Batches from a lane that is a list of requests: two of one model, then one of another.
use adaptive_ai_inference_ru.Prelude.{
  ℕ, suc, ◌+◌, ◌≤◌, ◌≡◌, refl, true, not, Option, none, some, List, [], ◌∷◌, ◌++◌, All, length,
  ◌==◌,
}
use adaptive_ai_inference_ru.Prelude.Bytes.{Bytes, bytes, bytes_eq}
use adaptive_ai_inference_ru.Request.{InferenceRequest, new}
use adaptive_ai_inference_ru.Store.{Ref}
use adaptive_ai_inference_ru.BatchBuilder.{
  BatchBuilderConfig, Lane, make, form, collect, joins, compute_deadline, earliest_deadline,
  earliest_from,
}
use adaptive_ai_inference_ru.BatchBuilder.Laws.{logged, deferred_list, form-bounds, form-log}

-- The third request is for another model.
abbrev model_of : Ref → Bytes
model_of (suc (suc (suc r))) = bytes "b"
model_of r = bytes "a"

abbrev at : Ref → InferenceRequest
unfolding new
at r = record (new (bytes "r") (model_of r) (bytes "hi") 16) { deadline = some 40 }

abbrev pop : List Ref → Option Ref × List Ref
pop [] = (none, [])
pop (r ∷ rs) = (some r, rs)

abbrev queue : Lane (List Ref)
queue = record { requests = λ s. at; pop_until = λ deadline s. pop s; on_extra_request = none }

-- As `queue`, but request 2 is dead when it is popped.
abbrev queue_with_dead : Lane (List Ref)
queue_with_dead = record queue { on_extra_request = some (λ r s. (not (r == 2), s)) }

abbrev config : BatchBuilderConfig
config = record { max_batch_size = 4; max_batch_wait = 5 }

abbrev clock : ℕ → ℕ
clock i = i + 30

stops_at_another_model :
    (form config queue true clock (some 1) (2 ∷ 3 ∷ 4 ∷ [])).0
    ≡ record { requests = 1 ∷ 2 ∷ []; deferred = some 3 }
unfolding form collect joins compute_deadline earliest_deadline earliest_from bytes_eq at
stops_at_another_model = refl

stops_at_a_dead_one :
    (form config queue_with_dead true clock (some 1) (2 ∷ 3 ∷ [])).0
    ≡ record { requests = 1 ∷ []; deferred = some 2 }
unfolding form collect joins compute_deadline earliest_deadline earliest_from bytes_eq at
stops_at_a_dead_one = refl

stops_when_full :
    (form (record config { max_batch_size = 1 }) queue true clock (some 1) (2 ∷ [])).0
    ≡ record { requests = 1 ∷ []; deferred = none }
unfolding form collect joins compute_deadline earliest_deadline earliest_from bytes_eq at
stops_when_full = refl

waits_to_the_first_deadline : compute_deadline config true (λ i. 38) at (1 ∷ 2 ∷ []) ≡ 40
unfolding compute_deadline earliest_deadline earliest_from at
waits_to_the_first_deadline = refl

form-bounds_example :
    let batch = (form config queue true clock (some 1) (2 ∷ 3 ∷ 4 ∷ [])).0 in
    (length batch.requests ≤ 4) × All (λ r. model_of r ≡ model_of 1) batch.requests
unfolding make at
form-bounds_example =
    form-bounds config queue true clock 1 (2 ∷ 3 ∷ 4 ∷ []) model_of refl (λ s r. refl)

form-log_example :
    let (batch, s') = form config (logged queue) true clock (some 1) (2 ∷ 3 ∷ 4 ∷ [], []) in
    ◌≡◌ {A = List Ref} (batch.requests ++ deferred_list batch.deferred) (1 ∷ s'.1)
form-log_example = form-log config queue true clock 1 (2 ∷ 3 ∷ 4 ∷ [])

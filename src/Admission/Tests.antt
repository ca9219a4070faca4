-- ===== src/Admission/Tests.antt =====
-- Admission to a first-in first-out scheduler with room for one request, with and without a
-- cancellation meanwhile.
use adaptive_ai_inference_ru.Prelude.{◌≡◌, refl, true, false, some, [], ◌∷◌}
use adaptive_ai_inference_ru.Prelude.Bytes.{bytes}
use adaptive_ai_inference_ru.Status.{ErrorCode, error}
use adaptive_ai_inference_ru.Request.{
  rejected, new, is_terminal, is_valid_transition, try_timeout_if_expired, transition_to,
  try_reject,
}
use adaptive_ai_inference_ru.Request.Ops.{cancel_op, run}
use adaptive_ai_inference_ru.BoundedQueue.{try_push}
use adaptive_ai_inference_ru.Store.{Store, apply}
use adaptive_ai_inference_ru.Scheduler.{FifoScheduler, fifo}
use adaptive_ai_inference_ru.Admission.{
  Others, meanwhile, refuse, reject_status, is_queue_closed, enqueue_or_refuse, admit_live, admit,
}
use adaptive_ai_inference_ru.Admission.Laws.{Admitted, admit-Admitted}

abbrev st : Store
unfolding new
st = record { requests = λ r. new (bytes "r") (bytes "m") (bytes "hi") 16; calls = [] }

abbrev empty : FifoScheduler
empty = record { capacity = 1; queue = []; closed = false }

abbrev alone : Others
alone = record {
  before_is_terminal = [];
  before_transition_to = [];
  before_enqueue = [];
  before_try_reject = [];
}

abbrev cancelling : Others
cancelling = record alone { before_enqueue = cancel_op ∷ [] }

accepts : (admit fifo alone 5 (some 7) st empty).2 ≡ record empty { queue = some 7 ∷ [] }
unfolding admit admit_live enqueue_or_refuse meanwhile run apply try_timeout_if_expired is_terminal
    transition_to is_valid_transition try_push st
accepts = refl

closed_is_rejected :
    (admit fifo alone 5 (some 7) st (record empty { closed = true })).0
    ≡ error ErrorCode.runtime_stopped "queue is closed"
unfolding admit admit_live enqueue_or_refuse meanwhile run apply try_timeout_if_expired is_terminal
    transition_to is_valid_transition try_push refuse reject_status is_queue_closed try_reject st
closed_is_rejected = refl

full_is_rejected :
    ((admit fifo alone 5 (some 7) st (record empty { queue = some 1 ∷ [] })).1.requests 7).state
    ≡ rejected
unfolding admit admit_live enqueue_or_refuse meanwhile run apply try_timeout_if_expired is_terminal
    transition_to is_valid_transition try_push refuse reject_status is_queue_closed try_reject st
full_is_rejected = refl

admit-Admitted_example : Admitted fifo 7 empty (admit fifo cancelling 5 (some 7) st empty)
unfolding st
admit-Admitted_example = admit-Admitted fifo cancelling 5 7 st empty (tt, tt, (tt, tt), tt) refl

-- ===== src/WorkloadAware/Tests.antt =====
-- A scheduler for requests of two models, while another thread cancels request 2.
use adaptive_ai_inference_ru.Prelude.{
  ℕ, ◌+◌, ◌≡◌, refl, ◌⊎◌, true, ◌||◌, ◌==◌, if◌then◌else◌, some, none, Option, List, [], ◌∷◌, ltb,
  arith,
}
use adaptive_ai_inference_ru.Prelude.Bytes.{bytes, bytes_eq, bytes_lt}
use adaptive_ai_inference_ru.Prelude.Assoc.{lookup, insert}
use adaptive_ai_inference_ru.Request.{
  queued, new, try_cancel, is_terminal, is_valid_transition, try_timeout_if_expired,
}
use adaptive_ai_inference_ru.Scheduler.{Next, item, finished}
use adaptive_ai_inference_ru.Store.{Ref, apply}
use adaptive_ai_inference_ru.World.{Moment, World, call, check_dead}
use adaptive_ai_inference_ru.World.Later.{AreQuiet, IsEnded, apply-Advances, cancel-Later}
use adaptive_ai_inference_ru.WorkloadAware.{
  Lanes, WorkloadAwareScheduler, new as new_scheduler, make, enqueue, push_entry, close, erase,
  store_queue, tally, tally_queue,
}
use adaptive_ai_inference_ru.WorkloadAware.Select.{
  Step, stop, again, choose_entry, each_model, each_live, starved_entry, starved_queue,
  unless_starved, best_group, better_queue, better_of, better_group, count_live, next, select, step,
  step_pruned, prune, prune_models, prune_queue, oldest_seq, older_front, take, take_from,
  take_entry, drop_dead_at, drop_dead, remove_at, dispatch, bypass_models, bypass_queue, resume,
  answer_of,
}
use adaptive_ai_inference_ru.WorkloadAware.Lanes.{Distinct}
use adaptive_ai_inference_ru.WorkloadAware.Losses.{one}
use adaptive_ai_inference_ru.WorkloadAware.Handed.{IsScheduler}
use adaptive_ai_inference_ru.WorkloadAware.Laws.{Waits}
use adaptive_ai_inference_ru.WorkloadAware.Histories.{
  Op, enqueue_op, next_op, close_op, Log, run, times_accepted, times_given, run_accounts,
}
use adaptive_ai_inference_ru.WorkloadAware.Starvation.{AreBehind, IsFirst, choose_entry-IsFirst}

-- Request 2 is cancelled before every call.
abbrev cancelling : ℕ → Moment
cancelling i = record { now = i; others = λ st. (apply try_cancel 2 st).1 }

cancelling-AreQuiet : AreQuiet cancelling
cancelling-AreQuiet i st = apply-Advances try_cancel 2 st cancel-Later

-- Requests 0 and 2 are for the model "a", the others for "b".
abbrev world : World
unfolding new
world = record {
  store = record {
    requests = λ r.
        record (new (bytes "r") (if (r == 0) || (r == 2) then bytes "a" else bytes "b") (bytes "hi")
          16) { state = queued };
    calls = [];
  };
  time = 0;
}

abbrev calls : List Op
calls =
    enqueue_op 0
    ∷ enqueue_op 1
    ∷ enqueue_op 2
    ∷ enqueue_op 3
    ∷ enqueue_op 4
    ∷ next_op
    ∷ close_op
    ∷ next_op
    ∷ next_op
    ∷ next_op
    ∷ []

abbrev answers_of : Option Log → List Next
answers_of none = []
answers_of (some l) = l.answers

-- The larger group goes first; once its first entry is out, the other model's is starved.
calls_answers :
    answers_of (run cancelling calls (new_scheduler 4 1) world)
    ≡ item (some 1) ∷ item (some 0) ∷ item (some 3) ∷ finished ∷ []
unfolding run next select step step_pruned prune prune_models prune_queue oldest_seq older_front
    each_model each_live choose_entry starved_queue starved_entry unless_starved best_group
    better_queue better_of better_group count_live take take_from take_entry drop_dead_at drop_dead
    remove_at dispatch bypass_models bypass_queue resume answer_of enqueue push_entry close erase
    store_queue tally tally_queue call check_dead apply try_cancel try_timeout_if_expired
    is_terminal is_valid_transition lookup insert bytes_eq bytes_lt world
calls_answers = refl

-- With nothing left but a cancelled request, `next` ends although the scheduler is open.
ends_open :
    answers_of (run cancelling (enqueue_op 2 ∷ next_op ∷ []) (new_scheduler 4 1) world)
    ≡ finished ∷ []
unfolding run next select step step_pruned prune prune_models prune_queue oldest_seq older_front
    each_model each_live choose_entry starved_queue starved_entry unless_starved best_group
    better_queue better_of better_group count_live take take_from take_entry drop_dead_at drop_dead
    remove_at dispatch bypass_models bypass_queue resume answer_of enqueue push_entry close erase
    store_queue tally tally_queue call check_dead apply try_cancel try_timeout_if_expired
    is_terminal is_valid_transition lookup insert bytes_eq bytes_lt world
ends_open = refl

-- Request 2 is cancelled from the moment on at which the entry to hand out has been chosen.
abbrev cancelling_late : ℕ → Moment
cancelling_late i = record {
  now = i;
  others = λ st. if ltb i 21 then st else (apply try_cancel 2 st).1;
}

abbrev one_starved : WorkloadAwareScheduler
one_starved = record (new_scheduler 4 2) {
  by_model =
      (
        bytes "a",
        record { request = 0; enqueue_sequence = 4; bypass_count = 0 }
            ∷ record { request = 2; enqueue_sequence = 1; bypass_count = 5 }
            ∷ record { request = 5; enqueue_sequence = 6; bypass_count = 0 }
            ∷ [],
      )
      ∷ [];
  size = 3;
}

abbrev promoted : Step → Option Ref × ℕ
promoted (stop r s w) = (r, s.metrics.starvation_promotions)
promoted (again s w) = (none, 0)

-- The entry behind the starved one is handed out in its place, and counted as starved.
promotes_another : promoted (step cancelling_late one_starved world) ≡ (some 5, 1)
unfolding run next select step step_pruned prune prune_models prune_queue oldest_seq older_front
    each_model each_live choose_entry starved_queue starved_entry unless_starved best_group
    better_queue better_of better_group count_live take take_from take_entry drop_dead_at drop_dead
    remove_at dispatch bypass_models bypass_queue resume answer_of enqueue push_entry close erase
    store_queue tally tally_queue call check_dead apply try_cancel try_timeout_if_expired
    is_terminal is_valid_transition lookup insert bytes_eq bytes_lt world
promotes_another = refl

run_accounts_example :
    (l : Log) × (run cancelling calls (new_scheduler 4 1) world ≡ some l)
    × IsScheduler l.scheduler
    × ((j : Ref)
        → IsEnded (l.world.store.requests j)
          ⊎ (times_accepted j l.accepted
              ≡ tally (one j) l.scheduler.by_model + times_given j l.answers))
    × ((o : Next × WorkloadAwareScheduler × World) × (next cancelling l.scheduler l.world ≡ some o)
        × Waits l.scheduler l.world o)
unfolding make
run_accounts_example =
    run_accounts cancelling cancelling-AreQuiet 4 1 calls (new_scheduler 4 1) world (omega arith)
      refl

abbrev lanes : Lanes
lanes =
    (
      bytes "a",
      record { request = 0; enqueue_sequence = 4; bypass_count = 0 }
          ∷ record { request = 2; enqueue_sequence = 1; bypass_count = 5 }
          ∷ [],
    )
    ∷ (
      bytes "b",
      record { request = 1; enqueue_sequence = 3; bypass_count = 2 }
          ∷ record { request = 3; enqueue_sequence = 2; bypass_count = 2 }
          ∷ [],
    )
    ∷ []

-- Request 2 is the oldest that is starved, but it is cancelled.
lanes_choice :
    (choose_entry cancelling 2 lanes world).0
    ≡ some (record { model = bytes "b"; index = 1; starvation = true })
unfolding each_model each_live choose_entry starved_queue starved_entry unless_starved call
    check_dead apply try_cancel try_timeout_if_expired is_terminal is_valid_transition world
lanes_choice = refl

lanes-Distinct : Distinct lanes
unfolding Distinct bytes_eq
lanes-Distinct = ((refl, tt), (tt, tt))

choose_entry-IsFirst_example :
    (let (c, w') = choose_entry cancelling 2 lanes world in
      (n : ℕ) × AreBehind 2 n w'.store lanes × IsFirst lanes 2 n c)
choose_entry-IsFirst_example =
    choose_entry-IsFirst cancelling cancelling-AreQuiet lanes 2 world lanes-Distinct

-- ===== src/Worker/Enqueue.antt =====
-- What becomes of a request that is given to a worker.
use mathlib.Core.Option.{none-ne-some, some-injective}
use adaptive_ai_inference_ru.Prelude.{
  ℕ, if_cases, Bool-cases, ◌+◌, ◌≤◌, ◌<◌, ◌++◌, leb→le, [], ◌∷◌, ◌≡◌, refl, subst, ap, ◌∙◌, ◌⊎◌,
  inl, inr, true, false, not, ◌&&◌, none, some, List, arith, leb, length, u64, Option,
}
use adaptive_ai_inference_ru.Status.{Status, success}
use adaptive_ai_inference_ru.Request.{
  is_terminal, try_timeout, InferenceRequest, is_valid_transition,
}
use adaptive_ai_inference_ru.BoundedQueue.{
  BoundedQueue, WakeUp, try_push, wait_push_until, push_timeout_error, queue_closed_error,
  queue_full_error,
}
use adaptive_ai_inference_ru.BoundedQueue.Waits.{
  Seen, states, Reaches-Seen, wait_push_until-try_push,
}
use adaptive_ai_inference_ru.Store.{Ref, RequestPtr, Store, is_dead_request}
use adaptive_ai_inference_ru.Store.Dead.{
  apply_self, is_dead_request-Checked, IsPast, dead_why, live_why,
}
use adaptive_ai_inference_ru.Worker.{
  Worker, Enqueued, not_accepting, count_pushed, count_or_timeout, try_enqueue, enqueue_until,
  map_pushed,
}

-- The lane takes the request: it is open and has room, and then the request stands at its end and is
-- counted.
abbrev pub Takes : Ref → Worker → Worker → Type 0
Takes r w w' =
    (w.lane.closed ≡ false)
    × (length w.lane.queue < w.lane.capacity)
    × (w' ≡ record w {
      lane = record (w.lane) { queue = w.lane.queue ++ (some r ∷ []) };
      queued_count = u64 (w.queued_count + 1);
    })

-- The lane takes the request; or it is closed or full, and the answer is that error.
abbrev pub Offered : Ref → Worker → Status → Worker → Type 0
Offered r w status w' =
    ((status ≡ success) × Takes r w w')
    ⊎ ((w.lane.closed ≡ true) × (status ≡ queue_closed_error) × (w' ≡ w))
    ⊎ ((w.lane.closed ≡ false)
        × (w.lane.capacity ≤ length w.lane.queue)
        × (status ≡ queue_full_error)
        × (w' ≡ w))

-- How `try_enqueue` ends, by the request as it was when the call began: refused by a worker that does
-- not accept work; the request was terminal or past its deadline, and is terminal and not pushed; or
-- it was neither, is as it was, and has been offered to the lane.
abbrev pub Entered : ℕ → Ref → Store → Worker → Enqueued → Type 0
Entered now r st w (status, st', w') =
    ((w.accepting ≡ false) × (status ≡ not_accepting) × (st' ≡ st) × (w' ≡ w))
    ⊎ ((w.accepting ≡ true)
        × ((is_terminal (st.requests r) ≡ true) ⊎ IsPast now (st.requests r))
        × (is_terminal (st'.requests r) ≡ true)
        × (status ≡ success)
        × (w' ≡ w))
    ⊎ ((w.accepting ≡ true)
        × (is_terminal (st.requests r) ≡ false)
        × (¬ (IsPast now (st.requests r)))
        × (st'.requests r ≡ st.requests r)
        × Offered r w status w')

count_pushed-Offered :
    (r : Ref) (st : Store) (w : Worker)
    → (let (status, st', w') = count_pushed st w (try_push (some r) w.lane) in
        (st' ≡ st) × Offered r w status w')
unfolding count_pushed try_push
count_pushed-Offered r st w = elim (Bool-cases w.lane.closed) [
  | inl c ↦ rw c (refl, inr (inl (refl, refl, ground arith)))
  | inr o ↦ elim (Bool-cases (leb w.lane.capacity (length w.lane.queue))) [
    | inl full ↦ rw (o, full) (refl, inr (inr (refl, leb→le _ _ full, refl, ground arith)))
    | inr room ↦ rw (o, room) (refl, inl (refl, (refl, ground arith, ground arith)))
  ]
]

-- try_enqueue of a worker that accepts no work refuses and changes nothing. A request that was
-- terminal or past its deadline when the call began is answered with success, is terminal and is not
-- pushed. Any other stays as it was: an open lane with room takes it at the end, it is counted and
-- the answer is success; a closed or full one refuses with that error and nothing changes.
pub try_enqueue-Entered :
    (now : ℕ) (r : Ref) (st : Store) (w : Worker)
    → Entered now r st w (try_enqueue now (some r) st w)
unfolding try_enqueue
try_enqueue-Entered now r st w =
    let (a, b, c, d) = is_dead_request-Checked now r st in
    let dead = (is_dead_request now (some r) st).0 in
    let st' = (is_dead_request now (some r) st).1 in
    if_cases (Entered now r st w) w.accepting _ _
      (λ takes.
        if_cases (Entered now r st w) dead _ _
          (λ gone. inr (inl (takes, dead_why now r st gone, b ∙ gone, refl, refl)))
          (λ live.
            let (l, k, e) = live_why now r st live in
            let (same, offered) = count_pushed-Offered r st' w in
            inr (inr (takes, l, k, ap (λ x. x.requests r) same ∙ e, offered))))
      (λ refuses. inl (refuses, refl, refl, refl))

timeout_ends : (x : InferenceRequest) → is_terminal (try_timeout x).request ≡ true
unfolding try_timeout is_terminal is_valid_transition
timeout_ends x = ground arith

-- How `enqueue_until` ends: refused by a worker that does not accept work; the request is terminal;
-- or the answer and the lane are those of a `try_push` in a state that the thread saw and that is
-- closed or has room.
abbrev pub Placed : Ref → List (WakeUp RequestPtr) → Worker → Enqueued → Type 0
Placed r wakes w (status, st', w') =
    ((w.accepting ≡ false) × (status ≡ not_accepting) × (w' ≡ w))
    ⊎ (is_terminal (st'.requests r) ≡ true)
    ⊎ ((p : BoundedQueue RequestPtr) × Seen p w.lane (states wakes)
        × ((leb p.capacity (length p.queue) && not p.closed) ≡ false)
        × (status ≡ (try_push (some r) p).0)
        × (w'.lane ≡ (try_push (some r) p).1))

count_or_timeout_lem :
    (r : Ref) (st : Store) (w : Worker) (o : Status × BoundedQueue RequestPtr)
    → (let (status, st', w') = count_or_timeout r st w o in
        (status ≡ o.0)
        × (w'.lane ≡ o.1)
        × (o.0 ≡ push_timeout_error → is_terminal (st'.requests r) ≡ true))
unfolding count_or_timeout count_pushed
count_or_timeout_lem r st w (status, lane) =
    ground (arith, apply_self try_timeout r st, timeout_ends (st.requests r))

pushed-Placed :
    (r : Ref) (wakes : List (WakeUp RequestPtr)) (st : Store) (w : Worker)
    (o : Option (Status × BoundedQueue RequestPtr))
    → wait_push_until (some r) w.lane wakes ≡ o
    → (e : Enqueued) → map_pushed o (count_or_timeout r st w) ≡ some e
    → Placed r wakes w e
pushed-Placed r wakes st w none h e q = absurd (none-ne-some e q)
pushed-Placed r wakes st w (some o) h e q =
    let (p, k) = wait_push_until-try_push (some r) w.lane wakes h in
    let (s, l, late) = count_or_timeout_lem r st w o in
    subst (Placed r wakes w) (some-injective (count_or_timeout r st w o) e q) (elim k [
      | inl (reach, same, room) ↦ inr (
          inr (
            p,
            Reaches-Seen w.lane wakes p reach,
            room,
            s ∙ ap (λ x. x.0) same,
            l ∙ ap (λ x. x.1) same,
          ))
      | inr (gave, same) ↦ inr (inl (late (ap (λ x. x.0) same)))
    ])

-- When `enqueue_until` returns, the worker accepts no work, or the request is terminal, or the answer
-- and the lane are those of a `try_push` in a state that the thread saw, closed or with room.
pub enqueue_until-Placed :
    (now : ℕ) (r : Ref) (wakes : List (WakeUp RequestPtr)) (st : Store) (w : Worker) (e : Enqueued)
    → enqueue_until now (some r) wakes st w ≡ some e
    → Placed r wakes w e
unfolding enqueue_until
enqueue_until-Placed now r wakes st w e =
    let (a, b, c, d) = is_dead_request-Checked now r st in
    let st' = (is_dead_request now (some r) st).1 in
    let Goal = λ (o : Option Enqueued). o ≡ some e → Placed r wakes w e in
    if_cases Goal w.accepting _ _
      (λ takes.
        if_cases Goal (is_dead_request now (some r) st).0 _ _
          (λ gone q.
            subst (Placed r wakes w) (some-injective (success, st', w) e q) (inr (inl (b ∙ gone))))
          (λ live q. pushed-Placed r wakes st' w _ refl e q))
      (λ refuses q.
        subst (Placed r wakes w) (some-injective (not_accepting, st, w) e q)
          (inl (refuses, refl, refl)))

-- ===== src/BoundedQueue/Waits.antt =====
-- The blocking methods against `try_push` and the non-blocking pop.
use adaptive_ai_inference_ru.Prelude.{
  ◌≤◌, ◌≡◌, refl, ◌⊎◌, inl, inr, true, false, not, ◌&&◌, Option, none, some, List, [], ◌∷◌, arith,
  length, Bool-cases, leb, ltb, ◌||◌,
}
use adaptive_ai_inference_ru.Status.{Status}
use adaptive_ai_inference_ru.BoundedQueue.{
  BoundedQueue, WakeUp, try_push, wait_push, wait_push_until, wait_pop, push_timeout_error,
  is_empty, pop_front,
}

module _ {ℓ} {T : Type ℓ} where
  -- The states in which the waiting thread looks at the queue: on entry, and at each wake-up.
  abbrev pub Seen : BoundedQueue T → BoundedQueue T → List (BoundedQueue T) → Type ℓ
  Seen p q [] = p ≡ q
  Seen p q (w ∷ ws) = (p ≡ q) ⊎ Seen p w ws

  -- When `wait_push` returns, it has done what `try_push` does in a state that the thread saw,
  -- and that state is closed or has room. So it never reports a full queue.
  pub wait_push-try_push :
      (v : T) (q : BoundedQueue T) (ws : List (BoundedQueue T)) {r : Status × BoundedQueue T}
      → wait_push v q ws ≡ some r
      → (p : BoundedQueue T) × Seen p q ws
        × (r ≡ try_push v p)
        × ((ltb (length p.queue) p.capacity || p.closed) ≡ true)
  unfolding wait_push try_push
  wait_push-try_push v q [] h = (q, refl, ground arith, ground arith)
  wait_push-try_push v q (w ∷ ws) h =
      elim (Bool-cases (ltb (length q.queue) q.capacity || q.closed)) [
        | inl ready ↦ (q, inl refl, ground arith, ready)
        | inr waits ↦
            let (p, seen, e, t) = wait_push-try_push v w ws (ground arith) in (p, inr seen, e, t)
      ]

  -- The front of `p` with the rest left, or nothing of a closed and empty `p`.
  abbrev pub Popped : BoundedQueue T → Option T × BoundedQueue T → Type ℓ
  Popped p (none, q) = (p.queue ≡ []) × (p.closed ≡ true) × (q ≡ p)
  Popped p (some x, q) = (p.queue ≡ x ∷ q.queue) × (q.closed ≡ p.closed) × (q.capacity ≡ p.capacity)

  Popped-ready :
      (p : BoundedQueue T) (xs : List T) {r : Option T × BoundedQueue T}
      → p.queue ≡ xs
      → (not (is_empty xs) || p.closed) ≡ true
      → pop_front xs p ≡ r
      → Popped p r
  Popped-ready p [] {r = (none, q)} e t h = ground arith
  Popped-ready p [] {r = (some x, q)} e t h = ground arith
  Popped-ready p (y ∷ ys) {r = (none, q)} e t h = ground arith
  Popped-ready p (y ∷ ys) {r = (some x, q)} e t h = ground arith

  abbrev pub states : List (WakeUp T) → List (BoundedQueue T)
  states [] = []
  states (w ∷ ws) = w.state ∷ states ws

  -- Full and open, so that a push waits.
  abbrev pub Blocked : BoundedQueue T → Type 0
  Blocked q = (q.capacity ≤ length q.queue) × (q.closed ≡ false)

  -- The thread waits in blocked states until it finds `p`, by wake-ups that report no deadline.
  abbrev pub Reaches : BoundedQueue T → List (WakeUp T) → BoundedQueue T → Type ℓ
  Reaches q [] p = p ≡ q
  Reaches q (w ∷ ws) p = (p ≡ q) ⊎ (Blocked q × (w.timeout ≡ false) × Reaches w.state ws p)

  -- The thread waits in blocked states until a wake-up reports the deadline, and finds `p` there.
  abbrev pub GivesUp : BoundedQueue T → List (WakeUp T) → BoundedQueue T → Type ℓ
  GivesUp q [] p = ¬ (p ≡ p)
  GivesUp q (w ∷ ws) p =
      Blocked q
      × (((w.timeout ≡ true) × (p ≡ w.state)) ⊎ ((w.timeout ≡ false) × GivesUp w.state ws p))

  pub Reaches-Seen :
      (q : BoundedQueue T) (ws : List (WakeUp T)) (p : BoundedQueue T)
      → Reaches q ws p
      → Seen p q (states ws)
  Reaches-Seen q [] p h = h
  Reaches-Seen q (w ∷ ws) p (inl e) = inl e
  Reaches-Seen q (w ∷ ws) p (inr (b, t, h)) = inr (Reaches-Seen w.state ws p h)

  -- When `wait_push_until` returns, either it has waited in full and open states, with no deadline
  -- reported, until it saw one that is closed or has room, and has done there what `try_push` does;
  -- or it has waited in full and open states until a wake-up reported the deadline, reports it too,
  -- and leaves the state of that wake-up as it was.
  pub wait_push_until-try_push :
      (v : T) (q : BoundedQueue T) (ws : List (WakeUp T)) {r : Status × BoundedQueue T}
      → wait_push_until v q ws ≡ some r
      → (p : BoundedQueue T) × ((Reaches q ws p
            × (r ≡ try_push v p)
            × ((leb p.capacity (length p.queue) && not p.closed) ≡ false))
          ⊎ (GivesUp q ws p × (r ≡ (push_timeout_error, p))))
  unfolding wait_push_until try_push
  wait_push_until-try_push v q [] h = (q, inl (refl, ground arith, ground arith))
  wait_push_until-try_push v q (w ∷ ws) {r = r} h =
      elim (Bool-cases (leb q.capacity (length q.queue) && not q.closed)) [
        | inl full ↦
            let blocked : Blocked q = (ground arith, ground arith) in
            elim (Bool-cases w.timeout) [
              | inl late ↦ (w.state, inr ((blocked, inl (late, refl)), ground arith))
              | inr early ↦
                  let (p, e) = wait_push_until-try_push v w.state ws {r = r} (ground arith) in
                  (
                    p,
                    elim e [
                      | inl (reach, same, ready) ↦ inl (inr (blocked, early, reach), same, ready)
                      | inr (gave, same) ↦ inr ((blocked, inr (early, gave)), same)
                    ],
                  )
            ]
        | inr ready ↦ (q, inl (inl refl, ground arith, ready))
      ]

  -- When `wait_pop` returns, it hands out the front of a queue that the thread saw and leaves the
  -- rest, or nothing; and nothing only of a queue that is closed and empty.
  pub wait_pop_lem :
      (q : BoundedQueue T) (ws : List (BoundedQueue T)) {r : Option T × BoundedQueue T}
      → wait_pop q ws ≡ some r
      → (p : BoundedQueue T) × Seen p q ws × Popped p r
  unfolding wait_pop
  wait_pop_lem q [] h = (q, refl, Popped-ready q q.queue refl (ground arith) (ground arith))
  wait_pop_lem q (w ∷ ws) h = elim (Bool-cases (not (is_empty q.queue) || q.closed)) [
    | inl ready ↦ (q, inl refl, Popped-ready q q.queue refl ready (ground arith))
    | inr waits ↦ let (p, seen, e) = wait_pop_lem w ws (ground arith) in (p, inr seen, e)
  ]

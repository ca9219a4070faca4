-- ===== src/BatchBuilder/Laws.antt =====
-- What a batch holds: its size and model, and that nothing popped is lost.
use mathlib.Core.Option.{none-ne-some}
use mathlib.Core.List.{append-nil}
use adaptive_ai_inference_ru.Prelude.{
  ℕ, zero, suc, ◌+◌, ◌-◌, ◌≤◌, ◌≡◌, refl, sym, ap, subst, ◌∙◌, inl, inr, Bool, true, Option, none,
  some, List, [], ◌∷◌, ◌++◌, All, All-append, Bool-cases, Option-cases, arith, length,
  length-append,
}
use adaptive_ai_inference_ru.Prelude.Bytes.{Bytes, bytes_eq_sound}
use adaptive_ai_inference_ru.Store.{Ref}
use adaptive_ai_inference_ru.BatchBuilder.{
  BatchBuilderConfig, FormedBatch, Lane, compute_deadline, later, check_extra, joins, collect, form,
  make,
}

-- The lane, with a log of what `pop_until` hands out.
abbrev pub note : {S : Type 0} → List Ref → Option Ref × S → Option Ref × (S × List Ref)
note log (none, s) = (none, (s, log))
note log (some r, s) = (some r, (s, log ++ (r ∷ [])))

abbrev pub log_extra :
    {S : Type 0} → Option (Ref → S → Bool × S) → Option (Ref → S × List Ref → Bool × (S × List Ref))
log_extra none = none
log_extra (some f) = some (λ r s. ((f r s.0).0, ((f r s.0).1, s.1)))

abbrev pub logged : {S : Type 0} → Lane S → Lane (S × List Ref)
logged lane = record {
  requests = λ s. lane.requests s.0;
  pop_until = λ deadline s. note s.1 (lane.pop_until deadline s.0);
  on_extra_request = log_extra lane.on_extra_request;
}

abbrev pub deferred_list : Option Ref → List Ref
deferred_list none = []
deferred_list (some r) = r ∷ []

note-none :
    {S : Type 0} (log : List Ref) (p : Option Ref × S)
    → (note log p).0 ≡ none
    → (note log p).1.1 ≡ log
note-none log (none, s) h = refl
note-none log (some r, s) h = absurd (none-ne-some r (sym h))

note-some :
    {S : Type 0} (log : List Ref) (p : Option Ref × S) (r : Ref)
    → (note log p).0 ≡ some r
    → (note log p).1.1 ≡ log ++ (r ∷ [])
note-some log (none, s) r h = absurd (none-ne-some r h)
note-some log (some x, s) r h = cc

extra_log :
    {S : Type 0} (f : Option (Ref → S → Bool × S)) (r : Ref) (s : S × List Ref)
    → (check_extra (log_extra f) r s).1.1 ≡ s.1
extra_log none r s = refl
extra_log (some f) r s = refl

module _ {S : Type 0} (config : BatchBuilderConfig) (lane : Lane S) (allow_wait : Bool)
    (model : Bytes) where
  -- One round of the loop: nothing is popped, the request is deferred, or it joins.
  round :
      (P : FormedBatch × S → Type 0) (room : ℕ) (clock : ℕ → ℕ) (rs : List Ref) (s : S)
      → (let o = lane.pop_until (compute_deadline config allow_wait clock (lane.requests s) rs) s in
          (o.0 ≡ none → P (record { requests = rs; deferred = none }, o.1))
          → ((r : Ref)
              → o.0 ≡ some r
              → P (
                record { requests = rs; deferred = some r },
                (joins config lane allow_wait model r o.1).1,
              ))
          → ((r : Ref)
              → o.0 ≡ some r
              → (joins config lane allow_wait model r o.1).0 ≡ true
              → P (
                  collect config lane allow_wait model room
                    (later allow_wait clock)
                    (rs ++ (r ∷ []))
                    (joins config lane allow_wait model r o.1).1))
          → P (collect config lane allow_wait model (suc room) clock rs s))
  unfolding collect
  round P room clock rs s n d j =
      let o = lane.pop_until (compute_deadline config allow_wait clock (lane.requests s) rs) s in
      elim (Option-cases o.0) [
        | inl e ↦ subst P (rw (e, collect) refl) (n e)
        | inr (r, e) ↦ elim (Bool-cases (joins config lane allow_wait model r o.1).0) [
          | inl a ↦ subst P (rw (e, a, collect) refl) (j r e a)
          | inr b ↦ subst P (rw (e, b, collect) refl) (d r e)
        ]
      ]

  collect-size :
      (room : ℕ) (clock : ℕ → ℕ) (rs : List Ref) (s : S)
      → length (collect config lane allow_wait model room clock rs s).0.requests ≤ length rs + room
  collect-size zero clock rs s = unfold collect in omega arith
  collect-size (suc room) clock rs s =
      round (λ o. length o.0.requests ≤ length rs + suc room) room clock rs s (λ e. omega arith)
        (λ r e. omega arith)
        (λ r e j. omega (
          arith,
          length-append rs (r ∷ []),
          collect-size room (later allow_wait clock) (rs ++ (r ∷ []))
              (joins config lane allow_wait model r
                (lane.pop_until (compute_deadline config allow_wait clock (lane.requests s) rs)
                  s).1).1,
        ))

  module _ (model_of : Ref → Bytes)
      (fixed : (s : S) (r : Ref) → (lane.requests s r).model_id ≡ model_of r) where
    joins-model :
        (r : Ref) (s : S) → (joins config lane allow_wait model r s).0 ≡ true → model_of r ≡ model
    unfolding joins
    joins-model r s h = ground (
      arith,
      bytes_eq_sound (lane.requests (check_extra lane.on_extra_request r s).1 r).model_id model,
      fixed (check_extra lane.on_extra_request r s).1 r,
    )

    collect-model :
        (room : ℕ) (clock : ℕ → ℕ) (rs : List Ref) (s : S)
        → All (λ r. model_of r ≡ model) rs
        → All
            (λ r. model_of r ≡ model)
            (collect config lane allow_wait model room clock rs s).0.requests
    collect-model zero clock rs s h = unfold collect in h
    collect-model (suc room) clock rs s h =
        round (λ o. All (λ r. model_of r ≡ model) o.0.requests) room clock rs s (λ e. h) (λ r e. h)
          (λ r e j.
            collect-model room (later allow_wait clock) (rs ++ (r ∷ []))
              (joins config lane allow_wait model r
                (lane.pop_until (compute_deadline config allow_wait clock (lane.requests s) rs)
                  s).1).1
              (All-append (λ r. model_of r ≡ model) rs (r ∷ []) h (joins-model r _ j, tt)))

module _ {S : Type 0} (config : BatchBuilderConfig) (lane : Lane S) (allow_wait : Bool)
    (model : Bytes) where
  joins_log :
      (r : Ref) (s : S × List Ref) → (joins config (logged lane) allow_wait model r s).1.1 ≡ s.1
  unfolding joins
  joins_log r s = extra_log lane.on_extra_request r s

  collect-log :
      (room : ℕ) (clock : ℕ → ℕ) (first : Ref) (rs : List Ref) (s : S × List Ref)
      → ◌≡◌ {A = List Ref} (first ∷ s.1) rs
      → (let (batch, s') = collect config (logged lane) allow_wait model room clock rs s in
          ◌≡◌ {A = List Ref} (first ∷ s'.1) (batch.requests ++ deferred_list batch.deferred))
  collect-log zero clock first rs s h = unfold collect in h ∙ sym (append-nil rs)
  collect-log (suc room) clock first rs s h =
      let deadline = compute_deadline config allow_wait clock (lane.requests s.0) rs in
      let o = lane.pop_until deadline s.0 in
      round config (logged lane) allow_wait model
        (λ o. ◌≡◌ {A = List Ref} (first ∷ o.1.1) (o.0.requests ++ deferred_list o.0.deferred)) room
        clock rs s (λ e. ap (λ l. first ∷ l) (note-none s.1 o e) ∙ (h ∙ sym (append-nil rs)))
        (λ r e.
          ap (λ l. first ∷ l) (joins_log r (note s.1 o).1 ∙ note-some s.1 o r e)
          ∙ ap (λ l. l ++ (r ∷ [])) h)
        (λ r e j.
          collect-log room (later allow_wait clock) first (rs ++ (r ∷ []))
            (joins config (logged lane) allow_wait model r (note s.1 o).1).1
            (ap (λ l. first ∷ l) (joins_log r (note s.1 o).1 ∙ note-some s.1 o r e)
              ∙ ap (λ l. l ++ (r ∷ [])) h))

make-some : (config : BatchBuilderConfig) → make config ≡ some config → 1 ≤ config.max_batch_size
unfolding make
make-some config h = ground (arith, none-ne-some config)

-- A batch that is formed from a request is no larger than the maximum that the constructor accepted,
-- and all its requests are for the model of the first, where no request's model changes.
pub form-bounds :
    {S : Type 0} (config : BatchBuilderConfig) (lane : Lane S) (allow_wait : Bool) (clock : ℕ → ℕ)
    (first : Ref) (s : S) (model_of : Ref → Bytes)
    → make config ≡ some config
    → ((s : S) (r : Ref) → (lane.requests s r).model_id ≡ model_of r)
    → let batch = (form config lane allow_wait clock (some first) s).0 in
      (length batch.requests ≤ config.max_batch_size)
      × All (λ r. model_of r ≡ model_of first) batch.requests
unfolding form
form-bounds config lane allow_wait clock first s model_of h fixed =
    let model = (lane.requests s first).model_id in
    let room = config.max_batch_size - 1 in
    (
      omega (
        arith,
        make-some config h,
        collect-size config lane allow_wait model room clock (first ∷ []) s,
      ),
      rw (sym (fixed s first)) (
          collect-model config lane allow_wait model model_of fixed room clock (first ∷ []) s
            (sym (fixed s first), tt)),
    )

-- With a log of what `pop_until` hands out: the batch, and then the deferred request, are the first
-- request and then all that was popped, in order.
pub form-log :
    {S : Type 0} (config : BatchBuilderConfig) (lane : Lane S) (allow_wait : Bool) (clock : ℕ → ℕ)
    (first : Ref) (s : S)
    → (let (batch, s') = form config (logged lane) allow_wait clock (some first) (s, []) in
        ◌≡◌ {A = List Ref} (batch.requests ++ deferred_list batch.deferred) (first ∷ s'.1))
unfolding form
form-log config lane allow_wait clock first s = sym (
    collect-log config lane allow_wait (lane.requests s first).model_id (config.max_batch_size - 1)
      clock first (first ∷ []) (s, []) refl)

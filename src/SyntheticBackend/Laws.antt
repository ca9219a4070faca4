-- ===== src/SyntheticBackend/Laws.antt =====
-- What the synthetic backend holds loaded, and how it answers a batch.
use mathlib.Core.Option.{none-ne-some, some-injective}
use mathlib.Core.Bool.{false≢true}
use adaptive_ai_inference_ru.Prelude.{
  ℕ, suc, ◌+◌, ◌≡◌, ◌⊎◌, ◌++◌, if_cases, refl, sym, ◌∙◌, ap, inl, inr, true, false, Option, none,
  some, List, [], ◌∷◌, if◌then◌else◌, All, arith, length, u64, Bool-cases,
}
use adaptive_ai_inference_ru.Prelude.Bytes.{Bytes, bytes, bytes_eq, bytes_eq_iff, bytes_eq_refl}
use adaptive_ai_inference_ru.Prelude.Assoc.{lookup, lookup-insert}
use adaptive_ai_inference_ru.Status.{
  ErrorCode, Status, ok, error, InferenceOutput, InferenceResult, failure_result,
}
use adaptive_ai_inference_ru.Request.{InferenceRequest}
use adaptive_ai_inference_ru.ModelRegistry.{ModelSpec}
use adaptive_ai_inference_ru.ModelManager.{resident, failed, is_resident}
use adaptive_ai_inference_ru.SyntheticBackend.{
  SyntheticModelConfig, ModelEntry, SyntheticModelBackend, load, load_found, unload, unload_found,
  state_unloaded, is_loaded, all_fail, total_tokens, answer, answers, run_batch, batch_found,
  infer_batch,
}

load_found_lem :
    (id j : Bytes) (b : SyntheticModelBackend) (o : Option ModelEntry)
    → lookup id b.models ≡ o
    → is_loaded j (load_found id o b).1
      ≡ (if bytes_eq id j then ok (load_found id o b).0 else is_loaded j b)
unfolding load_found is_loaded
load_found_lem id j b none h = ground (arith, bytes_eq_iff id j)
load_found_lem id j b (some e) h = ground (
  arith,
  bytes_eq_iff id j,
  lookup-insert id j (record e { state = failed }) b.models,
  lookup-insert id j (record e { state = resident }) b.models,
)

unload_found_lem :
    (id j : Bytes) (b : SyntheticModelBackend) (o : Option ModelEntry)
    → lookup id b.models ≡ o
    → is_loaded j (unload_found id o b).1 ≡ (if bytes_eq id j then false else is_loaded j b)
unfolding unload_found is_loaded
unload_found_lem id j b none h = ground (arith, bytes_eq_iff id j)
unload_found_lem id j b (some e) h = ground (
  arith,
  bytes_eq_iff id j,
  lookup-insert id j (record e { state = state_unloaded e.state }) b.models,
)

all_fail-length :
    (e : Status) (rs : List (Option InferenceRequest)) → length (all_fail e rs) ≡ length rs
all_fail-length e [] = refl
all_fail-length e (r ∷ rs) = ap (λ n. suc n) (all_fail-length e rs)

answers-length :
    (config : SyntheticModelConfig) (id : Bytes) (rs : List (Option InferenceRequest)) (n t : ℕ)
    → total_tokens id rs t ≡ some n
    → length (answers config rs) ≡ length rs
unfolding answers total_tokens
answers-length config id [] n t h = refl
answers-length config id (none ∷ rs) n t h = absurd (none-ne-some n h)
answers-length config id (some r ∷ rs) n t h = elim (Bool-cases (bytes_eq r.model_id id)) [
  | inl e ↦
      ap (λ m. suc m)
        (answers-length config id rs n (u64 (t + r.max_output_tokens)) (sym (rw e refl) ∙ h))
  | inr f ↦ absurd (none-ne-some n (sym (rw f refl) ∙ h))
]

run_batch-length :
    (config : SyntheticModelConfig) (id : Bytes) (rs : List (Option InferenceRequest))
    (o : Option ℕ) (b : SyntheticModelBackend)
    → total_tokens id rs 0 ≡ o
    → length (run_batch config o rs b).0 ≡ length rs
unfolding run_batch
run_batch-length config id rs none b h = all_fail-length _ rs
run_batch-length config id rs (some n) b h = answers-length config id rs n 0 h

batch_found-length :
    (id : Bytes) (o : Option ModelEntry) (rs : List (Option InferenceRequest))
    (b : SyntheticModelBackend)
    → length (batch_found id o rs b).0 ≡ length rs
unfolding batch_found
batch_found-length id none rs b = all_fail-length _ rs
batch_found-length id (some e) rs b = ground (
  arith,
  run_batch-length e.config id rs (total_tokens id rs 0) b refl,
  all_fail-length (error ErrorCode.inference_failed "model is not resident") rs,
)

-- There is one result for each request of a batch, whatever the batch and the state of its model.
pub infer_batch-length :
    (rs : List (Option InferenceRequest)) (b : SyntheticModelBackend)
    → length (infer_batch rs b).0 ≡ length rs
unfolding infer_batch
infer_batch-length [] b = refl
infer_batch-length (none ∷ rs) b = all_fail-length _ (none ∷ rs)
infer_batch-length (some r ∷ rs) b =
    batch_found-length r.model_id (lookup r.model_id b.models) (some r ∷ rs) b

-- After load a model is loaded exactly if the answer is a success, and no other model changes.
pub load-is_loaded :
    (m : ModelSpec) (j : Bytes) (b : SyntheticModelBackend)
    → is_loaded j (load m b).1 ≡ (if bytes_eq m.model_id j then ok (load m b).0 else is_loaded j b)
unfolding load
load-is_loaded m j b = load_found_lem m.model_id j b (lookup m.model_id b.models) refl

-- After unload a model is not loaded, and no other model changes.
pub unload-is_loaded :
    (id j : Bytes) (b : SyntheticModelBackend)
    → is_loaded j (unload id b).1 ≡ (if bytes_eq id j then false else is_loaded j b)
unfolding unload
unload-is_loaded id j b = unload_found_lem id j b (lookup id b.models) refl

-- A request that is there and asks for the model `id`.
abbrev pub AsksFor : Bytes → Option InferenceRequest → Type 0
AsksFor id p = (r : InferenceRequest) × (p ≡ some r) × (r.model_id ≡ id)

-- The model of the first request is resident, and all requests are there and ask for it.
abbrev pub CanRun : SyntheticModelBackend → List (Option InferenceRequest) → ModelEntry → Type 0
CanRun b rs e =
    (id : Bytes) × (lookup id b.models ≡ some e) × (e.state ≡ resident) × All (AsksFor id) rs

-- What a request is answered: its own id and number of tokens, or the failure that is configured.
abbrev pub IsAnswerTo : SyntheticModelConfig → Option InferenceRequest → InferenceResult → Type 0
IsAnswerTo config p x =
    (r : InferenceRequest) × (p ≡ some r)
    × (((config.fail_infer ≡ true)
          × (x.status.code ≡ ErrorCode.inference_failed)
          × (x.output ≡ none))
        ⊎ ((config.fail_infer ≡ false)
            × (x.status.code ≡ ErrorCode.no_error)
            × ((o : InferenceOutput) × (x.output ≡ some o)
                × (o.text ≡ bytes "synthetic:" ++ r.request_id)
                × (o.output_tokens ≡ r.max_output_tokens))))

-- The requests and the results match, one for one and in order.
abbrev pub Match :
    (Option InferenceRequest → InferenceResult → Type 0)
    → List (Option InferenceRequest)
    → List InferenceResult
    → Type 0
Match R [] [] = Unit
Match R [] (x ∷ xs) = ⊥
Match R (p ∷ ps) [] = ⊥
Match R (p ∷ ps) (x ∷ xs) = R p x × Match R ps xs

-- All requests run and each has its own answer; or they cannot run together, and each has the same
-- error.
abbrev pub IsBatchAnswer :
    SyntheticModelBackend → List (Option InferenceRequest) → List InferenceResult → Type 0
IsBatchAnswer b rs out =
    ((e : ModelEntry) × CanRun b rs e × Match (IsAnswerTo e.config) rs out)
    ⊎ (((e : ModelEntry) → ¬ (CanRun b rs e))
        × ((c : Status) × (ok c ≡ false) × Match (λ _ x. x ≡ failure_result c) rs out))

all_fail-Match :
    (c : Status) (rs : List (Option InferenceRequest))
    → Match (λ _ x. x ≡ failure_result c) rs (all_fail c rs)
all_fail-Match c [] = tt
all_fail-Match c (r ∷ rs) = (refl, all_fail-Match c rs)

answer-IsAnswerTo :
    (config : SyntheticModelConfig) (r : InferenceRequest)
    → IsAnswerTo config (some r) (answer config r)
unfolding answer
answer-IsAnswerTo config r = elim (Bool-cases config.fail_infer) [
  | inl t ↦ (r, refl, rw t (inl (refl, refl, refl)))
  | inr f ↦ (r, refl, rw f (inr (refl, refl, (_, refl, refl, refl))))
]

-- The tokens are added up exactly if all requests are there and ask for the model.
tokens_found :
    (id : Bytes) (rs : List (Option InferenceRequest)) (t : ℕ)
    → All (AsksFor id) rs
    → (n : ℕ) × (total_tokens id rs t ≡ some n)
unfolding total_tokens
tokens_found id [] t h = (t, refl)
tokens_found id (none ∷ rs) t ((r, e, same), h) = absurd (none-ne-some r e)
tokens_found id (some x ∷ rs) t ((r, e, same), h) =
    let (n, p) = tokens_found id rs (u64 (t + x.max_output_tokens)) h in
    let asked : x.model_id ≡ id = ap (λ y. y.model_id) (some-injective x r e) ∙ same in
    (n, rw (asked, bytes_eq_refl id) p)

tokens_only :
    (id : Bytes) (rs : List (Option InferenceRequest)) (t n : ℕ)
    → total_tokens id rs t ≡ some n
    → All (AsksFor id) rs
unfolding total_tokens
tokens_only id [] t n h = tt
tokens_only id (none ∷ rs) t n h = absurd (none-ne-some n h)
tokens_only id (some x ∷ rs) t n h = elim (Bool-cases (bytes_eq x.model_id id)) [
  | inl e ↦ (
    (x, refl, (bytes_eq_iff x.model_id id).0 e),
    tokens_only id rs (u64 (t + x.max_output_tokens)) n (sym (rw e refl) ∙ h),
  )
  | inr f ↦ absurd (none-ne-some n (sym (rw f refl) ∙ h))
]

answers-Match :
    (config : SyntheticModelConfig) (id : Bytes) (rs : List (Option InferenceRequest))
    → All (AsksFor id) rs
    → Match (IsAnswerTo config) rs (answers config rs)
unfolding answers
answers-Match config id [] h = tt
answers-Match config id (none ∷ rs) ((r, e, same), h) = absurd (none-ne-some r e)
answers-Match config id (some r ∷ rs) (k, h) =
    (answer-IsAnswerTo config r, answers-Match config id rs h)

run_batch-IsBatchAnswer :
    (r : InferenceRequest) (rs : List (Option InferenceRequest)) (b : SyntheticModelBackend)
    (e : ModelEntry) (o : Option ℕ)
    → lookup r.model_id b.models ≡ some e
    → e.state ≡ resident
    → total_tokens r.model_id (some r ∷ rs) 0 ≡ o
    → IsBatchAnswer b (some r ∷ rs) (run_batch e.config o (some r ∷ rs) b).0
unfolding run_batch
run_batch-IsBatchAnswer r rs b e none l s t = inr (
  (λ e' (id, k, s', h).
      let (x, is, same) = h.0 in
      let named : r.model_id ≡ id = ap (λ y. y.model_id) (some-injective r x is) ∙ same in
      let (n, p) = tokens_found id (some r ∷ rs) 0 h in
      none-ne-some n (sym t ∙ ap (λ i. total_tokens i (some r ∷ rs) 0) named ∙ p)),
  (_, refl, all_fail-Match _ (some r ∷ rs)),
)
run_batch-IsBatchAnswer r rs b e (some n) l s t =
    let asks = tokens_only r.model_id (some r ∷ rs) 0 n t in
    inl (e, (r.model_id, l, s, asks), answers-Match e.config r.model_id (some r ∷ rs) asks)

batch_found-IsBatchAnswer :
    (r : InferenceRequest) (rs : List (Option InferenceRequest)) (b : SyntheticModelBackend)
    (o : Option ModelEntry)
    → lookup r.model_id b.models ≡ o
    → IsBatchAnswer b (some r ∷ rs) (batch_found r.model_id o (some r ∷ rs) b).0
unfolding batch_found
batch_found-IsBatchAnswer r rs b none l = inr (
  (λ e' (id, k, s', h).
      let (x, is, same) = h.0 in
      let named : r.model_id ≡ id = ap (λ y. y.model_id) (some-injective r x is) ∙ same in
      none-ne-some e' (sym l ∙ ap (λ i. lookup i b.models) named ∙ k)),
  (_, refl, all_fail-Match _ (some r ∷ rs)),
)
batch_found-IsBatchAnswer r rs b (some e) l =
    if_cases
      (λ (o : List InferenceResult × SyntheticModelBackend). IsBatchAnswer b (some r ∷ rs) o.0)
      (is_resident e.state) _ _
      (λ t.
        run_batch-IsBatchAnswer r rs b e (total_tokens r.model_id (some r ∷ rs) 0) l (ground arith)
          refl)
      (λ f. inr (
        (λ e' (id, k, s', h).
            let (x, is, same) = h.0 in
            let named : r.model_id ≡ id = ap (λ y. y.model_id) (some-injective r x is) ∙ same in
            let found_same : e ≡ e' =
              some-injective e e' (sym l ∙ ap (λ i. lookup i b.models) named ∙ k) in
            false≢true (sym f ∙ ap (λ y. is_resident y.state) found_same ∙ ap is_resident s')),
        (_, refl, all_fail-Match _ (some r ∷ rs)),
      ))

-- On every batch that is not empty: if the model of the first request is resident and all requests
-- are there and ask for it, each request gets, in order, its own answer (its id and its number of
-- tokens, or the failure that is configured for the model); otherwise each gets the same error.
pub infer_batch-answer :
    (p : Option InferenceRequest) (ps : List (Option InferenceRequest)) (b : SyntheticModelBackend)
    → IsBatchAnswer b (p ∷ ps) (infer_batch (p ∷ ps) b).0
unfolding infer_batch
infer_batch-answer none ps b = inr (
  (λ e (id, k, s, h). let (x, is, same) = h.0 in none-ne-some x is),
  (_, refl, all_fail-Match _ (none ∷ ps)),
)
infer_batch-answer (some r) ps b =
    batch_found-IsBatchAnswer r ps b (lookup r.model_id b.models) refl

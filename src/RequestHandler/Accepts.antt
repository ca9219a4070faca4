-- ===== src/RequestHandler/Accepts.antt =====
-- What the request handler accepts as an inference request.
use adaptive_ai_inference_ru.Prelude.{
  ℕ, ◌≤◌, ◌≡◌, ◌≢◌, ◌↔◌, refl, sym, ap, subst, ◌⊎◌, inl, inr, Bool, true, none, some, [], All,
  if◌then◌else◌, arith, Bool-cases,
}
use adaptive_ai_inference_ru.Prelude.Bytes.{Bytes, bytes}
use adaptive_ai_inference_ru.Prelude.Integers.{pos}
use adaptive_ai_inference_ru.RequestHandler.Json.{Parsed, parsed, throws, IJson}
use adaptive_ai_inference_ru.RequestHandler.Parse.{
  InferRequestSpec, value, refused, and_then, is_known, check_keys, check_nonempty, as_string,
  max_output_tokens_default, max_output_tokens_max, timeout_ms_default, timeout_ms_max,
  max_output_tokens_of, timeout_of, parse_limits, parse_fields, parse_parsed, parse_infer_request,
}
use adaptive_ai_inference_ru.RequestHandler.Checks.{
  value_or, value_ne, and_then_inv, check_keys_iff, check_nonempty_iff, as_string_iff,
  as_integer_iff,
}

abbrev IsThrown : {J : Type 0} → Parsed J → Type 0
IsThrown (parsed j) = ⊥
IsThrown (throws what) = Unit

abbrev parsed_or : {J : Type 0} → J → Parsed J → J
parsed_or d (parsed j) = j
parsed_or d (throws what) = d

-- The value of a member that has to be a string.
abbrev pub IsText : {J : Type 0} → IJson J → J → Bytes → Bytes → Type 0
IsText {J} json j key s =
    ((v : J) × (json.member key j ≡ some v) × (json.get_string v ≡ some s)) × (s ≢ [])

-- The value of an integer member from 1 up to a bound, or its default.
abbrev pub IsLimit : {J : Type 0} → IJson J → J → Bytes → ℕ → ℕ → ℕ → Type 0
IsLimit {J} json j key default high n =
    ((json.member key j ≡ none) × (n ≡ default))
    ⊎ ((v : J) × (json.member key j ≡ some v)
        × (json.get_integer v ≡ some (pos n))
        × (1 ≤ n)
        × (n ≤ high))

-- The members are known, the texts are not empty, and the limits are in their ranges.
abbrev pub IsRequest : {J : Type 0} → IJson J → J → InferRequestSpec → Type 0
IsRequest json j spec =
    (json.is_object j ≡ true)
    × All (λ key. is_known key ≡ true) (json.keys j)
    × IsText json j (bytes "model_id") spec.model_id
    × IsText json j (bytes "prompt") spec.prompt
    × IsLimit json j (bytes "max_output_tokens") max_output_tokens_default max_output_tokens_max
        spec.max_output_tokens
    × IsLimit json j (bytes "timeout_ms") timeout_ms_default timeout_ms_max spec.timeout

module _ {J : Type 0} (json : IJson J) where
  limits_iff :
      (j : J) (model prompt : Bytes) (spec : InferRequestSpec)
      → (parse_limits json j model prompt ≡ value spec) ↔ (
          (spec.model_id ≡ model)
          × (spec.prompt ≡ prompt)
          × IsLimit json j
              (bytes "max_output_tokens")
              max_output_tokens_default
              max_output_tokens_max
              spec.max_output_tokens
          × IsLimit json j (bytes "timeout_ms") timeout_ms_default timeout_ms_max spec.timeout)
  unfolding parse_limits max_output_tokens_of timeout_of and_then
  limits_iff j model prompt spec = (
    λ h.
        let (tokens, e, h1) = and_then_inv (max_output_tokens_of json j) _ spec h in
        let (time, f, h2) = and_then_inv (timeout_of json j) _ spec h1 in
        let made : InferRequestSpec = record {
          model_id = model;
          prompt = prompt;
          max_output_tokens = tokens;
          timeout = time;
        } in
        let same : made ≡ spec = ap (value_or made) h2 in
        (
          sym (ap (λ x. x.model_id) same),
          sym (ap (λ x. x.prompt) same),
          subst
              (IsLimit json j (bytes "max_output_tokens") max_output_tokens_default
                max_output_tokens_max)
              (ap (λ x. x.max_output_tokens) same) ((as_integer_iff json _ _ _ _ _ tokens).0 e),
          subst (IsLimit json j (bytes "timeout_ms") timeout_ms_default timeout_ms_max)
              (ap (λ x. x.timeout) same) ((as_integer_iff json _ _ _ _ _ time).0 f),
        ),
    λ (m, p, tokens, time).
        rw
          (
            (as_integer_iff json max_output_tokens_default max_output_tokens_max
                  (bytes "max_output_tokens must be an integer")
                  (bytes "max_output_tokens out of range") _ spec.max_output_tokens).1
                tokens,
            (as_integer_iff json timeout_ms_default timeout_ms_max
                  (bytes "timeout_ms must be an integer") (bytes "timeout_ms out of range") _
                  spec.timeout).1
                time,
            m,
            p,
          )
          refl,
  )

  fields_iff :
      (j : J) (spec : InferRequestSpec)
      → (parse_fields json j ≡ value spec) ↔ (
          IsText json j (bytes "model_id") spec.model_id
          × IsText json j (bytes "prompt") spec.prompt
          × IsLimit json j
              (bytes "max_output_tokens")
              max_output_tokens_default
              max_output_tokens_max
              spec.max_output_tokens
          × IsLimit json j (bytes "timeout_ms") timeout_ms_default timeout_ms_max spec.timeout)
  unfolding parse_fields and_then
  fields_iff j spec =
      let no_model = bytes "model_id is required" in
      let no_prompt = bytes "prompt is required" in
      let empty_model = bytes "model_id must be non-empty" in
      let empty_prompt = bytes "prompt must be non-empty" in
      let model_at = json.member (bytes "model_id") j in
      let prompt_at = json.member (bytes "prompt") j in
      (
        λ h.
            let (model, e, h1) = and_then_inv (as_string json no_model model_at) _ spec h in
            let (prompt, f, h2) = and_then_inv (as_string json no_prompt prompt_at) _ spec h1 in
            let (t, g, h3) = and_then_inv (check_nonempty empty_model model) _ spec h2 in
            let (u, k, h4) = and_then_inv (check_nonempty empty_prompt prompt) _ spec h3 in
            let (m, p, tokens, time) = (limits_iff j model prompt spec).0 h4 in
            (
              subst (IsText json j (bytes "model_id")) (sym m) (
                (as_string_iff json no_model model_at model).0 e,
                (check_nonempty_iff empty_model model).0 g,
              ),
              subst (IsText json j (bytes "prompt")) (sym p) (
                (as_string_iff json no_prompt prompt_at prompt).0 f,
                (check_nonempty_iff empty_prompt prompt).0 k,
              ),
              tokens,
              time,
            ),
        λ (model, prompt, tokens, time).
            rw
              (
                (as_string_iff json no_model model_at spec.model_id).1 model.0,
                (as_string_iff json no_prompt prompt_at spec.prompt).1 prompt.0,
                (check_nonempty_iff empty_model spec.model_id).1 model.1,
                (check_nonempty_iff empty_prompt spec.prompt).1 prompt.1,
              )
              ((limits_iff j spec.model_id spec.prompt spec).1 (refl, refl, tokens, time)),
      )

  parse_parsed_iff :
      (p : Parsed J) (spec : InferRequestSpec)
      → (parse_parsed json p ≡ value spec) ↔ ((j : J) × (p ≡ parsed j) × IsRequest json j spec)
  unfolding parse_parsed and_then
  parse_parsed_iff (throws what) spec = (
    λ h. absurd (value_ne what spec h),
    λ (j, e, r). absurd (subst (λ (p : Parsed J). IsThrown p) e tt),
  )
  parse_parsed_iff (parsed j) spec = elim (Bool-cases (json.is_object j)) [
    | inl t ↦ (
      λ h.
          let (u, k, f) =
            and_then_inv (check_keys (json.keys j)) (λ u. parse_fields json j) spec
              (subst
                (λ (b : Bool).
                  (if b
                    then and_then (check_keys (json.keys j)) (λ u. parse_fields json j)
                    else refused (bytes "request body must be a JSON object"))
                  ≡ value spec)
                t h) in
          let (m, p, tokens, time) = (fields_iff j spec).0 f in
          (j, refl, (t, (check_keys_iff (json.keys j)).0 k, m, p, tokens, time)),
      λ (i, e, r).
          let (o, known, m, p, tokens, time) =
            subst (λ (x : J). IsRequest json x spec) (sym (ap (parsed_or j) e)) r in
          rw (t, (check_keys_iff (json.keys j)).1 known)
            ((fields_iff j spec).1 (m, p, tokens, time)),
    )
    | inr f ↦ (
      λ h. absurd (
          value_ne (bytes "request body must be a JSON object") spec (
            subst
              (λ (b : Bool).
                (if b
                  then and_then (check_keys (json.keys j)) (λ u. parse_fields json j)
                  else refused (bytes "request body must be a JSON object"))
                ≡ value spec)
              f h)),
      λ (i, e, r).
          let (o, known, m, p, tokens, time) =
            subst (λ (x : J). IsRequest json x spec) (sym (ap (parsed_or j) e)) r in
          absurd (ground arith),
    )
  ]

  -- A body is accepted as a request exactly if it is a JSON object with no unknown member, a model
  -- id and a prompt that are not empty, and limits in their ranges or left out; and it is accepted as
  -- the request with these members, and the defaults for what is left out.
  pub parse_infer_request_iff :
      (body : Bytes) (spec : InferRequestSpec)
      → (parse_infer_request json body ≡ value spec)
        ↔ ((j : J) × (json.parse body ≡ parsed j) × IsRequest json j spec)
  unfolding parse_infer_request
  parse_infer_request_iff body spec = parse_parsed_iff (json.parse body) spec

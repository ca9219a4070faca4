-- ===== src/RequestHandler/Parse.antt =====
-- src/serving/request_handler.cpp: `parse_infer_request`. The checks stop at the first that fails.
use adaptive_ai_inference_ru.Prelude.{
  ℕ, Bool, ◌||◌, Option, none, some, List, [], ◌∷◌, ◌++◌, if◌then◌else◌, ltb,
}
use adaptive_ai_inference_ru.Prelude.Bytes.{Bytes, bytes, bytes_eq}
use adaptive_ai_inference_ru.Prelude.Integers.{ℤ, pos, negsuc}
use adaptive_ai_inference_ru.RequestHandler.Json.{Parsed, parsed, throws, IJson}

pub record InferRequestSpec : Type 0 where
  pub model_id : Bytes
  pub prompt : Bytes
  pub max_output_tokens : ℕ
  pub timeout : ℕ

-- A value, or the error message.
pub data Checked (A : Type 0) : Type 0 where
  value : A → Checked A
  refused : Bytes → Checked A

unfoldable pub and_then : {A B : Type 0} → Checked A → (A → Checked B) → Checked B
and_then (value a) f = f a
and_then (refused e) f = refused e

unfoldable pub value_of : {A : Type 0} → Bytes → Option A → Checked A
value_of error none = refused error
value_of error (some a) = value a

abbrev pub is_known : Bytes → Bool
is_known key =
    bytes_eq key (bytes "model_id")
    || bytes_eq key (bytes "prompt")
    || bytes_eq key (bytes "max_output_tokens")
    || bytes_eq key (bytes "timeout_ms")

unfoldable pub check_keys : List Bytes → Checked Unit
check_keys [] = value tt
check_keys (key ∷ keys) =
    if is_known key then check_keys keys else refused (bytes "unknown field: " ++ key)

unfoldable pub check_nonempty : Bytes → Bytes → Checked Unit
check_nonempty error [] = refused error
check_nonempty error (b ∷ bs) = value tt

unfoldable pub in_range : ℕ → ℕ → Bytes → ℤ → Checked ℕ
in_range low high error (pos n) = if ltb n low || ltb high n then refused error else value n
in_range low high error (negsuc n) = refused error

abbrev pub max_output_tokens_default : ℕ
max_output_tokens_default = 16

abbrev pub max_output_tokens_max : ℕ
max_output_tokens_max = 4096

abbrev pub timeout_ms_default : ℕ
timeout_ms_default = 30000

abbrev pub timeout_ms_max : ℕ
timeout_ms_max = 300000

module _ {J : Type 0} (json : IJson J) where
  unfoldable pub as_string : Bytes → Option J → Checked Bytes
  as_string error none = refused error
  as_string error (some j) = value_of error (json.get_string j)

  -- An integer of at least 1, or the default if there is none.
  unfoldable pub as_integer : ℕ → ℕ → Bytes → Bytes → Option J → Checked ℕ
  as_integer default high type_error range_error none = value default
  as_integer default high type_error range_error (some j) =
      and_then (value_of type_error (json.get_integer j)) (in_range 1 high range_error)

  unfoldable pub max_output_tokens_of : J → Checked ℕ
  max_output_tokens_of j =
      as_integer max_output_tokens_default max_output_tokens_max
        (bytes "max_output_tokens must be an integer") (bytes "max_output_tokens out of range")
        (json.member (bytes "max_output_tokens") j)

  unfoldable pub timeout_of : J → Checked ℕ
  timeout_of j =
      as_integer timeout_ms_default timeout_ms_max (bytes "timeout_ms must be an integer")
        (bytes "timeout_ms out of range") (json.member (bytes "timeout_ms") j)

  unfoldable pub parse_limits : J → Bytes → Bytes → Checked InferRequestSpec
  parse_limits j model_id prompt = and_then (max_output_tokens_of j) (λ tokens.
      and_then (timeout_of j) (λ timeout. value (record {
        model_id = model_id;
        prompt = prompt;
        max_output_tokens = tokens;
        timeout = timeout;
      })))

  unfoldable pub parse_fields : J → Checked InferRequestSpec
  parse_fields j =
      and_then (as_string (bytes "model_id is required") (json.member (bytes "model_id") j))
        (λ model.
          and_then (as_string (bytes "prompt is required") (json.member (bytes "prompt") j))
            (λ prompt. and_then (check_nonempty (bytes "model_id must be non-empty") model) (λ t.
              and_then (check_nonempty (bytes "prompt must be non-empty") prompt)
                (λ u. parse_limits j model prompt))))

  unfoldable pub parse_parsed : Parsed J → Checked InferRequestSpec
  parse_parsed (throws what) = refused what
  parse_parsed (parsed j) =
      if json.is_object j
      then and_then (check_keys (json.keys j)) (λ t. parse_fields j)
      else refused (bytes "request body must be a JSON object")

  unfoldable pub parse_infer_request : Bytes → Checked InferRequestSpec
  parse_infer_request body = parse_parsed (json.parse body)

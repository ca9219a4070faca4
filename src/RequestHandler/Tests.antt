-- ===== src/RequestHandler/Tests.antt =====
-- The request handler over a small JSON library: a flat object, whose text names its members.
use adaptive_ai_inference_ru.Prelude.{
  ◌≡◌, ◌↔◌, refl, Bool, true, false, Option, none, some, List, [], ◌∷◌, map,
}
use adaptive_ai_inference_ru.Prelude.Bytes.{Bytes, bytes, bytes_eq}
use adaptive_ai_inference_ru.Prelude.Assoc.{lookup}
use adaptive_ai_inference_ru.Status.{ErrorCode, error}
use adaptive_ai_inference_ru.Request.{queued, new, snapshot}
use adaptive_ai_inference_ru.Request.Ops.{Op, run}
use adaptive_ai_inference_ru.RequestHandler.{serialize_infer_response}
use adaptive_ai_inference_ru.Prelude.Integers.{ℤ, pos}
use adaptive_ai_inference_ru.RequestHandler.Json.{Parsed, parsed, throws, IJson}
use adaptive_ai_inference_ru.RequestHandler.Parse.{
  InferRequestSpec, value, and_then, value_of, check_keys, check_nonempty, in_range, as_string,
  as_integer, max_output_tokens_of, timeout_of, parse_limits, parse_fields, parse_parsed,
  parse_infer_request,
}
use adaptive_ai_inference_ru.RequestHandler.Accepts.{IsRequest, parse_infer_request_iff}
use adaptive_ai_inference_ru.RequestHandler.Responses.{
  IsAnswered, serialize_infer_response-IsAnswered,
}

data Leaf : Type 0 where
  empty : Leaf
  text : Bytes → Leaf
  whole : ℤ → Leaf

data Tree : Type 0 where
  leaf : Leaf → Tree
  members : List (Bytes × Leaf) → Tree

abbrev leaf_of : Bytes × Tree → Bytes × Leaf
leaf_of (k, leaf l) = (k, l)
leaf_of (k, members m) = (k, empty)

abbrev as_leaf : Option Leaf → Option Tree
as_leaf none = none
as_leaf (some l) = some (leaf l)

abbrev member_of : Bytes → Tree → Option Tree
unfolding lookup
member_of k (leaf l) = none
member_of k (members m) = as_leaf (lookup k m)

abbrev key_list : Tree → List Bytes
key_list (leaf l) = []
key_list (members m) = map (λ p. p.0) m

abbrev is_members : Tree → Bool
is_members (leaf l) = false
is_members (members m) = true

abbrev text_of : Tree → Option Bytes
text_of (leaf (text s)) = some s
text_of _ = none

abbrev whole_of : Tree → Option ℤ
whole_of (leaf (whole z)) = some z
whole_of _ = none

-- The text of an object here is its first member's.
abbrev print : Tree → Bytes
print (members ((k, text s) ∷ m)) = s
print _ = []

abbrev sample : Tree
sample = members (
    (bytes "model_id", text (bytes "a"))
    ∷ (bytes "timeout_ms", whole (pos 500))
    ∷ (bytes "prompt", text (bytes "hi"))
    ∷ [])

abbrev read : Bytes → Parsed Tree
read [] = throws (bytes "unexpected end of input")
read (b ∷ bs) = parsed sample

abbrev tree_json : IJson Tree
tree_json = record {
  parse = read;
  dump = print;
  is_object = is_members;
  keys = key_list;
  member = member_of;
  get_string = text_of;
  get_integer = whole_of;
  null = leaf empty;
  string = λ s. leaf (text s);
  number = λ n. leaf (whole (pos n));
  boolean = λ b. leaf empty;
  array = λ xs. leaf empty;
  object = λ ms. members (map leaf_of ms);
}

abbrev spec : InferRequestSpec
spec = record { model_id = bytes "a"; prompt = bytes "hi"; max_output_tokens = 16; timeout = 500 }

sample_accepted : parse_infer_request tree_json (bytes "{..}") ≡ value spec
unfolding parse_infer_request parse_parsed check_keys and_then value_of check_nonempty in_range
    as_string as_integer max_output_tokens_of timeout_of parse_limits parse_fields bytes_eq lookup
    member_of
sample_accepted = refl

parse_infer_request_iff_example :
    (parse_infer_request tree_json (bytes "{..}") ≡ value spec)
    ↔ ((j : Tree) × (tree_json.parse (bytes "{..}") ≡ parsed j) × IsRequest tree_json j spec)
parse_infer_request_iff_example = parse_infer_request_iff tree_json (bytes "{..}") spec

-- A request that is queued and then rejected because the queue is full.
abbrev history : List Op
history = Op.transition_op queued ∷ Op.reject_op (error ErrorCode.queue_full "queue is full") ∷ []

serialize_infer_response-IsAnswered_example :
    let r = (run (new (bytes "r1") (bytes "m") (bytes "hi") 16) history).0 in
    IsAnswered tree_json r.state (snapshot r) (serialize_infer_response tree_json (snapshot r))
serialize_infer_response-IsAnswered_example =
    serialize_infer_response-IsAnswered tree_json (bytes "r1") (bytes "m") (bytes "hi") 16 history
      (refl, (tt, tt))

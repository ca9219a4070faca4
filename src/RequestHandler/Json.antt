-- ===== src/RequestHandler/Json.antt =====
-- The JSON library, which is not part of the repository: what the request handler uses of it. `dump`
-- also throws, on text that is not UTF-8; this is left out.
use adaptive_ai_inference_ru.Prelude.{ℕ, Bool, Option, List}
use adaptive_ai_inference_ru.Prelude.Bytes.{Bytes}
use adaptive_ai_inference_ru.Prelude.Integers.{ℤ}

pub data Parsed (J : Type 0) : Type 0 where
  parsed : J → Parsed J
  throws : Bytes → Parsed J

-- The keys of an object in order; the member under a key (`contains`, `operator[]`); a string and an
-- `std::int64_t`, if the value is one (`is_string`, `is_number_integer`, `get`); how values are made.
pub record IJson (J : Type 0) : Type 0 where
  pub parse : Bytes → Parsed J
  pub dump : J → Bytes
  pub is_object : J → Bool
  pub keys : J → List Bytes
  pub member : Bytes → J → Option J
  pub get_string : J → Option Bytes
  pub get_integer : J → Option ℤ
  pub null : J
  pub string : Bytes → J
  pub number : ℕ → J
  pub boolean : Bool → J
  pub array : List J → J
  pub object : List (Bytes × J) → J

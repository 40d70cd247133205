-- ===== src/RespParser/Response.antt =====
-- The responses that the server sends, as server/reply.cpp encodes them, and what the client prints.
use redis_simple.Common.{ℕ, suc, ◌*◌, ◌^◌, ◌<◌, ◌≡◌, Option, none, some, List, [], ◌∷◌, ◌++◌}
use redis_simple.Common.Int.{ℤ, InRange}
use redis_simple.Decimal.Spec.{text}
use redis_simple.Replies.{
  ProtocolVersion, from_string, from_error, from_bulk_string, from_int64, from_float_text, null,
  from_array_header, from_set_header, from_map_header,
}
use redis_simple.RespParser.{nil_reply}
use redis_simple.RespParser.Texts.{parse_float_text}
use redis_simple.RespParser.Line.{IsLine}

mutual
  pub data Response : Type 0 where
    string_response : List ℕ → Response
    error_response : List ℕ → Response
    bulk_response : List ℕ → Response
    integer_response : ℤ → Response
    float_response : List ℕ → Response
    null_response : Response
    array_response : Responses → Response
    set_response : Responses → Response
    map_response : ℕ → Responses → Response

  pub data Responses : Type 0 where
    no_more : Responses
    and_then : Response → Responses → Responses

abbrev pub count : Responses → ℕ
count no_more = 0
count (and_then r rs) = suc (count rs)

-- A header that was refused sends nothing.
abbrev pub header_or_nothing : Option (List ℕ) → List ℕ
header_or_nothing none = []
header_or_nothing (some header) = header

abbrev mutual
  pub encoded : ProtocolVersion → Response → List ℕ
  encoded p (string_response s) = from_string s
  encoded p (error_response s) = from_error s
  encoded p (bulk_response s) = from_bulk_string s
  encoded p (integer_response v) = from_int64 v
  encoded p (float_response t) = from_float_text t p
  encoded p null_response = null p
  encoded p (array_response rs) = from_array_header (count rs) ++ all_encoded p rs
  encoded p (set_response rs) = from_set_header (count rs) p ++ all_encoded p rs
  encoded p (map_response n rs) = header_or_nothing (from_map_header n p) ++ all_encoded p rs

  pub all_encoded : ProtocolVersion → Responses → List ℕ
  all_encoded p no_more = []
  all_encoded p (and_then r rs) = encoded p r ++ all_encoded p rs

-- What the client prints of a response.
abbrev mutual
  pub printed : Response → List (List ℕ)
  printed (string_response s) = s ∷ []
  printed (error_response s) = s ∷ []
  printed (bulk_response s) = s ∷ []
  printed (integer_response v) = text v ∷ []
  printed (float_response t) = t ∷ []
  printed null_response = nil_reply ∷ []
  printed (array_response rs) = all_printed rs ++ (b'\n' ∷ []) ∷ []
  printed (set_response rs) = all_printed rs ++ (b'\n' ∷ []) ∷ []
  printed (map_response n rs) = all_printed rs ++ (b'\n' ∷ []) ∷ []

  pub all_printed : Responses → List (List ℕ)
  all_printed no_more = []
  all_printed (and_then r rs) = printed r ++ all_printed rs

-- Lines hold no "\r", integers have 64 bits, the text of a float is one that the client renders
-- unchanged, and a map has a key and a value for each of its entries, fewer than 2^63.
abbrev mutual
  pub IsResponse : Response → Type 0
  IsResponse (string_response s) = IsLine s
  IsResponse (error_response s) = IsLine s
  IsResponse (bulk_response s) = Unit
  IsResponse (integer_response v) = InRange 63 v
  IsResponse (float_response t) = IsLine t × (parse_float_text t ≡ some t)
  IsResponse null_response = Unit
  IsResponse (array_response rs) = AreResponses rs
  IsResponse (set_response rs) = AreResponses rs
  IsResponse (map_response n rs) = (n < 2 ^ 63) × (count rs ≡ n * 2) × AreResponses rs

  pub AreResponses : Responses → Type 0
  AreResponses no_more = Unit
  AreResponses (and_then r rs) = IsResponse r × AreResponses rs

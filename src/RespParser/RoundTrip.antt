-- ===== src/RespParser/RoundTrip.antt =====
-- cli/resp_parser.cpp and server/reply.cpp: the client prints what the server means.
use redis_simple.Common.{
  ℕ, ◌+◌, ◌*◌, ◌^◌, ◌≤◌, ◌<◌, ◌≡◌, refl, ap, sym, subst, arith, none, some, List, [], ◌++◌, length,
  length-append, take, ltb, false, ◌-◌, ◌/◌, if◌then◌else◌,
}
use redis_simple.Replies.{
  ProtocolVersion, resp2, resp3, from_string, from_error, from_bulk_string, append_bulk_string,
  from_int64, from_float_text, null, from_array_header, append_array_header, from_set_header,
  from_map_header,
}
use redis_simple.RespParser.{done, parse, complete, incomplete, invalid, Parsed}
use redis_simple.RespParser.Response.{
  Response, Responses, IsResponse, AreResponses, encoded, all_encoded, printed, all_printed, count,
  header_or_nothing, string_response, error_response, bulk_response, integer_response,
  float_response, null_response, array_response, set_response, map_response, no_more, and_then,
}
use redis_simple.RespParser.Reads.{
  Reads, ReadsAll, from_string-Reads, from_error-Reads, from_int64-Reads, null-Reads,
  from_bulk_string-Reads, from_float_text-Reads,
}
use redis_simple.RespParser.Aggregates.{
  ReadsAll-none, ReadsAll-next, from_array_header-Reads, from_set_header-Reads,
  from_map_header-Reads,
}

-- No encoding is empty.
encoded_nonempty : (p : ProtocolVersion) (r : Response) → IsResponse r → 0 < length (encoded p r)
unfolding from_string from_error from_bulk_string append_bulk_string from_int64 from_float_text null
    from_array_header append_array_header from_set_header from_map_header
encoded_nonempty p (string_response s) h = omega arith
encoded_nonempty p (error_response s) h = omega arith
encoded_nonempty p (bulk_response s) h = omega arith
encoded_nonempty p (integer_response v) h = omega arith
encoded_nonempty resp2 (float_response t) h = omega arith
encoded_nonempty resp3 (float_response t) h = omega arith
encoded_nonempty resp2 null_response h = omega arith
encoded_nonempty resp3 null_response h = omega arith
encoded_nonempty p (array_response rs) h = omega arith
encoded_nonempty resp2 (set_response rs) h = omega arith
encoded_nonempty resp3 (set_response rs) h = omega arith
encoded_nonempty resp2 (map_response n rs) h =
    let fits : ltb ((2 ^ 64 - 1) / 2) n ≡ false = ground arith in
    subst (λ o. 0 < length (header_or_nothing o ++ all_encoded resp2 rs))
      (sym (ap (λ b. if b then none else some (from_array_header (n * 2))) fits)) (omega arith)
encoded_nonempty resp3 (map_response n rs) h = omega arith

count-le :
    (p : ProtocolVersion) (rs : Responses) → AreResponses rs → count rs ≤ length (all_encoded p rs)
count-le p no_more h = omega arith
count-le p (and_then r rs) h = omega (
  arith,
  length-append (encoded p r) (all_encoded p rs),
  encoded_nonempty p r h.0,
  count-le p rs h.1,
)

mutual
  encoded-Reads :
      (p : ProtocolVersion) (r : Response)
      → IsResponse r
      → length (encoded p r) < 2 ^ 63
      → Reads (encoded p r) (printed r)
  encoded-Reads p (string_response s) h lt = from_string-Reads s h
  encoded-Reads p (error_response s) h lt = from_error-Reads s h
  encoded-Reads p (bulk_response s) h lt = from_bulk_string-Reads s
  encoded-Reads p (integer_response v) h lt = from_int64-Reads v h
  encoded-Reads p (float_response t) h lt = from_float_text-Reads p t h.0 h.1
  encoded-Reads p null_response h lt = null-Reads p
  encoded-Reads p (array_response rs) h lt =
      let size = length-append (from_array_header (count rs)) (all_encoded p rs) in
      from_array_header-Reads (count rs) (all_encoded p rs) (all_printed rs)
        (omega (arith, count-le p rs h)) (all_encoded-ReadsAll p rs h (omega arith))
  encoded-Reads p (set_response rs) h lt =
      let size = length-append (from_set_header (count rs) p) (all_encoded p rs) in
      from_set_header-Reads p (count rs) (all_encoded p rs) (all_printed rs)
        (omega (arith, count-le p rs h)) (all_encoded-ReadsAll p rs h (omega arith))
  encoded-Reads p (map_response n rs) h lt =
      let size = length-append (header_or_nothing (from_map_header n p)) (all_encoded p rs) in
      from_map_header-Reads p n (all_encoded p rs) (all_printed rs)
        (omega (arith, count-le p rs h.2, h.1))
        (subst (ReadsAll (all_encoded p rs) (all_printed rs)) h.1
          (all_encoded-ReadsAll p rs h.2 (omega arith)))

  all_encoded-ReadsAll :
      (p : ProtocolVersion) (rs : Responses)
      → AreResponses rs
      → length (all_encoded p rs) < 2 ^ 63
      → ReadsAll (all_encoded p rs) (all_printed rs) (count rs)
  all_encoded-ReadsAll p no_more h lt = ReadsAll-none
  all_encoded-ReadsAll p (and_then r rs) h lt =
      let size = length-append (encoded p r) (all_encoded p rs) in
      ReadsAll-next (encoded p r) (all_encoded p rs) (printed r) (all_printed rs) (count rs)
        (encoded-Reads p r h.0 (omega arith)) (all_encoded-ReadsAll p rs h.1 (omega arith))

-- `Parse` of a response that the server encodes, in either version of the protocol and whatever
-- bytes follow it, completes, takes exactly its bytes, and appends the values that it stands for:
-- those of aggregates in aggregates too. The input is shorter than 2^63 bytes; in the response,
-- lines hold no carriage return, integers have 64 bits, the client renders the texts of floats
-- unchanged, and a map has fewer than 2^63 entries, each a key and a value.
pub parse-encoded :
    (p : ProtocolVersion) (r : Response) (rest : List ℕ) (reply : List (List ℕ))
    → IsResponse r
    → length (encoded p r ++ rest) < 2 ^ 63
    → parse (encoded p r ++ rest) reply ≡ (done (length (encoded p r)), reply ++ printed r)
unfolding parse
parse-encoded p r rest reply h lt =
    let size = length-append (encoded p r) rest in
    let read =
      encoded-Reads p r h (omega arith) (encoded p r ++ rest) [] rest 0
        (length (encoded p r ++ rest) + 1) reply refl refl (omega arith) lt in
    ap finish read
  where
    finish : Parsed → Parsed
    finish q = elim q.0.status as (λ s. Parsed) [
      | complete ↦ q
      | incomplete ↦ (q.0, take (length reply) q.1)
      | invalid ↦ (q.0, take (length reply) q.1)
    ]

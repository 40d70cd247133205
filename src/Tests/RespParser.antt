-- ===== src/Tests/RespParser.antt =====
-- Runs of the reply encoders and of the client's parser.
use redis_simple.Common.{◌+◌, ◌^◌, ◌<◌, ◌≡◌, refl, ◌++◌, [], ◌∷◌, some, length, arith}
use redis_simple.Common.Int.{negsuc}
use redis_simple.Decimal.{codes, digits10}
use redis_simple.Decimal.Spec.{text, decimal}
use redis_simple.Replies.{
  resp3, from_string, from_bulk_string, append_bulk_string, from_int64, from_float_text, null,
  from_array_header, append_array_header, from_map_header,
}
use redis_simple.RespParser.{done, parse, parse_at, out_of_depth, invalid_result}
use redis_simple.RespParser.Response.{
  Response, IsResponse, encoded, printed, bulk_response, integer_response, null_response,
  string_response, float_response, array_response, map_response, no_more, and_then,
}
use redis_simple.RespParser.RoundTrip.{parse-encoded}
use redis_simple.RespParser.Outcome.{IsResult, parse-IsResult}
use redis_simple.RespParser.Depth.{parse_at-enough}
use redis_simple.RespParser.Texts.{
  parse_float_text, split_sign, split_at, find_of, float_parts, all_digits, read_exponent,
  render_float, strip_front, strip_back,
}

-- An array of a bulk string that holds a line end, an integer, a null, and a map of one entry.
abbrev nested : Response
nested = array_response (
    and_then (bulk_response (b'a' ∷ b'\r' ∷ b'\n' ∷ [])) (
      and_then (integer_response (negsuc 41)) (
        and_then null_response (
          and_then
            (map_response 1 (
              and_then (string_response (codes "k"))
                (and_then (float_response (codes "1.5")) no_more)))
            no_more))))

float_kept : parse_float_text (codes "1.5") ≡ some (codes "1.5")
unfolding parse_float_text split_sign split_at find_of float_parts all_digits read_exponent
    render_float strip_front strip_back
float_kept = refl

nested-IsResponse : IsResponse nested
nested-IsResponse = (
  tt,
  (
    (omega arith, omega arith),
    (tt, ((omega arith, refl, ((refl, tt), (((refl, (refl, (refl, tt))), float_kept), tt))), tt)),
  ),
)

nested_size : length (encoded resp3 nested ++ codes ":1") < 2 ^ 63
unfolding text decimal digits10 from_string from_bulk_string append_bulk_string from_int64
    from_float_text null from_array_header append_array_header from_map_header
nested_size = omega arith

parse-encoded_example :
    parse (encoded resp3 nested ++ codes ":1") []
    ≡ (done (length (encoded resp3 nested)), [] ++ printed nested)
parse-encoded_example = parse-encoded resp3 nested (codes ":1") [] nested-IsResponse nested_size

parse-IsResult_example :
    IsResult
      (codes "*2")
      []
      (parse (codes "*2") []).0.status
      (parse (codes "*2") []).0.consumed
      (parse (codes "*2") []).1
parse-IsResult_example = parse-IsResult (codes "*2") []

parse_at-enough_example :
    parse_at (λ start reply. (invalid_result, [])) 20 (codes "*0") 0 []
    ≡ parse_at out_of_depth (length (codes "*0") + 1) (codes "*0") 0 []
parse_at-enough_example =
    parse_at-enough (λ start reply. (invalid_result, [])) 20 (codes "*0") [] (omega arith)

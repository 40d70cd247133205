-- ===== src/Tests/RequestParser.antt =====
-- Runs of the request parser.
use redis_simple.Common.{arith, ℕ, ◌≡◌, refl, List, [], ◌∷◌, length}
use redis_simple.Decimal.{codes, digits10, digits10_from}
use redis_simple.Decimal.Spec.{decimal}
use redis_simple.RequestParser.{
  complete, invalid, find_where, find_pair, find_crlf, take_digits, parse_size, bulk_content,
  bulk_header, parse_bulk_string, parse_elements, resp_header, parse_resp, parse_words, parse_line,
  parse_inline, cleared, parse,
}
use redis_simple.RequestParser.Encoding.{request}
use redis_simple.RequestParser.Request.{parse-request}
use redis_simple.RequestParser.Outcome.{Outcome, parse-Outcome}

-- A request to set a key, followed by the first bytes of the next one.
parse-request_example :
    parse (request (codes "SET") (codes "key" ∷ codes "a b" ∷ []) (codes "*1")) ≡ record {
      result = record {
        status = complete;
        consumed = length (request (codes "SET") (codes "key" ∷ codes "a b" ∷ []) []);
      };
      command = codes "SET";
      args = codes "key" ∷ codes "a b" ∷ [];
    }
unfolding decimal digits10 digits10_from
parse-request_example =
    parse-request (codes "SET") (codes "key" ∷ codes "a b" ∷ []) (codes "*1") (omega arith)
      (omega arith)

abbrev inline_ping : List ℕ
inline_ping = codes " PING  me now\r\nrest"

parse-Outcome_example : Outcome (length inline_ping) (parse inline_ping)
parse-Outcome_example = parse-Outcome inline_ping

inline_read : parse inline_ping ≡ record {
  result = record { status = complete; consumed = 15 };
  command = codes "PING";
  args = codes "me" ∷ codes "now" ∷ [];
}
unfolding parse cleared parse_inline parse_line parse_words find_where
inline_read = refl

-- A negative length is refused.
refused_length : (parse (codes "*1\r\n$-1\r\n")).result.status ≡ invalid
unfolding parse cleared parse_resp resp_header parse_elements parse_bulk_string bulk_header
    bulk_content parse_size take_digits find_crlf find_pair
refused_length = refl

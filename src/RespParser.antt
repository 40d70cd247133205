-- ===== src/RespParser.antt =====
-- cli/resp_parser.h and cli/resp_parser.cpp: one response at the front of the input, with the
-- values that the client prints. The output parameter `reply` is passed on and returned.
pub mod Texts
pub mod Line
pub mod Scalars
pub mod Response
pub mod Reads
pub mod Aggregates
pub mod RoundTrip
pub mod Bounds
pub mod Outcome
pub mod Depth
use redis_simple.Common.{
  ℕ, zero, suc, ◌+◌, ◌-◌, ◌*◌, ◌/◌, ◌^◌, Bool, true, false, not, ◌&&◌, ◌||◌, Option, none, some,
  List, [], ◌∷◌, ◌++◌, ltb, leb, ◌==◌, if◌then◌else◌, length, take, drop, get_or,
}
use redis_simple.Common.Keys.{same_key}
use redis_simple.Decimal.{codes, to_int64}
use redis_simple.Decimal.Spec.{text}
use redis_simple.RespParser.Texts.{find_of, parse_float_text}

pub data ParseStatus : Type 0 where
  complete : ParseStatus
  incomplete : ParseStatus
  invalid : ParseStatus

pub record ParseResult : Type 0 where
  pub status : ParseStatus
  pub consumed : ℕ

-- A result and the values of the reply.
abbrev pub Parsed : Type 0
Parsed = ParseResult × List (List ℕ)

abbrev pub nil_reply : List ℕ
nil_reply = codes "(nil)"

abbrev pub done : ℕ → ParseResult
done n = record { status = complete; consumed = n }

abbrev pub invalid_result : ParseResult
invalid_result = record { status = invalid; consumed = 0 }

abbrev pub incomplete_result : ParseResult
incomplete_result = record { status = incomplete; consumed = 0 }

-- `substr`
abbrev pub substr : List ℕ → ℕ → ℕ → List ℕ
substr s at n = take n (drop at s)

abbrev pub is_return : ℕ → Bool
is_return c = c == b'\r'

unfoldable pub find_line_end : List ℕ → ℕ → ParseResult
find_line_end resp start = elim (find_of is_return start (drop start resp)) [
  | none ↦ incomplete_result
  | some end ↦
      if leb (length resp) (end + 1)
      then incomplete_result
      else if get_or (drop end resp) 1 0 == b'\n'
      then done end
      else invalid_result
]

unfoldable pub parse_size_loop : ℕ → List ℕ → Option ℕ
parse_size_loop parsed [] = some parsed
parse_size_loop parsed (c ∷ cs) =
    let rest = parse_size_loop (parsed * 10 + (c - b'0')) cs in
    if not (leb b'0' c && leb c b'9')
    then none
    else if ltb ((2 ^ 64 - 1 - (c - b'0')) / 10) parsed
    then none
    else rest

unfoldable pub parse_size : List ℕ → Option ℕ
parse_size [] = none
parse_size (c ∷ cs) = parse_size_loop 0 (c ∷ cs)

-- What follows `FindLineEnd`: the end of the line, or the return of its result.
unfoldable pub with_line : ParseResult → List (List ℕ) → (ℕ → Parsed) → Parsed
with_line line reply next = elim line.status [
  | complete ↦ next line.consumed
  | incomplete ↦ (line, reply)
  | invalid ↦ (line, reply)
]

unfoldable pub parse_line : List ℕ → ℕ → List (List ℕ) → Parsed
parse_line resp start reply =
    with_line (find_line_end resp (start + 1)) reply
      (λ end. (done (end - start + 2), reply ++ substr resp (start + 1) (end - start - 1) ∷ []))

-- `ParseBulkString` once the length is read
unfoldable pub bulk_content : List ℕ → ℕ → ℕ → ℕ → List (List ℕ) → Parsed
bulk_content resp start content_start size reply =
    let response_end = content_start + size + 2 in
    if ltb (2 ^ 64 - 1 - content_start - 2) size
    then (invalid_result, reply)
    else if ltb (length resp) response_end
    then (incomplete_result, reply)
    else if not (
        get_or (drop (content_start + size) resp) 0 0 == b'\r'
        && get_or (drop (content_start + size) resp) 1 0 == b'\n')
    then (invalid_result, reply)
    else (done (response_end - start), reply ++ substr resp content_start size ∷ [])

-- ... once the header is found
unfoldable pub bulk_length : List ℕ → ℕ → ℕ → List (List ℕ) → List ℕ → Parsed
bulk_length resp start end reply length_text =
    if same_key length_text (codes "-1")
    then (done (end - start + 2), reply ++ nil_reply ∷ [])
    else elim (parse_size length_text) [
      | none ↦ (invalid_result, reply)
      | some size ↦ bulk_content resp start (end + 2) size reply
    ]

unfoldable pub parse_bulk_string : List ℕ → ℕ → List (List ℕ) → Parsed
parse_bulk_string resp start reply =
    with_line (find_line_end resp (start + 1)) reply
      (λ end. bulk_length resp start end reply (substr resp (start + 1) (end - start - 1)))

unfoldable pub parse_integer : List ℕ → ℕ → List (List ℕ) → Parsed
parse_integer resp start reply = with_line (find_line_end resp (start + 1)) reply (λ end.
    elim (to_int64 (substr resp (start + 1) (end - start - 1))) [
      | none ↦ (invalid_result, reply)
      | some value ↦ (done (end - start + 2), reply ++ text value ∷ [])
    ])

-- The loop of `ParseAggregate` over the elements that are left; `element` is `ParseAt`.
unfoldable pub parse_elements : (ℕ → List (List ℕ) → Parsed) → ℕ → ℕ → ℕ → List (List ℕ) → Parsed
parse_elements element start zero consumed reply = (done consumed, reply ++ (b'\n' ∷ []) ∷ [])
parse_elements element start (suc left) consumed reply =
    let r = element (start + consumed) reply in
    elim r.0.status [
      | complete ↦ elim (ltb (2 ^ 64 - 1 - consumed) r.0.consumed) [
        | true ↦ (invalid_result, r.1)
        | false ↦ parse_elements element start left (consumed + r.0.consumed) r.1
      ]
      | incomplete ↦ r
      | invalid ↦ r
    ]

-- `ParseAggregate` once the header is found
unfoldable pub aggregate_content :
    (ℕ → List (List ℕ) → Parsed) → ℕ → ℕ → ℕ → List (List ℕ) → Option ℕ → Parsed
aggregate_content element start end multiplier reply none = (invalid_result, reply)
aggregate_content element start end multiplier reply (some size) =
    elim (ltb ((2 ^ 64 - 1) / multiplier) size) [
      | true ↦ (invalid_result, reply)
      | false ↦ parse_elements element start (size * multiplier) (end - start + 2) reply
    ]

unfoldable pub parse_aggregate :
    (ℕ → List (List ℕ) → Parsed) → List ℕ → ℕ → ℕ → List (List ℕ) → Parsed
parse_aggregate element resp start multiplier reply =
    with_line (find_line_end resp (start + 1)) reply (λ end.
      aggregate_content element start end multiplier reply
        (parse_size (substr resp (start + 1) (end - start - 1))))

unfoldable pub parse_null : List ℕ → ℕ → List (List ℕ) → Parsed
parse_null resp start reply =
    with_line (find_line_end resp (start + 1)) reply (λ end.
      if end == start + 1 then (done 3, reply ++ nil_reply ∷ []) else (invalid_result, reply))

unfoldable pub parse_float : List ℕ → ℕ → List (List ℕ) → Parsed
parse_float resp start reply = with_line (find_line_end resp (start + 1)) reply (λ end.
    elim (parse_float_text (substr resp (start + 1) (end - start - 1))) [
      | none ↦ (invalid_result, reply)
      | some rendered ↦ (done (end - start + 2), reply ++ rendered ∷ [])
    ])

-- The cases of the switch in `ParseAt`.
pub data Kind : Type 0 where
  line_kind : Kind
  bulk_kind : Kind
  integer_kind : Kind
  array_kind : Kind
  map_kind : Kind
  set_kind : Kind
  null_kind : Kind
  float_kind : Kind
  unknown_kind : Kind

unfoldable pub kind_of : ℕ → Kind
kind_of c =
    if c == b'+' || c == b'-'
    then line_kind
    else if c == b'$'
    then bulk_kind
    else if c == b':'
    then integer_kind
    else if c == b'*'
    then array_kind
    else if c == b'%'
    then map_kind
    else if c == b'~'
    then set_kind
    else if c == b'_'
    then null_kind
    else if c == b','
    then float_kind
    else unknown_kind

-- The switch, with `element` for the calls of `ParseAt` in it.
unfoldable pub parse_kind :
    (ℕ → List (List ℕ) → Parsed) → Kind → List ℕ → ℕ → List (List ℕ) → Parsed
parse_kind element line_kind resp start reply = parse_line resp start reply
parse_kind element bulk_kind resp start reply = parse_bulk_string resp start reply
parse_kind element integer_kind resp start reply = parse_integer resp start reply
parse_kind element array_kind resp start reply = parse_aggregate element resp start 1 reply
parse_kind element map_kind resp start reply = parse_aggregate element resp start 2 reply
parse_kind element set_kind resp start reply = parse_aggregate element resp start 1 reply
parse_kind element null_kind resp start reply = parse_null resp start reply
parse_kind element float_kind resp start reply = parse_float resp start reply
parse_kind element unknown_kind resp start reply = (invalid_result, reply)

-- `ParseAt`, with a bound on the depth of aggregates in aggregates, and what is returned where the
-- depth runs out, which the source does not have
unfoldable pub parse_at : (ℕ → List (List ℕ) → Parsed) → ℕ → List ℕ → ℕ → List (List ℕ) → Parsed
parse_at exhausted zero resp start reply = exhausted start reply
parse_at exhausted (suc depth) resp start reply = elim (leb (length resp) start) [
  | true ↦ (incomplete_result, reply)
  | false ↦
      parse_kind (parse_at exhausted depth resp) (kind_of (get_or (drop start resp) 0 0)) resp start
        reply
]

-- Stands where the depth runs out, which it does nowhere in `parse`.
abbrev pub out_of_depth : ℕ → List (List ℕ) → Parsed
out_of_depth start reply = (incomplete_result, reply)

-- `Parse`; an aggregate starts behind the one it is in, so its depth is at most the bytes there are
unfoldable pub parse : List ℕ → List (List ℕ) → Parsed
parse resp reply =
    let r = parse_at out_of_depth (length resp + 1) resp 0 reply in
    elim r.0.status [
      | complete ↦ r
      | incomplete ↦ (r.0, take (length reply) r.1)
      | invalid ↦ (r.0, take (length reply) r.1)
    ]

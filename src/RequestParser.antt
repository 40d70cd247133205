-- ===== src/RequestParser.antt =====
-- server/request_parser.h and server/request_parser.cpp: one inline or RESP array request at the
-- front of the input. The views that the parser returns are the bytes they show; the result
-- parameters `command` and `args` are returned beside the result.
pub mod Encoding
pub mod Size
pub mod Bulk
pub mod Request
pub mod Bounds
pub mod Outcome
use redis_simple.Common.{
  ℕ, zero, suc, ◌+◌, ◌-◌, ◌*◌, ◌^◌, Bool, true, false, not, ◌&&◌, ◌||◌, Option, none, some, List,
  [], ◌∷◌, ◌++◌, ltb, leb, ◌==◌, if◌then◌else◌, length, take, drop, get_or,
}

pub data ParseStatus : Type 0 where
  complete : ParseStatus
  incomplete : ParseStatus
  invalid : ParseStatus

pub record ParseResult : Type 0 where
  pub status : ParseStatus
  pub consumed : ℕ

abbrev pub max_command_elements : ℕ
max_command_elements = 1024 * 1024

-- `find` of a byte, and `find_first_not_of`: the first index from `i` on whose byte passes
unfoldable pub find_where : (ℕ → Bool) → ℕ → List ℕ → Option ℕ
find_where p i [] = none
find_where p i (c ∷ cs) = let rest = find_where p (i + 1) cs in if p c then some i else rest

abbrev pub find_from : (ℕ → Bool) → ℕ → List ℕ → Option ℕ
find_from p start s = find_where p start (drop start s)

-- `find` of "\r\n"
unfoldable pub find_pair : ℕ → List ℕ → Option ℕ
find_pair i [] = none
find_pair i (c ∷ cs) =
    let rest = find_pair (i + 1) cs in
    if c == b'\r' && (ltb 0 (length cs) && get_or cs 0 0 == b'\n') then some i else rest

unfoldable pub find_crlf : List ℕ → ℕ → ParseResult
find_crlf input start = elim (find_pair start (drop start input)) [
  | none ↦ record { status = incomplete; consumed = 0 }
  | some end ↦ record { status = complete; consumed = end }
]

-- `from_chars`: the digits at the front, their value and their number
unfoldable pub take_digits : ℕ → ℕ → List ℕ → ℕ × ℕ
take_digits value n [] = (value, n)
take_digits value n (c ∷ cs) =
    let rest = take_digits (value * 10 + (c - b'0')) (n + 1) cs in
    if leb b'0' c && leb c b'9' then rest else (value, n)

unfoldable pub parse_size : List ℕ → Option ℕ
parse_size value =
    let (parsed, n) = take_digits 0 0 value in
    if length value == 0
    then none
    else if n == length value && ltb parsed (2 ^ 64)
    then some parsed
    else none

-- `ParseBulkString` once the length is read: the result and the string.
unfoldable pub bulk_content : List ℕ → ℕ → ℕ → ℕ → ParseResult × List ℕ
bulk_content input start content_start size =
    let end = content_start + size in
    if ltb (2 ^ 64 - 1 - content_start - 2) size
    then (record { status = invalid; consumed = 0 }, [])
    else if ltb (length input) (end + 2)
    then (record { status = incomplete; consumed = 0 }, [])
    else if not (get_or (drop end input) 0 0 == b'\r' && get_or (drop end input) 1 0 == b'\n')
    then (record { status = invalid; consumed = 0 }, [])
    else (
      record { status = complete; consumed = end + 2 - start },
      take size (drop content_start input),
    )

-- ... from the result of `FindCrlf` on
unfoldable pub bulk_header : List ℕ → ℕ → ParseResult → ParseResult × List ℕ
bulk_header input start header = elim header.status [
  | complete ↦ elim (parse_size (take (header.consumed - start - 1) (drop (start + 1) input))) [
    | none ↦ (record { status = invalid; consumed = 0 }, [])
    | some size ↦ bulk_content input start (header.consumed + 2) size
  ]
  | incomplete ↦ (header, [])
  | invalid ↦ (header, [])
]

unfoldable pub parse_bulk_string : List ℕ → ℕ → ParseResult × List ℕ
parse_bulk_string input start =
    if leb (length input) start
    then (record { status = incomplete; consumed = 0 }, [])
    else if not (get_or (drop start input) 0 0 == b'$')
    then (record { status = invalid; consumed = 0 }, [])
    else bulk_header input start (find_crlf input (start + 1))

-- What a parse gives: the result, the command and the arguments.
pub record Parsed : Type 0 where
  pub result : ParseResult
  pub command : List ℕ
  pub args : List (List ℕ)

-- The loop of `ParseResp`, with the number of elements that are left.
unfoldable pub parse_elements : List ℕ → ℕ → ℕ → ℕ → List ℕ → List (List ℕ) → Parsed
parse_elements input zero index consumed command args = record {
  result = record { status = complete; consumed = consumed };
  command = command;
  args = args;
}
parse_elements input (suc left) index consumed command args =
    let (element, value) = parse_bulk_string input consumed in
    elim element.status [
      | complete ↦
          parse_elements input left (index + 1) (consumed + element.consumed)
            (if index == 0 then value else command)
            (if index == 0 then args else args ++ value ∷ [])
      | incomplete ↦ record { result = element; command = command; args = args }
      | invalid ↦ record { result = element; command = command; args = args }
    ]

unfoldable pub resp_header : List ℕ → ParseResult → Parsed
resp_header input header =
    let failed : ParseResult = record { status = invalid; consumed = 0 } in
    elim header.status [
      | complete ↦ elim (parse_size (take (header.consumed - 1) (drop 1 input))) [
        | none ↦ record { result = failed; command = []; args = [] }
        | some element_count ↦
            if element_count == 0 || ltb max_command_elements element_count
            then record { result = failed; command = []; args = [] }
            else parse_elements input element_count 0 (header.consumed + 2) [] []
      ]
      | incomplete ↦ record { result = header; command = []; args = [] }
      | invalid ↦ record { result = header; command = []; args = [] }
    ]

unfoldable pub parse_resp : List ℕ → Parsed
parse_resp input = resp_header input (find_crlf input 1)

abbrev pub is_space : ℕ → Bool
is_space c = c == b' '

abbrev pub is_not_space : ℕ → Bool
is_not_space c = not (c == b' ')

-- The loop of `ParseInline` from `position` on; each round moves on.
unfoldable pub parse_words : ℕ → List ℕ → ℕ → List (List ℕ) → List (List ℕ)
parse_words zero line position args = args
parse_words (suc fuel) line position args = elim (find_from is_not_space position line) [
  | none ↦ args
  | some start ↦ elim (find_from is_space start line) [
    | none ↦ args ++ drop start line ∷ []
    | some end ↦ parse_words fuel line end (args ++ take (end - start) (drop start line) ∷ [])
  ]
]

-- The words of a line.
unfoldable pub parse_line : List ℕ → ParseResult → Parsed
parse_line line result = elim (find_from is_not_space 0 line) [
  | none ↦ record { result = result; command = []; args = [] }
  | some position ↦ elim (find_from is_space position line) [
    | none ↦ record { result = result; command = drop position line; args = [] }
    | some end ↦ record {
      result = result;
      command = take (end - position) (drop position line);
      args = parse_words (length line) line end [];
    }
  ]
]

unfoldable pub parse_inline : List ℕ → Parsed
parse_inline input = elim (find_where (λ c. c == b'\n') 0 input) [
  | none ↦ record { result = record { status = incomplete; consumed = 0 }; command = []; args = [] }
  | some newline ↦
      let line_end =
        if ltb 0 newline && get_or (drop (newline - 1) input) 0 0 == b'\r'
        then newline - 1
        else newline in
      parse_line (take line_end input) record { status = complete; consumed = newline + 1 }
]

-- The command and the arguments are only those of a complete request.
unfoldable pub cleared : Parsed → Parsed
cleared parsed = elim parsed.result.status [
  | complete ↦ parsed
  | incomplete ↦ record { result = parsed.result; command = []; args = [] }
  | invalid ↦ record { result = parsed.result; command = []; args = [] }
]

unfoldable pub parse : List ℕ → Parsed
parse [] = record { result = record { status = incomplete; consumed = 0 }; command = []; args = [] }
parse (c ∷ cs) = cleared (if c == b'*' then parse_resp (c ∷ cs) else parse_inline (c ∷ cs))

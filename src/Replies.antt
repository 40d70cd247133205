-- ===== src/Replies.antt =====
-- server/reply.h and server/reply.cpp: the RESP text of a reply. A string is the list of its bytes,
-- and `std::to_chars` writes the decimal text of an integer.
use redis_simple.Common.{
  ℕ, ◌*◌, ◌-◌, ◌/◌, ◌^◌, Bool, not, ◌&&◌, Option, none, some, List, [], ◌∷◌, ◌++◌, ltb, ◌==◌,
  if◌then◌else◌, length, get_or,
}
use redis_simple.Common.Int.{ℤ, pos}
use redis_simple.Decimal.{codes}
use redis_simple.Decimal.Spec.{text}

pub data ProtocolVersion : Type 0 where
  resp2 : ProtocolVersion
  resp3 : ProtocolVersion

abbrev pub crlf : List ℕ
crlf = b'\r' ∷ b'\n' ∷ []

abbrev pub append_integer : ℤ → List ℕ → List ℕ
append_integer value output = output ++ text value

unfoldable pub from_string : List ℕ → List ℕ
from_string s = b'+' ∷ (s ++ crlf)

unfoldable pub append_bulk_string : List ℕ → List ℕ → List ℕ
append_bulk_string s reply =
    append_integer (pos (length s)) (reply ++ b'$' ∷ []) ++ (crlf ++ (s ++ crlf))

unfoldable pub from_bulk_string : List ℕ → List ℕ
from_bulk_string s = append_bulk_string s []

unfoldable pub from_int64 : ℤ → List ℕ
from_int64 i64 = append_integer i64 (b':' ∷ []) ++ crlf

unfoldable pub append_array_header : ℕ → List ℕ → List ℕ
append_array_header size reply = append_integer (pos size) (reply ++ b'*' ∷ []) ++ crlf

unfoldable pub from_array_header : ℕ → List ℕ
from_array_header size = append_array_header size []

-- the end of an encoded element
abbrev pub ends_in_crlf : List ℕ → Bool
ends_in_crlf str =
    not (ltb (length str) 2)
    && (get_or str (length str - 2) 0 == b'\r' && get_or str (length str - 1) 0 == b'\n')

unfoldable pub append_elements : List ℕ → List (List ℕ) → Option (List ℕ)
append_elements reply [] = some reply
append_elements reply (str ∷ array) =
    let rest = append_elements (reply ++ str) array in if ends_in_crlf str then rest else none

-- `FromArray`; `none` is the exception
unfoldable pub from_array : List (List ℕ) → Option (List ℕ)
from_array array = append_elements (from_array_header (length array)) array

unfoldable pub append_bulk_strings : List (List ℕ) → List ℕ → List ℕ
append_bulk_strings [] reply = reply
append_bulk_strings (value ∷ values) reply =
    append_bulk_strings values (append_bulk_string value reply)

unfoldable pub from_bulk_string_array : List (List ℕ) → List ℕ
from_bulk_string_array values = append_bulk_strings values (from_array_header (length values))

-- `FromFloat` on the text that `FloatToString` gives
unfoldable pub from_float_text : List ℕ → ProtocolVersion → List ℕ
from_float_text value resp2 = from_bulk_string value
from_float_text value resp3 = b',' ∷ (value ++ crlf)

unfoldable pub from_error : List ℕ → List ℕ
from_error message = b'-' ∷ (message ++ crlf)

abbrev pub wrong_number_of_arguments : List ℕ
wrong_number_of_arguments = from_error (codes "ERR wrong number of arguments")

abbrev pub unknown_command : List ℕ → List ℕ
unknown_command command = from_error (codes "ERR unknown command '" ++ (command ++ codes "'"))

abbrev pub syntax_error : List ℕ
syntax_error = from_error (codes "ERR syntax error")

abbrev pub wrong_type_error : List ℕ
wrong_type_error =
    from_error (codes "WRONGTYPE Operation against a key holding the wrong kind of value")

unfoldable pub null : ProtocolVersion → List ℕ
null resp2 = codes "$-1" ++ crlf
null resp3 = b'_' ∷ crlf

-- `none` is the exception
unfoldable pub from_map_header : ℕ → ProtocolVersion → Option (List ℕ)
from_map_header size resp2 =
    if ltb ((2 ^ 64 - 1) / 2) size then none else some (from_array_header (size * 2))
from_map_header size resp3 = some (append_integer (pos size) (b'%' ∷ []) ++ crlf)

unfoldable pub from_set_header : ℕ → ProtocolVersion → List ℕ
from_set_header size resp2 = from_array_header size
from_set_header size resp3 = append_integer (pos size) (b'~' ∷ []) ++ crlf

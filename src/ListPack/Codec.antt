-- ===== src/ListPack/Codec.antt =====
-- memory/listpack.h and memory/listpack.cpp: the entries of a listpack written and read. A buffer is
-- the list of its bytes; bits that are joined by `|` are added, and those that `&` and `>>` take out
-- are remainders and quotients by powers of 2.
use redis_simple.Common.{
  ℕ, zero, suc, ◌+◌, ◌-◌, ◌*◌, ◌/◌, ◌%◌, ◌^◌, Option, none, some, List, [], ◌∷◌, ◌++◌, ltb, leb,
  ◌==◌, if◌then◌else◌, length, take, drop, get_or,
}
use redis_simple.Common.Int.{ℤ, pos, negsuc}
use redis_simple.Decimal.{to_canonical_int64}
use redis_simple.Decimal.Spec.{text}

pub data EncodingType : Type 0 where
  unsigned_7_bit : EncodingType
  string_6_bit : EncodingType
  integer_13_bit : EncodingType
  string_12_bit : EncodingType
  string_32_bit : EncodingType
  integer_16_bit : EncodingType
  integer_24_bit : EncodingType
  integer_32_bit : EncodingType
  integer_64_bit : EncodingType

abbrev pub header_size : ℕ
header_size = 6

abbrev pub eof : ℕ
eof = 0xff

abbrev pub at : List ℕ → ℕ → ℕ
at lp idx = get_or lp idx 0

-- `k` bytes of a number, the highest first, and the number that `k` bytes from `idx` on make.
unfoldable pub big_endian : ℕ → ℕ → List ℕ
big_endian zero u = []
big_endian (suc k) u = big_endian k (u / 256) ++ (u % 256) ∷ []

unfoldable pub read_big : List ℕ → ℕ → ℕ → ℕ
read_big lp idx zero = 0
read_big lp idx (suc k) = read_big lp idx k * 256 + at lp (idx + k)

unfoldable pub total_bytes : List ℕ → ℕ
total_bytes lp = read_big lp 0 4

unfoldable pub backlen_bytes : ℕ → ℕ
backlen_bytes backlen =
    if leb backlen (2 ^ 7 - 1)
    then 1
    else if leb backlen (2 ^ 14 - 1)
    then 2
    else if leb backlen (2 ^ 21 - 1)
    then 3
    else if leb backlen (2 ^ 28 - 1)
    then 4
    else 5

-- The loop of `EncodeBacklen` from the second byte on, with the number of bytes that are left.
unfoldable pub encode_backlen_loop : ℕ → ℕ → List ℕ
encode_backlen_loop zero backlen = []
encode_backlen_loop (suc left) backlen =
    (backlen % 128 + 128) ∷ encode_backlen_loop left (backlen / 128)

unfoldable pub encode_backlen : ℕ → List ℕ
encode_backlen backlen =
    (backlen % 128) ∷ encode_backlen_loop (backlen_bytes backlen - 1) (backlen / 128)

-- The bytes of an entry with their number, which is returned, and the back length behind them.
abbrev pub with_backlen : List ℕ → ℕ → ℕ × List ℕ
with_backlen bytes backlen = (backlen, bytes ++ encode_backlen backlen)

abbrev pub encode_wide : ℕ → ℕ → ℕ → ℕ × List ℕ
encode_wide type k u = with_backlen (type ∷ big_endian k u) (k + 1)

abbrev pub encode_13_bit : ℕ → ℕ × List ℕ
encode_13_bit u = with_backlen ((0xc0 + u / 256) ∷ (u % 256) ∷ []) 2

-- `EncodeInteger`: the back length that is returned, and the bytes that are written
unfoldable pub encode_integer : ℤ → ℕ × List ℕ
encode_integer (pos n) =
    if leb n 127
    then with_backlen (n ∷ []) 1
    else if leb n 4095
    then encode_13_bit n
    else if leb n (2 ^ 15 - 1)
    then encode_wide 0xf1 2 n
    else if leb n (2 ^ 23 - 1)
    then encode_wide 0xf2 3 n
    else if leb n (2 ^ 31 - 1)
    then encode_wide 0xf3 4 n
    else encode_wide 0xf4 8 n
encode_integer (negsuc m) =
    if leb (m + 1) 4096
    then encode_13_bit (2 ^ 13 - (m + 1))
    else if leb (m + 1) (2 ^ 15)
    then encode_wide 0xf1 2 (2 ^ 16 - (m + 1))
    else if leb (m + 1) (2 ^ 23)
    then encode_wide 0xf2 3 (2 ^ 24 - (m + 1))
    else if leb (m + 1) (2 ^ 31)
    then encode_wide 0xf3 4 (2 ^ 32 - (m + 1))
    else encode_wide 0xf4 8 (2 ^ 64 - (m + 1))

-- `EncodeString`: the same
unfoldable pub encode_string : List ℕ → ℕ × List ℕ
encode_string ele =
    let len = length ele in
    if leb len 63
    then with_backlen ((0x80 + len) ∷ ele) (1 + len)
    else if leb len 4095
    then with_backlen ((0xe0 + len / 256) ∷ (len % 256) ∷ ele) (2 + len)
    else with_backlen (0xf0 ∷ (big_endian 4 len ++ ele)) (5 + len)

unfoldable pub type_of : ℕ → EncodingType
type_of byte =
    if ltb byte 0x80
    then unsigned_7_bit
    else if byte / 64 == 2
    then string_6_bit
    else if byte / 32 == 6
    then integer_13_bit
    else if byte / 16 == 14
    then string_12_bit
    else if byte == 0xf1
    then integer_16_bit
    else if byte == 0xf2
    then integer_24_bit
    else if byte == 0xf3
    then integer_32_bit
    else if byte == 0xf4
    then integer_64_bit
    else string_32_bit

abbrev pub encoding_at : List ℕ → ℕ → EncodingType
encoding_at lp idx = type_of (at lp idx)

-- An `int` of 32 bits as a `size_t`.
abbrev pub sign_extended : ℕ → ℕ
sign_extended w = if ltb w (2 ^ 31) then w else w + (2 ^ 64 - 2 ^ 32)

-- `DecodeStringLength` of an entry of the type
unfoldable pub string_length : List ℕ → ℕ → EncodingType → ℕ
string_length lp idx type = elim type [
  | string_6_bit ↦ at lp idx % 64
  | string_12_bit ↦ at lp idx % 16 * 256 + at lp (idx + 1)
  | string_32_bit ↦ sign_extended (read_big lp (idx + 1) 4)
  | unsigned_7_bit ↦ sign_extended (read_big lp (idx + 1) 4)
  | integer_13_bit ↦ sign_extended (read_big lp (idx + 1) 4)
  | integer_16_bit ↦ sign_extended (read_big lp (idx + 1) 4)
  | integer_24_bit ↦ sign_extended (read_big lp (idx + 1) 4)
  | integer_32_bit ↦ sign_extended (read_big lp (idx + 1) 4)
  | integer_64_bit ↦ sign_extended (read_big lp (idx + 1) 4)
]

unfoldable pub decode_string_length : List ℕ → ℕ → ℕ
decode_string_length lp idx = string_length lp idx (encoding_at lp idx)

-- `Backlen` of an entry of the type
unfoldable pub backlen_of : List ℕ → ℕ → EncodingType → ℕ
backlen_of lp idx unsigned_7_bit = 1
backlen_of lp idx string_6_bit = 1 + decode_string_length lp idx
backlen_of lp idx integer_13_bit = 2
backlen_of lp idx string_12_bit = 2 + decode_string_length lp idx
backlen_of lp idx integer_16_bit = 3
backlen_of lp idx integer_24_bit = 4
backlen_of lp idx integer_32_bit = 5
backlen_of lp idx string_32_bit = 5 + decode_string_length lp idx
backlen_of lp idx integer_64_bit = 9

unfoldable pub backlen_at : List ℕ → ℕ → ℕ
backlen_at lp idx = backlen_of lp idx (encoding_at lp idx)

-- The loop of `DecodeBacklen`, which stops at the front of the buffer at the latest
unfoldable pub decode_backlen : List ℕ → ℕ → ℕ → ℕ
decode_backlen lp zero backlen = backlen * 128 + at lp 0 % 128
decode_backlen lp (suc idx) backlen =
    let rest = decode_backlen lp idx (backlen * 128 + at lp (suc idx) % 128) in
    if ltb (at lp (suc idx)) 128 then backlen * 128 + at lp (suc idx) % 128 else rest

-- The bytes of a string entry; `none` is a null pointer.
unfoldable pub string_at : List ℕ → ℕ → EncodingType → Option (List ℕ)
string_at lp idx type = elim type [
  | string_6_bit ↦ some (take (decode_string_length lp idx) (drop (idx + 1) lp))
  | string_12_bit ↦ some (take (decode_string_length lp idx) (drop (idx + 2) lp))
  | string_32_bit ↦ some (take (decode_string_length lp idx) (drop (idx + 5) lp))
  | unsigned_7_bit ↦ none
  | integer_13_bit ↦ none
  | integer_16_bit ↦ none
  | integer_24_bit ↦ none
  | integer_32_bit ↦ none
  | integer_64_bit ↦ none
]

-- The end of `IntegerAt`: a value from `negstart` on stands for a negative number.
abbrev pub signed : ℕ → ℕ → ℕ → ℤ
signed negstart negmax uval = if leb negstart uval then negsuc (negmax - uval) else pos uval

unfoldable pub integer_at : List ℕ → ℕ → EncodingType → Option ℤ
integer_at lp idx type = elim type [
  | unsigned_7_bit ↦ some (signed (2 ^ 64 - 1) 0 (at lp idx % 128))
  | integer_13_bit ↦ some (signed (2 ^ 12) (2 ^ 13 - 1) (at lp idx % 32 * 256 + at lp (idx + 1)))
  | integer_16_bit ↦ some (signed (2 ^ 15) (2 ^ 16 - 1) (read_big lp (idx + 1) 2))
  | integer_24_bit ↦ some (signed (2 ^ 23) (2 ^ 24 - 1) (read_big lp (idx + 1) 3))
  | integer_32_bit ↦ some (signed (2 ^ 31) (2 ^ 32 - 1) (read_big lp (idx + 1) 4))
  | integer_64_bit ↦ some (signed (2 ^ 63) (2 ^ 64 - 1) (read_big lp (idx + 1) 8))
  | string_6_bit ↦ none
  | string_12_bit ↦ none
  | string_32_bit ↦ none
]

-- The choice of `Insert`: a canonical integer is stored as one.
unfoldable pub encode_element : List ℕ → ℕ × List ℕ
encode_element element_string = elim (to_canonical_int64 element_string) [
  | some sval ↦ encode_integer sval
  | none ↦ encode_string element_string
]

-- The text of an entry of the type; the buffer of `IntegerAt` takes that of any integer.
unfoldable pub text_at : List ℕ → ℕ → EncodingType → Option (List ℕ)
text_at lp idx type = elim (string_at lp idx type) [
  | some s ↦ some s
  | none ↦ elim (integer_at lp idx type) [ none ↦ none | some val ↦ some (text val) ]
]

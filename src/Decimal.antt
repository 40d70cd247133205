-- ===== src/Decimal.antt =====
-- utils/int_utils.cpp and the integers of utils/string_utils.cpp: digit counts, and the decimal
-- text of 64-bit integers, printed and parsed. A text is the list of its bytes; `none` is the
-- result `false` of a parser.
pub mod Width
pub mod Spec
pub mod Table
pub mod Print
pub mod Parse
pub mod Numeral
pub mod Read
pub mod RoundTrip
use redis_simple.Common.{
  ℕ, zero, suc, ◌+◌, ◌-◌, ◌*◌, ◌/◌, ◌%◌, ◌^◌, Bool, true, false, ◌&&◌, ◌||◌, Option, none, some,
  List, [], ◌∷◌, ltb, leb, ◌==◌, if◌then◌else◌, length, drop, set, get_or,
}
use redis_simple.Common.Int.{ℤ, pos, negsuc}
use Prim.Native.Char.{code}
use Prim.Native.String.{String}

abbrev pub codes : String → List ℕ
codes String.[] = []
codes (String.◌∷◌ c s) = code c ∷ codes s

-- `Digits10`, on fuel: two rounds are enough for 64 bits.
unfoldable pub digits10_from : ℕ → ℕ → ℕ
digits10_from zero v = 0
digits10_from (suc fuel) v =
    let rest = digits10_from fuel (v / 1000000000000) in
    if ltb v 10
    then 1
    else if ltb v 100
    then 2
    else if ltb v 1000
    then 3
    else if ltb v 1000000000000
    then (if ltb v 100000000
        then (if ltb v 1000000
            then (if ltb v 10000 then 4 else 5 + (if leb 100000 v then 1 else 0))
            else 7 + (if leb 10000000 v then 1 else 0))
        else if ltb v 10000000000
        then 9 + (if leb 1000000000 v then 1 else 0)
        else 11 + (if leb 100000000000 v then 1 else 0))
    else 12 + rest

unfoldable pub digits10 : ℕ → ℕ
unfolding digits10_from
digits10 v = digits10_from 2 v

-- `kDigits`
abbrev pub digit_table : List ℕ
digit_table =
    codes
      "00010203040506070809101112131415161718192021222324252627282930313233343536373839404142434445464748495051525354555657585960616263646566676869707172737475767778798081828384858687888990919293949596979899"

unfoldable pub table_at : ℕ → ℕ
table_at i = get_or digit_table i 0

-- the loop of `Uint64ToString` and the last one or two digits; each round takes two digits
unfoldable pub write_digits : ℕ → List ℕ → ℕ → ℕ → List ℕ
write_digits zero dst next value = dst
write_digits (suc fuel) dst next value =
    let i = value % 100 * 2 in
    let pair = set (set dst next (table_at (i + 1))) (next - 1) (table_at i) in
    elim (leb 100 value) [
      | true ↦ write_digits fuel pair ((next + 2 ^ 32 - 2) % 2 ^ 32) (value / 100)
      | false ↦
          if ltb value 10
          then set dst next (b'0' + value)
          else set (set dst next (table_at (value * 2 + 1))) (next - 1) (table_at (value * 2))
    ]

-- `Uint64ToString` into an array: the array, and the length that is returned
unfoldable pub uint64_to_string : List ℕ → ℕ → List ℕ × ℕ
uint64_to_string dst value =
    let n = digits10 value in
    if leb (length dst) n then (set dst 0 0, 0) else (write_digits n (set dst n 0) (n - 1) value, n)

-- `Int64ToString`
unfoldable pub int64_to_string : List ℕ → ℤ → List ℕ × ℕ
int64_to_string dst (pos n) = uint64_to_string dst n
int64_to_string [] (negsuc n) = ([], 0)
int64_to_string (x ∷ []) (negsuc n) = (0 ∷ [], 0)
int64_to_string (x ∷ y ∷ rest) (negsuc n) =
    let (dst, k) = uint64_to_string (y ∷ rest) (n + 1) in (b'-' ∷ dst, if k == 0 then 0 else k + 1)

-- the loop of `ToInt64` from index `i` on
unfoldable pub parse_digits : ℕ → Bool → ℕ → ℕ → List ℕ → ℕ → Option ℕ
parse_digits size has_sign max i [] magnitude = some magnitude
parse_digits size has_sign max i (c ∷ cs) magnitude =
    let rest = parse_digits size has_sign max (i + 1) cs (magnitude * 10 + (c - b'0')) in
    if c == b'0' && (i == 0 && ltb 1 size || i == 1 && has_sign && ltb 2 size)
    then none
    else if ltb c b'0' || ltb b'9' c
    then none
    else if ltb ((max - (c - b'0')) / 10) magnitude
    then none
    else rest

-- -m, for a magnitude that fits
abbrev pub negate : ℕ → ℤ
negate zero = pos 0
negate (suc m) = negsuc m

unfoldable pub to_int64 : List ℕ → Option ℤ
to_int64 s =
    let first = get_or s 0 0 in
    let has_sign = first == b'+' || first == b'-' in
    let negative = first == b'-' in
    let max = if negative then 2 ^ 63 - 1 + 1 else 2 ^ 63 - 1 in
    let start = if has_sign then 1 else 0 in
    if length s == 0 || ltb 20 (length s)
    then none
    else if has_sign && length s == 1
    then none
    else elim (parse_digits (length s) has_sign max start (drop start s) 0) [
      | none ↦ none
      | some m ↦ some (
          if negative && m == max
          then negsuc (2 ^ 63 - 1)
          else if negative
          then negate m
          else pos m)
    ]

unfoldable pub to_canonical_int64 : List ℕ → Option ℤ
to_canonical_int64 s =
    if length s == 0
      || get_or s 0 0 == b'+'
      || length s == 2 && get_or s 0 0 == b'-' && get_or s 1 0 == b'0'
    then none
    else to_int64 s

-- ===== src/ListPack.antt =====
-- memory/listpack.h and memory/listpack.cpp: the methods of a listpack, a list of bytes.
pub mod Codec
pub mod Bytes
pub mod Placed
pub mod Integers
pub mod Strings
pub mod Backlen
pub mod Entries
pub mod Walk
pub mod Insert
unfoldable pub use Codec.*
use redis_simple.Common.{
  ℕ, zero, suc, ◌+◌, ◌-◌, ◌*◌, ◌/◌, ◌%◌, ◌^◌, Bool, true, false, ◌||◌, Option, none, some, List, [],
  ◌∷◌, ◌++◌, ltb, leb, ◌==◌, if◌then◌else◌, length, take, drop, get_or, replicate, min, write_at,
}
use redis_simple.Common.Int.{ℤ, pos, negsuc}
use redis_simple.Decimal.{to_canonical_int64}
use redis_simple.Decimal.Spec.{text}

-- What a call returns, or the exception `out_of_range`.
pub data Result (A : Type 0) : Type 0 where
  out_of_range : Result A
  returned : A → Result A

unfoldable pub get : List ℕ → ℕ → Result (Option (List ℕ))
get lp idx =
    if ltb idx header_size || leb (total_bytes lp) idx
    then out_of_range
    else if idx == total_bytes lp - 1
    then returned none
    else returned (text_at lp idx (encoding_at lp idx))

unfoldable pub skip : List ℕ → ℕ → ℕ
skip lp idx =
    let backlen = backlen_at lp idx in
    if at lp idx == eof then idx else idx + backlen + backlen_bytes backlen

unfoldable pub first : List ℕ → Option ℕ
first lp = if leb (total_bytes lp) (header_size + 1) then none else some header_size

unfoldable pub next : List ℕ → ℕ → Result (Option ℕ)
next lp idx =
    let next_idx = skip lp idx in
    if ltb idx header_size || leb (total_bytes lp) idx
    then out_of_range
    else if at lp idx == eof
    then returned none
    else if at lp next_idx == eof
    then returned none
    else returned (some next_idx)

unfoldable pub prev : List ℕ → ℕ → Result (Option ℕ)
prev lp idx =
    let backlen = decode_backlen lp (idx - 1) 0 in
    if ltb idx header_size || leb (total_bytes lp) idx
    then out_of_range
    else if leb (total_bytes lp) (header_size + 1) || idx == header_size
    then returned none
    else returned (some (idx - 1 - backlen - backlen_bytes backlen + 1))

unfoldable pub last : List ℕ → Result (Option ℕ)
last lp =
    if leb (total_bytes lp) (header_size + 1) then returned none else prev lp (total_bytes lp - 1)

unfoldable pub element_count : List ℕ → ℕ
element_count lp = read_big lp 4 2

unfoldable pub set_total_bytes : ℕ → List ℕ → List ℕ
set_total_bytes listpack_bytes lp = write_at 0 (big_endian 4 listpack_bytes) lp

unfoldable pub set_num_of_elements : ℕ → List ℕ → List ℕ
set_num_of_elements num_of_elements lp = write_at 4 (big_endian 2 num_of_elements) lp

-- `Realloc`, whose new bytes are 0
unfoldable pub realloc : ℕ → List ℕ → List ℕ
realloc bytes lp =
    let copy_bytes = min (total_bytes lp) bytes in
    take copy_bytes lp ++ replicate (bytes - copy_bytes) 0

-- `Insert` from the growth of the buffer on, for `kInsertBefore`
unfoldable pub insert_bytes : List ℕ → ℕ → ℕ → ℕ × List ℕ → List ℕ
insert_bytes lp idx listpack_bytes e =
    let encoded_bytes = e.0 + backlen_bytes e.0 in
    let new_listpack_bytes = listpack_bytes + encoded_bytes in
    let grown = realloc new_listpack_bytes lp in
    let moved =
      write_at (idx + encoded_bytes) (take (listpack_bytes - idx) (drop idx grown)) grown in
    let counted =
      if element_count moved == 2 ^ 16 - 1
      then moved
      else set_num_of_elements (element_count moved + 1) moved in
    write_at idx e.1 (set_total_bytes new_listpack_bytes counted)

-- `Insert` of a string before the entry at `idx`: the listpack, and whether it was inserted
unfoldable pub insert : List ℕ → ℕ → List ℕ → Result (List ℕ × Bool)
insert lp idx element_string =
    let listpack_bytes = total_bytes lp in
    let e = encode_element element_string in
    if ltb idx header_size || leb listpack_bytes idx
    then out_of_range
    else if ltb (2 ^ 32 - 1 - 10) (length element_string)
    then returned (lp, false)
    else if ltb (2 ^ 32 - 1 - listpack_bytes) (e.0 + backlen_bytes e.0)
    then returned (lp, false)
    else returned (insert_bytes lp idx listpack_bytes e, true)

unfoldable pub append : List ℕ → List ℕ → Result (List ℕ × Bool)
append lp element_string = insert lp (total_bytes lp - 1) element_string

unfoldable pub prepend : List ℕ → List ℕ → Result (List ℕ × Bool)
prepend lp element_string = insert lp header_size element_string

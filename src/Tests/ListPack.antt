-- ===== src/Tests/ListPack.antt =====
-- Runs of the listpack: "12", stored as an integer, and "ab".
use redis_simple.Common.{
  ◌++◌, true, ℕ, ◌+◌, ◌≡◌, refl, List, [], ◌∷◌, none, some, length, arith, if◌then◌else◌, ◌==◌,
}
use redis_simple.Decimal.{codes, to_canonical_int64, to_int64, parse_digits}
use redis_simple.ListPack.{
  insert, get, next, prev, returned, total_bytes, encode_element, encode_integer, encode_string,
  encode_backlen, encode_backlen_loop, backlen_bytes, read_big, at, eof,
}
use redis_simple.ListPack.Insert.{packed, insert-packed}
use redis_simple.ListPack.Walk.{stored, buffer_of, get-stored, next-stored, prev-stored}

abbrev header : List ℕ
header = 0 ∷ 0 ∷ 0 ∷ 13 ∷ 0 ∷ 2 ∷ []

abbrev twelve : List ℕ
twelve = codes "12"

abbrev behind_twelve : List ℕ
behind_twelve = 0x82 ∷ b'a' ∷ b'b' ∷ 3 ∷ 0xff ∷ []

twelve_whole :
    total_bytes (buffer_of header twelve behind_twelve)
    ≡ length (buffer_of header twelve behind_twelve)
unfolding total_bytes read_big encode_element encode_integer encode_string encode_backlen
    encode_backlen_loop backlen_bytes to_canonical_int64 to_int64 parse_digits
twelve_whole = refl

get-stored_example :
    get (buffer_of header twelve behind_twelve) (length header) ≡ returned (some twelve)
get-stored_example =
    get-stored header twelve behind_twelve (omega arith) (omega arith) (omega arith) twelve_whole

next-stored_example :
    next (buffer_of header twelve behind_twelve) (length header)
    ≡ returned
        (if at behind_twelve 0 == eof then none else some (length header + length (stored twelve)))
next-stored_example =
    next-stored header twelve behind_twelve (omega arith) (omega arith) (omega arith) twelve_whole

prev-stored_example :
    prev (buffer_of header twelve behind_twelve) (length header + length (stored twelve))
    ≡ returned (some (length header))
prev-stored_example =
    prev-stored header twelve behind_twelve (omega arith) (omega arith) (omega arith) twelve_whole

insert-packed_example :
    insert (packed 1 (stored twelve ++ (0xff ∷ []))) (6 + length (stored twelve)) (codes "ab")
    ≡ returned (packed 2 (stored twelve ++ (stored (codes "ab") ++ (0xff ∷ []))), true)
unfolding encode_element encode_integer encode_string encode_backlen encode_backlen_loop
    backlen_bytes to_canonical_int64 to_int64 parse_digits
insert-packed_example =
    insert-packed 1 (stored twelve) (0xff ∷ []) (codes "ab") (omega arith) (omega arith)
      (omega arith) (omega arith)

-- ===== src/DynamicBuffer.antt =====
-- memory/dynamic_buffer.h and memory/dynamic_buffer.cpp: the growing read buffer of a connection.
-- `bytes` is the whole array that `buf_` owns, so `capacity` is its length by the invariant only.
-- A memchr that finds nothing is `none`; the two exceptions of `Append` are the constructors of
-- `AppendError`.
pub mod Invariant
pub mod Queue
pub mod Lines
use redis_simple.Common.{
  ℕ, zero, suc, ◌+◌, ◌-◌, ◌*◌, ◌/◌, min, max, Bool, true, false, ◌&&◌, Option, none, some, List, [],
  ◌∷◌, ◌++◌, ltb, leb, ◌==◌, if◌then◌else◌, length, take, drop, replicate, write_at, get_or, add64,
  sub64, size_max,
}

pub record Buffer : Type 0 where
  pub bytes : List ℕ
  pub capacity : ℕ
  pub size : ℕ
  pub processed : ℕ

pub data AppendError : Type 0 where
  null_buffer length_error : AppendError

pub data Appended : Type 0 where
  ok : Buffer → Appended
  thrown : AppendError → Appended

-- `kResizeThreshold` and `kGrowthSlack`
abbrev pub resize_threshold : ℕ
resize_threshold = 1024 * 32

abbrev pub growth_slack : ℕ
growth_slack = 1000

unfoldable pub new : Buffer
new = record { bytes = replicate 4096 0; capacity = 4096; size = 0; processed = 0 }

unfoldable pub unread_size : Buffer → ℕ
unread_size b = sub64 b.size b.processed

unfoldable pub empty : Buffer → Bool
empty b = b.processed == b.size

unfoldable pub consume : ℕ → Buffer → Buffer
unfolding unread_size
consume n b = record b { processed = add64 b.processed (min n (unread_size b)) }

-- `View` and `ToString`
unfoldable pub view : Buffer → List ℕ
unfolding unread_size
view b = take (unread_size b) (drop b.processed b.bytes)

unfoldable pub clear : Buffer → Buffer
clear b = record b { size = 0; processed = 0 }

unfoldable pub compact : Buffer → Buffer
unfolding view unread_size
compact b =
    if b.processed == 0
    then b
    else record b { bytes = write_at 0 (view b) b.bytes; size = unread_size b; processed = 0 }

-- the capacity that `Resize(n)` picks
unfoldable pub grown_capacity : ℕ → ℕ → ℕ
grown_capacity capacity n =
    if ltb n resize_threshold
    then max n (if ltb (size_max / 2) capacity then size_max else capacity * 2)
    else if ltb (size_max - growth_slack) n
    then n
    else n + growth_slack

unfoldable pub resize : ℕ → Buffer → Buffer
unfolding grown_capacity
resize n b =
    let c = grown_capacity b.capacity n in
    record b { bytes = write_at 0 (take b.size b.bytes) (replicate c 0); capacity = c }

-- the first test of `Append`
unfoldable pub make_room : ℕ → Buffer → Buffer
unfolding compact
make_room n b = if ltb (sub64 b.capacity b.size) n && ltb 0 b.processed then compact b else b

-- the second test and the copy
unfoldable pub store : List ℕ → Buffer → Buffer
store src b =
    let n = length src in
    let b' = if ltb (sub64 b.capacity b.size) n then resize (add64 b.size n) b else b in
    record b' { bytes = write_at b'.size src b'.bytes; size = add64 b'.size n }

-- `none` is the null pointer; a pointer and `n` are the `n` bytes that it points to.
unfoldable pub append : Option (List ℕ) → ℕ → Buffer → Appended
append source n b = if n == 0 then ok b else elim source [
  | none ↦ thrown null_buffer
  | some src ↦
      let b' = make_room n b in
      if ltb (size_max - b'.size) n then thrown length_error else ok (store src b')
]

-- memchr: the offset of the first byte `c`
unfoldable pub find_byte : ℕ → List ℕ → Option ℕ
find_byte c [] = none
find_byte c (x ∷ xs) =
    if x == c then some 0 else elim (find_byte c xs) [ none ↦ none | some i ↦ some (i + 1) ]

-- Where the line before the newline at offset `i` ends: a `\r` before the newline is dropped.
unfoldable pub line_length : List ℕ → ℕ → ℕ
line_length xs zero = zero
line_length xs (suc i) = if get_or xs i 0 == b'\r' then i else suc i

-- `ReadLineView`: the line, and the buffer behind its delimiter. `readable` is what memchr sees.
unfoldable pub read_line_view : Buffer → Option (List ℕ) × Buffer
read_line_view b =
    let readable = view b in
    elim (find_byte b'\n' readable) [
      | none ↦ (none, b)
      | some i ↦
          let n = line_length readable i in
          let delimiter = if n == i then 1 else 2 in
          (some (take n readable), record b { processed = add64 b.processed (n + delimiter) })
    ]

unfoldable pub read_line : Buffer → List ℕ × Buffer
read_line b = let (line, b') = read_line_view b in (elim line [ none ↦ [] | some l ↦ l ], b')

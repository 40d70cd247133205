-- ===== src/IntSet.antt =====
-- memory/intset.h and memory/intset.cpp: a set of 64-bit integers in one ascending array, whose
-- cells are as wide as its widest member needs.
-- The byte array is read and written only in cells of `encoding` bytes at multiples of that width,
-- so `contents` lists the cells: the bit patterns, as numbers. `none` is the exception
-- `out_of_range`; it also stands for a read outside of the array, which no well-formed set makes.
-- A byte offset `index * encoding` is an unsigned product of 32 bits, which wraps; `slot` is the cell
-- that it points at. The length wraps at 2 ^ 32 too.
pub mod Encoding
pub mod Sorted
pub mod Invariant
pub mod Cells
pub mod Search
pub mod Update
pub mod Upgrade
pub mod Widened
pub mod Methods
use redis_simple.Common.{
  ℕ, zero, suc, ◌+◌, ◌-◌, ◌*◌, ◌/◌, ◌%◌, ◌^◌, min, Bool, true, false, ◌||◌, Option, none, some,
  List, [], ◌∷◌, ltb, leb, ◌==◌, if◌then◌else◌, length, take, drop, replicate, write_at, get_elem?,
  get_or, set,
}
use redis_simple.Common.Int.{ℤ, pos, negsuc, ltb_ℤ, eqb_ℤ}

-- `EncodingType`
pub data Width : Type 0 where
  int16 int32 int64 : Width

unfoldable pub bytes_of : Width → ℕ
bytes_of int16 = 2
bytes_of int32 = 4
bytes_of int64 = 8

-- the bits of a cell but the sign
abbrev pub magnitude : Width → ℕ
magnitude int16 = 15
magnitude int32 = 31
magnitude int64 = 63

-- the cast to a signed type of this width, as a bit pattern
unfoldable pub to_cell : ℕ → ℤ → ℕ
to_cell w (pos n) = n % 2 ^ (w + 1)
to_cell w (negsuc n) = 2 ^ (w + 1) - 1 - n % 2 ^ (w + 1)

-- the integer that a bit pattern of this width stands for
unfoldable pub of_cell : ℕ → ℕ → ℤ
of_cell w c = if ltb c (2 ^ w) then pos c else negsuc (2 ^ (w + 1) - 1 - c)

pub record IntSet : Type 0 where
  pub contents : List ℕ
  pub length : ℕ
  pub encoding : Width

unfoldable pub new : IntSet
new = record { contents = replicate 1 0; length = 0; encoding = int16 }

unfoldable pub value_encoding : ℤ → Width
value_encoding v =
    if ltb_ℤ v (negsuc (2 ^ 31 - 1)) || ltb_ℤ (pos (2 ^ 31 - 1)) v
    then int64
    else if ltb_ℤ v (negsuc (2 ^ 15 - 1)) || ltb_ℤ (pos (2 ^ 15 - 1)) v
    then int32
    else int16

-- The cell at the offset `index * encoding`, which wraps at 2 ^ 32; a width divides 2 ^ 32, so the
-- offset is one of a whole cell.
unfoldable pub slot : Width → ℕ → ℕ
slot w i = i * bytes_of w % 2 ^ 32 / bytes_of w

unfoldable pub encoded_value : IntSet → ℕ → Option ℤ
encoded_value s i =
    if leb s.length i then none else elim (get_elem? s.contents (slot s.encoding i)) [
      | none ↦ none
      | some c ↦ some (of_cell (magnitude s.encoding) c)
    ]

-- `Get`, `Min` and `Max`; `length_ - 1` is an unsigned int.
unfoldable pub get : IntSet → ℕ → Option ℤ
unfolding encoded_value
get s i = encoded_value s i

unfoldable pub minimum : IntSet → Option ℤ
unfolding get
minimum s = get s 0

unfoldable pub maximum : IntSet → Option ℤ
unfolding get
maximum s = get s ((s.length + 2 ^ 32 - 1) % 2 ^ 32)

-- Whether `Search` found the value, and the index that it sets.
pub record Found : Type 0 where
  pub exists : Bool
  pub index : ℕ

-- the loop of `Search`, on fuel; `none` also where the fuel runs out
unfoldable pub search_loop : ℕ → IntSet → ℤ → ℕ → ℕ → Option Found
search_loop zero s v lo hi = none
search_loop (suc fuel) s v lo hi =
    let mid = lo + (hi - lo) / 2 in
    elim (ltb lo hi) [
      | false ↦ some (record { exists = false; index = lo })
      | true ↦ elim (encoded_value s mid) [
        | none ↦ none
        | some x ↦ elim (eqb_ℤ x v) [
          | true ↦ some (record { exists = true; index = mid })
          | false ↦ elim (ltb_ℤ x v) [
            | true ↦ search_loop fuel s v (mid + 1) hi
            | false ↦ search_loop fuel s v lo mid
          ]
        ]
      ]
    ]

-- Each round halves the range, so one more round than there are members is enough.
unfoldable pub search : IntSet → ℤ → Option Found
unfolding encoded_value search_loop
search s v =
    let loop = search_loop (s.length + 1) s v 0 s.length in
    if s.length == 0 then loop else elim (encoded_value s 0) [
      | none ↦ none
      | some least ↦
          if ltb_ℤ v least
          then some (record { exists = false; index = 0 })
          else elim (encoded_value s (s.length - 1)) [
            | none ↦ none
            | some greatest ↦
                if ltb_ℤ greatest v
                then some (record { exists = false; index = s.length })
                else loop
          ]
    ]

-- `Set`
unfoldable pub store : ℕ → ℤ → IntSet → IntSet
store i v s = record s {
  contents = set s.contents (slot s.encoding i) (to_cell (magnitude s.encoding) v);
}

unfoldable pub resize : ℕ → IntSet → IntSet
resize n s = record s { contents = write_at 0 (take (min s.length n) s.contents) (replicate n 0) }

unfoldable pub move_tail : ℕ → ℕ → IntSet → IntSet
move_tail from to s = record s {
  contents =
      write_at (slot s.encoding to)
        (take ((s.length + 2 ^ 32 - from) % 2 ^ 32) (drop (slot s.encoding from) s.contents))
        s.contents;
}

-- the loop of `UpgradeAndAdd`, from the last cell down; `old` and `w` are those before the upgrade
unfoldable pub upgrade_loop : List ℕ → Width → ℕ → ℕ → IntSet → IntSet
upgrade_loop old w prepend zero s = s
upgrade_loop old w prepend (suc i) s =
    upgrade_loop old w prepend i
      (store (i + prepend) (of_cell (magnitude w) (get_or old (slot w i) 0)) s)

unfoldable pub upgrade_and_add : ℤ → IntSet → IntSet
unfolding upgrade_loop store value_encoding
upgrade_and_add v s =
    let n = s.length in
    let fresh : IntSet = record {
      contents = replicate ((n + 1) % 2 ^ 32) 0;
      length = n;
      encoding = value_encoding v;
    } in
    let prepend = if ltb_ℤ v (pos 0) then 1 else 0 in
    let moved = upgrade_loop s.contents s.encoding prepend n fresh in
    let stored = if prepend == 1 then store 0 v moved else store n v moved in
    record stored { length = (n + 1) % 2 ^ 32 }

-- `Add`: the set, and whether the value is new
unfoldable pub add : ℤ → IntSet → Option (IntSet × Bool)
add v s =
    if ltb (bytes_of s.encoding) (bytes_of (value_encoding v))
    then some (upgrade_and_add v s, true)
    else elim (search s v) [
      | none ↦ none
      | some f ↦
          if f.exists
          then some (s, false)
          else (let s₁ = resize ((s.length + 1) % 2 ^ 32) s in
              let s₂ = if ltb f.index s₁.length then move_tail f.index (f.index + 1) s₁ else s₁ in
              let s₃ = store f.index v s₂ in
              some (record s₃ { length = (s₃.length + 1) % 2 ^ 32 }, true))
    ]

unfoldable pub find : ℤ → IntSet → Option Bool
find v s =
    if leb (bytes_of (value_encoding v)) (bytes_of s.encoding)
    then elim (search s v) [ none ↦ none | some f ↦ some f.exists ]
    else some false

-- `Remove`: the set, and whether the value was there
unfoldable pub remove : ℤ → IntSet → Option (IntSet × Bool)
remove v s = elim (search s v) [
  | none ↦ none
  | some f ↦
      if f.exists
      then (let s₁ = resize (s.length - 1) (move_tail (f.index + 1) f.index s) in
          some (record s₁ { length = s₁.length - 1 }, true))
      else some (s, false)
]

-- ===== src/Tests/IntSet.antt =====
-- memory/intset.cpp on sets of three widths.
use redis_simple.Common.{◌≡◌, refl, arith, true, not, some, none, [], ◌∷◌, get_elem?, write_at}
use redis_simple.Common.Int.{pos, negsuc}
use redis_simple.IntSet.{
  IntSet, int16, int32, new, get, maximum, add, find, remove, search, encoded_value, resize,
  move_tail, slot, store, upgrade_and_add, value_encoding, bytes_of, to_cell, of_cell,
}
use redis_simple.IntSet.Sorted.{member, insert, erase}
use redis_simple.IntSet.Invariant.{values, IsValid}
use redis_simple.IntSet.Methods.{get_lem, find_lem, add_lem, remove_lem}

-- The members -2, 5 and 300.
abbrev three : IntSet
three = record { contents = 65534 ∷ 5 ∷ 300 ∷ []; length = 3; encoding = int16 }

three-IsValid : IsValid three
unfolding values of_cell
three-IsValid = record { room = omega arith; small = omega arith; sorted = omega arith }

program : Unit {0}
unfolding add find remove search encoded_value resize move_tail slot store upgrade_and_add
    value_encoding bytes_of to_cell of_cell write_at get maximum new
program = tt

-- A value of 32 bits widens the cells; a negative one goes in front.
add_widens :
    add (negsuc 70000) three
    ≡ some (
      record { contents = 4294897295 ∷ 4294967294 ∷ 5 ∷ 300 ∷ []; length = 4; encoding = int32 },
      true,
    )
unfolding program
add_widens = refl

add_inside :
    add (pos 7) three
    ≡ some (record { contents = 65534 ∷ 5 ∷ 7 ∷ 300 ∷ []; length = 4; encoding = int16 }, true)
unfolding program
add_inside = refl

remove_first :
    remove (negsuc 1) three
    ≡ some (record { contents = 5 ∷ 300 ∷ []; length = 2; encoding = int16 }, true)
unfolding program
remove_first = refl

-- The greatest member of an empty set is read at index 2 ^ 32 - 1, which throws.
maximum_empty : maximum new ≡ none
unfolding program
maximum_empty = refl

get_lem_example : get three 1 ≡ get_elem? (values three) 1
get_lem_example = get_lem three-IsValid 1

find_lem_example : find (pos 300) three ≡ some (member (pos 300) (values three))
find_lem_example = find_lem three-IsValid (pos 300) (omega arith)

add_lem_example :
    (r : IntSet) × (add (negsuc 70000) three ≡ some (r, not (member (negsuc 70000) (values three))))
    × IsValid r
    × (values r ≡ insert (negsuc 70000) (values three))
add_lem_example = add_lem three-IsValid (negsuc 70000) (omega arith) (omega arith)

remove_lem_example :
    (r : IntSet) × (remove (pos 5) three ≡ some (r, member (pos 5) (values three)))
    × IsValid r
    × (values r ≡ erase (pos 5) (values three))
remove_lem_example = remove_lem three-IsValid (pos 5)

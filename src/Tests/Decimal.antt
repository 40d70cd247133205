-- ===== src/Tests/Decimal.antt =====
-- Runs of the integer texts.
use redis_simple.Common.{
  arith, ◌≡◌, refl, ◌^◌, ◌+◌, List, [], ◌∷◌, ◌++◌, Option, none, some, replicate, length, drop, ◌-◌,
}
use redis_simple.Common.Int.{ℤ, pos, negsuc, InRange}
use redis_simple.Decimal.{
  codes, digits10, digits10_from, int64_to_string, to_int64, to_canonical_int64, parse_digits,
}
use redis_simple.Decimal.Spec.{text, decimal, IsWidth}
use redis_simple.Decimal.Width.{digits10-IsWidth}
use redis_simple.Decimal.Print.{int64_to_string-text, int64_to_string-short}
use redis_simple.Decimal.RoundTrip.{to_canonical_int64-text, to_canonical_int64-some}

digits10-IsWidth_example : IsWidth (digits10 (2 ^ 64 - 1)) (2 ^ 64 - 1)
digits10-IsWidth_example = digits10-IsWidth (2 ^ 64 - 1) (omega arith)

to_canonical_int64-text_example :
    to_canonical_int64 (text (negsuc 9223372036854775807)) ≡ some (negsuc 9223372036854775807)
to_canonical_int64-text_example =
    to_canonical_int64-text (negsuc 9223372036854775807) (omega arith, omega arith)

read_smallest : to_canonical_int64 (codes "-123") ≡ some (negsuc 122)
unfolding to_canonical_int64 to_int64 parse_digits
read_smallest = refl

to_canonical_int64-some_example : (codes "-123" ≡ text (negsuc 122)) × InRange 63 (negsuc 122)
to_canonical_int64-some_example = to_canonical_int64-some (codes "-123") (negsuc 122) read_smallest

int64_to_string-text_example : int64_to_string (replicate 21 7) (negsuc 122) ≡ (
  text (negsuc 122) ++ 0 ∷ drop (1 + length (text (negsuc 122))) (replicate 21 7),
  length (text (negsuc 122)),
)
unfolding text decimal digits10 digits10_from
int64_to_string-text_example =
    int64_to_string-text (replicate 21 7) (negsuc 122) (omega arith, omega arith) (omega arith)

int64_to_string-short_example : (int64_to_string (replicate 4 7) (negsuc 122)).1 ≡ 0
int64_to_string-short_example =
    int64_to_string-short (replicate 4 7) (negsuc 122) 3 (omega arith, omega arith)
      (omega arith, (omega arith, omega arith)) (omega arith)

-- A redundant zero, a plus sign, "-0" and numbers out of range are refused.
refused : List (Option ℤ)
refused =
    to_canonical_int64 (codes "07")
    ∷ to_canonical_int64 (codes "+7")
    ∷ to_canonical_int64 (codes "-0")
    ∷ to_canonical_int64 (codes "9223372036854775808")
    ∷ []

all_refused : refused ≡ replicate 4 none
unfolding to_canonical_int64 to_int64 parse_digits refused
all_refused = refl

plus_taken : to_int64 (codes "+7") ≡ some (pos 7)
unfolding to_int64 parse_digits
plus_taken = refl

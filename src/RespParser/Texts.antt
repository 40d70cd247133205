-- ===== src/RespParser/Texts.antt =====
-- cli/resp_parser.cpp: searches in a text, and `ParseFloatText`.
use redis_simple.Common.{
  ℕ, ◌+◌, Bool, true, false, not, ◌&&◌, ◌||◌, Option, none, some, List, [], ◌∷◌, ◌++◌, ltb, leb,
  ◌==◌, if◌then◌else◌, length, take, drop,
}
use redis_simple.Common.Keys.{same_key}
use redis_simple.Decimal.{codes}

-- `find` and `find_first_of` from `i` on: the first byte that passes
unfoldable pub find_of : (ℕ → Bool) → ℕ → List ℕ → Option ℕ
find_of p i [] = none
find_of p i (c ∷ cs) = let rest = find_of p (i + 1) cs in if p c then some i else rest

abbrev pub is_exponent_mark : ℕ → Bool
is_exponent_mark c = c == b'e' || c == b'E'

abbrev pub is_point : ℕ → Bool
is_point c = c == b'.'

unfoldable pub all_digits : List ℕ → Bool
all_digits [] = true
all_digits (c ∷ cs) = leb b'0' c && leb c b'9' && all_digits cs

-- A sign at the front: whether it is "-", and the rest.
unfoldable pub split_sign : List ℕ → Bool × List ℕ
split_sign [] = (false, [])
split_sign (c ∷ cs) =
    if c == b'-' then (true, cs) else if c == b'+' then (false, cs) else (false, c ∷ cs)

-- The text before the first byte that passes, and the text behind it if there is one; `none` when a
-- second byte passes.
unfoldable pub split_at : (ℕ → Bool) → List ℕ → Option (List ℕ × Option (List ℕ))
split_at p value = elim (find_of p 0 value) [
  | none ↦ some (value, none)
  | some at ↦ elim (find_of p 0 (drop (at + 1) value)) [
    | none ↦ some (take at value, some (drop (at + 1) value))
    | some again ↦ none
  ]
]

-- `while (text.size() > 1 && text.front() == '0')`
unfoldable pub strip_front : List ℕ → List ℕ
strip_front [] = []
strip_front (c ∷ cs) =
    let rest = strip_front cs in if ltb 0 (length cs) && c == b'0' then rest else c ∷ cs

-- `while (!text.empty() && text.back() == '0')`
unfoldable pub strip_back : List ℕ → List ℕ
strip_back [] = []
strip_back (c ∷ cs) =
    let rest = strip_back cs in if length rest == 0 && c == b'0' then [] else c ∷ rest

-- The exponent with its sign, empty where the text has none; `none` is a malformed one.
unfoldable pub read_exponent : Option (List ℕ) → Option (Bool × List ℕ)
read_exponent none = some (false, [])
read_exponent (some text) =
    let (negative, exponent) = split_sign text in
    if length exponent == 0 || not (all_digits exponent) then none else some (negative, exponent)

abbrev pub or_empty : Option (List ℕ) → List ℕ
or_empty none = []
or_empty (some text) = text

-- The text that is rendered, from its parts.
unfoldable pub render_float : Bool → List ℕ → List ℕ → Bool → List ℕ → List ℕ
render_float negative integral fractional negative_exponent exponent =
    (if negative then codes "-" else [])
    ++ ((if length integral == 0 then codes "0" else integral)
        ++ ((if length fractional == 0 then [] else b'.' ∷ fractional)
            ++ (if length exponent == 0 || same_key exponent (codes "0")
                then []
                else b'e' ∷ ((if negative_exponent then codes "-" else []) ++ exponent))))

-- `ParseFloatText` from the parts of the mantissa on
unfoldable pub float_parts : Bool → List ℕ → List ℕ → Option (List ℕ) → Option (List ℕ)
float_parts negative integral fractional exponent_text =
    if length integral == 0 && length fractional == 0
    then none
    else if not (all_digits integral) || not (all_digits fractional)
    then none
    else elim (read_exponent exponent_text) [
      | none ↦ none
      | some (negative_exponent, exponent) ↦ some (
          render_float negative (strip_front integral) (strip_back fractional) negative_exponent
            (strip_front exponent))
    ]

-- `none` is the result false
unfoldable pub parse_float_text : List ℕ → Option (List ℕ)
parse_float_text text =
    let (negative, value) = split_sign text in
    if length value == 0 then none else elim (split_at is_exponent_mark value) [
      | none ↦ none
      | some (mantissa, exponent_text) ↦ elim (split_at is_point mantissa) [
        | none ↦ none
        | some (integral, fractional) ↦
            float_parts negative integral (or_empty fractional) exponent_text
      ]
    ]

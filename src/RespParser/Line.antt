-- ===== src/RespParser/Line.antt =====
-- cli/resp_parser.cpp: `FindLineEnd` at any place of the input, and the numbers in a header.
use redis_simple.Common.{
  ℕ, zero, suc, ◌+◌, ◌-◌, ◌*◌, ◌/◌, ◌^◌, ◌<◌, ◌≡◌, refl, ap, ◌∙◌, arith, Bool, true, false, ◌&&◌,
  ◌||◌, Option, none, some, List, [], ◌∷◌, ◌++◌, ltb, leb, ◌==◌, if◌then◌else◌, length,
  length-append, take, drop, take_exact, drop_exact, get_or, All,
}
use redis_simple.Common.Keys.{same_key}
use redis_simple.Common.Int.{ℤ, pos, negsuc, InRange}
use redis_simple.Decimal.{codes, digits10, to_int64, to_canonical_int64}
use redis_simple.Decimal.Spec.{text, IsDigit, decimal-IsDigit, IsWidth, length-decimal}
use redis_simple.Decimal.Parse.{number, number-ge, number-decimal}
use redis_simple.Decimal.Width.{digits10-IsWidth}
use redis_simple.Decimal.RoundTrip.{to_canonical_int64-text}
use redis_simple.Replies.{crlf}
use redis_simple.RespParser.Texts.{find_of}
use redis_simple.RespParser.{
  Parsed, is_return, find_line_end, parse_size_loop, parse_size, with_line, substr, done,
}
use redis_simple.RequestParser.Size.{drop_past}

-- A text that a line can hold.
abbrev pub IsLine : List ℕ → Type 0
IsLine s = All (λ c. is_return c ≡ false) s

digits-IsLine : (ds : List ℕ) → All IsDigit ds → IsLine ds
digits-IsLine [] h = tt
digits-IsLine (d ∷ ds) h = (ground arith, digits-IsLine ds h.1)

pub text-IsLine : (v : ℤ) → IsLine (text v)
unfolding text
text-IsLine (pos n) = digits-IsLine (text (pos n)) (decimal-IsDigit (digits10 n) n)
text-IsLine (negsuc n) =
    (refl, digits-IsLine (text (pos (n + 1))) (decimal-IsDigit (digits10 (n + 1)) (n + 1)))

find_of-return :
    (i : ℕ) (ds rest : List ℕ)
    → IsLine ds
    → find_of is_return i (ds ++ (crlf ++ rest)) ≡ some (i + length ds)
unfolding find_of
find_of-return i [] rest h = let z : i + 0 ≡ i = omega arith in rw z refl
find_of-return i (d ∷ ds) rest h =
    let n : i + 1 + length ds ≡ i + suc (length ds) = omega arith in
    rw (h.0, find_of-return (i + 1) ds rest h.1, n) refl

module _ (pre : List ℕ) (c : ℕ) (ds rest : List ℕ) (good : IsLine ds) where
  abbrev here : List ℕ
  here = pre ++ c ∷ (ds ++ (crlf ++ rest))

  find_line_end-at : find_line_end here (length pre + 1) ≡ done (length pre + 1 + length ds)
  unfolding find_line_end
  find_line_end-at =
      let found : find_of is_return (length pre + 1) (drop (length pre + 1) here)
          ≡ some (length pre + 1 + length ds) =
        ap (find_of is_return (length pre + 1)) (drop_past pre (c ∷ (ds ++ (crlf ++ rest))) 1)
        ∙ find_of-return (length pre + 1) ds rest good in
      let inside : leb (length here) (length pre + 1 + length ds + 1) ≡ false =
        ground (
          arith,
          length-append pre (c ∷ (ds ++ (crlf ++ rest))),
          length-append ds (crlf ++ rest),
        ) in
      let at : length pre + 1 + length ds ≡ length pre + suc (length ds) = omega arith in
      let behind : drop (length pre + 1 + length ds) here ≡ crlf ++ rest =
        ap (λ n. drop n here) at
        ∙ drop_past pre (c ∷ (ds ++ (crlf ++ rest))) (suc (length ds))
        ∙ drop_exact ds (crlf ++ rest) in
      rw (found, find_line_end, inside, behind) refl

  line_text : substr here (length pre + 1) (length pre + 1 + length ds - length pre - 1) ≡ ds
  line_text =
      let n : length pre + 1 + length ds - length pre - 1 ≡ length ds = omega arith in
      ap (λ n. substr here (length pre + 1) n) n
      ∙ ap (take (length ds)) (drop_past pre (c ∷ (ds ++ (crlf ++ rest))) 1)
      ∙ take_exact ds (crlf ++ rest)

  -- What follows a line gets its end and its text.
  pub with_line-at :
      (reply : List (List ℕ)) (next : ℕ → List ℕ → Parsed)
      → with_line
          (find_line_end here (length pre + 1))
          reply
          (λ end. next end (substr here (length pre + 1) (end - length pre - 1)))
        ≡ next (length pre + 1 + length ds) ds
  unfolding with_line
  with_line-at reply next =
      ap
        (λ line.
          with_line line reply
            (λ end. next end (substr here (length pre + 1) (end - length pre - 1))))
        find_line_end-at
      ∙ ap (next (length pre + 1 + length ds)) line_text

parse_size_loop-number :
    (m : ℕ) (ds : List ℕ)
    → All IsDigit ds
    → number m ds < 2 ^ 64
    → parse_size_loop m ds ≡ some (number m ds)
unfolding parse_size_loop number
parse_size_loop-number m [] h n = refl
parse_size_loop-number m (d ∷ ds) h n =
    let lo : leb b'0' d ≡ true = ground arith in
    let hi : leb d b'9' ≡ true = ground arith in
    let fits : ltb ((2 ^ 64 - 1 - (d - b'0')) / 10) m ≡ false =
      ground (arith, number-ge (m * 10 + (d - b'0')) ds) in
    rw (lo, hi, fits, parse_size_loop-number (m * 10 + (d - b'0')) ds h.1 n) refl

pub parse_size-text : (n : ℕ) → n < 2 ^ 64 → parse_size (text (pos n)) ≡ some n
unfolding parse_size text
parse_size-text n h =
    let w = digits10-IsWidth n h in
    let value = number-decimal (digits10 n) n w in
    nonempty (text (pos n)) (omega (arith, length-decimal (digits10 n) n, positive (digits10 n) w))
    ∙ parse_size_loop-number 0 (text (pos n)) (decimal-IsDigit (digits10 n) n) (omega arith)
    ∙ ap some value
  where
    positive : (k : ℕ) → IsWidth k n → 0 < k
    positive zero w = absurd w
    positive (suc k) w = omega arith

    nonempty : (ds : List ℕ) → 0 < length ds → parse_size ds ≡ parse_size_loop 0 ds
    nonempty [] h = absurd (omega arith)
    nonempty (d ∷ ds) h = refl

-- A number is not the length of a null string.
pub text_is_not_null : (n : ℕ) → same_key (text (pos n)) (codes "-1") ≡ false
unfolding text same_key
text_is_not_null n = digits (text (pos n)) (decimal-IsDigit (digits10 n) n)
  where
    digits : (ds : List ℕ) → All IsDigit ds → same_key ds (codes "-1") ≡ false
    digits [] h = refl
    digits (d ∷ ds) h = let e : (d == b'-') ≡ false = ground arith in rw e refl

pub to_int64-text : (v : ℤ) → InRange 63 v → to_int64 (text v) ≡ some v
unfolding to_canonical_int64
to_int64-text v h =
    read
      (length (text v) == 0
        || get_or (text v) 0 0 == b'+'
        || length (text v) == 2 && get_or (text v) 0 0 == b'-' && get_or (text v) 1 0 == b'0')
      (to_int64 (text v)) (to_canonical_int64-text v h)
  where
    read : (b : Bool) (o : Option ℤ) → (if b then none else o) ≡ some v → o ≡ some v
    read true o e = absurd (ground arith)
    read false o e = e

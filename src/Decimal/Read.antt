-- ===== src/Decimal/Read.antt =====
-- utils/string_utils.cpp: `ToInt64` and `ToCanonicalInt64` read the numerals that fit.
use redis_simple.Common.{
  ℕ, suc, ◌+◌, ◌-◌, ◌*◌, ◌^◌, ◌≤◌, ◌<◌, ◌≡◌, refl, ap, sym, ◌∙◌, subst, arith, inl, inr, Bool, true,
  false, ◌&&◌, Option, none, some, List, [], ◌∷◌, ltb, ◌==◌, length, if◌then◌else◌,
}
use redis_simple.Common.Int.{ℤ, pos, negsuc}
use redis_simple.Decimal.{parse_digits, digits10, to_int64, to_canonical_int64, negate}
use redis_simple.Decimal.Spec.{length-decimal}
use redis_simple.Decimal.Width.{digits10-bounded}
use redis_simple.Decimal.Parse.{number}
use redis_simple.Decimal.Numeral.{IsNumeral, decimal-numeral, parse_digits-numeral}

-- The result of the loop, with the sign.
abbrev pub signed : Bool → Option ℕ → Option ℤ
signed negative none = none
signed false (some m) = some (pos m)
signed true (some m) = some (if m == 2 ^ 63 then negsuc (2 ^ 63 - 1) else negate m)

pub to_int64_unsigned :
    (c : ℕ) (cs : List ℕ)
    → (c == b'+') ≡ false
    → (c == b'-') ≡ false
    → ltb 20 (suc (length cs)) ≡ false
    → to_int64 (c ∷ cs)
      ≡ signed false (parse_digits (suc (length cs)) false (2 ^ 63 - 1) 0 (c ∷ cs) 0)
unfolding to_int64
to_int64_unsigned c cs plus minus short =
    let some_bytes : (suc (length cs) == 0) ≡ false = ground arith in
    rw (plus, minus, short, some_bytes)
      (value minus (parse_digits (suc (length cs)) false (2 ^ 63 - 1) 0 (c ∷ cs) 0))
  where
    value :
        (c == b'-') ≡ false
        → (o : Option ℕ)
        → (elim o [
          | none ↦ none
          | some m ↦ some (
              if (c == b'-') && m == (if c == b'-' then 2 ^ 63 - 1 + 1 else 2 ^ 63 - 1)
              then negsuc (2 ^ 63 - 1)
              else if c == b'-'
              then negate m
              else pos m)
        ])
          ≡ signed false o
    value e none = refl
    value e (some m) = rw e refl

pub to_int64_negative :
    (c : ℕ) (cs : List ℕ)
    → ltb 20 (suc (suc (length cs))) ≡ false
    → to_int64 (b'-' ∷ c ∷ cs)
      ≡ signed true (parse_digits (suc (suc (length cs))) true (2 ^ 63) 1 (c ∷ cs) 0)
unfolding to_int64
to_int64_negative c cs short =
    let some_bytes : (suc (suc (length cs)) == 0) ≡ false = ground arith in
    let more_bytes : (suc (suc (length cs)) == 1) ≡ false = ground arith in
    rw (short, some_bytes, more_bytes)
      (value (parse_digits (suc (suc (length cs))) true (2 ^ 63) 1 (c ∷ cs) 0))
  where
    value :
        (o : Option ℕ)
        → (elim o [
          | none ↦ none
          | some m ↦ some (if m == 2 ^ 63 then negsuc (2 ^ 63 - 1) else negate m)
        ])
          ≡ signed true o
    value none = refl
    value (some m) = refl

pub numeral-short : (cs : List ℕ) → IsNumeral cs → number 0 cs ≤ 2 ^ 63 → length cs ≤ 19
numeral-short cs h n =
    let v = number 0 cs in
    omega (
      arith,
      ap length (sym (decimal-numeral cs h (omega arith))),
      length-decimal (digits10 v) v,
      digits10-bounded v (omega arith),
    )

pub canonical_unsigned :
    (c : ℕ) (cs : List ℕ)
    → (c == b'+') ≡ false
    → (c == b'-') ≡ false
    → to_canonical_int64 (c ∷ cs) ≡ to_int64 (c ∷ cs)
unfolding to_canonical_int64
canonical_unsigned c cs plus minus =
    let some_bytes : (suc (length cs) == 0) ≡ false = ground arith in
    let two : (suc (length cs) == 2 && false) ≡ false = ground arith in
    rw (some_bytes, plus, minus, two) refl

-- "-0" is refused.
pub canonical_negative :
    (c : ℕ) (cs : List ℕ)
    → to_canonical_int64 (b'-' ∷ c ∷ cs)
      ≡ (if suc (suc (length cs)) == 2 && true && c == b'0' then none else to_int64 (b'-' ∷ c ∷ cs))
unfolding to_canonical_int64
canonical_negative c cs =
    let some_bytes : (suc (suc (length cs)) == 0) ≡ false = ground arith in rw some_bytes refl

-- A numeral that fits is read.
pub unsigned_read :
    (cs : List ℕ)
    → IsNumeral cs
    → number 0 cs < 2 ^ 63
    → to_canonical_int64 cs ≡ some (pos (number 0 cs))
unsigned_read [] h n = absurd h
unsigned_read (c ∷ cs) h n =
    let bound = numeral-short (c ∷ cs) h (omega arith) in
    let short : ltb 20 (suc (length cs)) ≡ false = ground arith in
    let plus : (c == b'+') ≡ false = ground arith in
    let minus : (c == b'-') ≡ false = ground arith in
    canonical_unsigned c cs plus minus
    ∙ to_int64_unsigned c cs plus minus short
    ∙ ap (signed false) (parse_digits-numeral false (2 ^ 63 - 1) (c ∷ cs) h (omega arith))

positive_first :
    (c : ℕ) (cs : List ℕ) (m : ℕ) → IsNumeral (c ∷ cs) → number 0 (c ∷ cs) ≡ suc m → b'0' < c
unfolding number
positive_first c cs m (inl lo, h) e = lo
positive_first c cs m (inr nil, h) e =
    let k : number (0 * 10 + (c - b'0')) [] ≡ suc m =
      subst (λ cs. number (0 * 10 + (c - b'0')) cs ≡ suc m) nil e in
    omega arith

pub signed_negative : (m : ℕ) → m < 2 ^ 63 → signed true (some (suc m)) ≡ some (negsuc m)
signed_negative m n = ground arith

pub negative_read :
    (cs : List ℕ) (m : ℕ)
    → IsNumeral cs
    → number 0 cs ≡ suc m
    → m < 2 ^ 63
    → to_canonical_int64 (b'-' ∷ cs) ≡ some (negsuc m)
negative_read [] m h e n = absurd h
negative_read (c ∷ cs) m h e n =
    let bound = numeral-short (c ∷ cs) h (omega arith) in
    let lo = positive_first c cs m h e in
    let short : ltb 20 (suc (suc (length cs))) ≡ false = ground arith in
    let zero_test : (suc (suc (length cs)) == 2 && true && c == b'0') ≡ false = ground arith in
    canonical_negative c cs
    ∙ rw (zero_test, to_int64_negative c cs short)
        (ap (signed true) (parse_digits-numeral true (2 ^ 63) (c ∷ cs) h (omega arith) ∙ ap some e)
          ∙ signed_negative m n)

-- ===== src/Decimal/RoundTrip.antt =====
-- utils/string_utils.cpp: `ToCanonicalInt64` reads the decimal texts of the 64-bit integers, and
-- nothing else.
use redis_simple.Common.{
  ℕ, zero, suc, ◌+◌, ◌-◌, ◌*◌, ◌^◌, ◌≤◌, ◌<◌, ◌≡◌, refl, ap, sym, ◌∙◌, subst, arith, inl, inr, Bool,
  true, false, ◌&&◌, Option, none, some, List, [], ◌∷◌, ltb, ◌==◌, length, Bool-cases,
}
use redis_simple.Common.Int.{ℤ, pos, negsuc, InRange}
use redis_simple.Decimal.{parse_digits, digits10, to_int64, to_canonical_int64}
use redis_simple.Decimal.Spec.{decimal, text}
use redis_simple.Decimal.Width.{digits10-IsWidth}
use redis_simple.Decimal.Parse.{number, number-ge, number-decimal}
use redis_simple.Decimal.Numeral.{
  IsNumeral, decimal-IsNumeral, decimal-numeral, parse_digits-IsNumeral,
}
use redis_simple.Decimal.Read.{
  signed, to_int64_unsigned, to_int64_negative, canonical_unsigned, canonical_negative,
  unsigned_read, signed_negative, negative_read,
}

plus_refused : (c : ℕ) (cs : List ℕ) → (c == b'+') ≡ true → to_canonical_int64 (c ∷ cs) ≡ none
unfolding to_canonical_int64
plus_refused c cs plus =
    let some_bytes : (suc (length cs) == 0) ≡ false = ground arith in rw (some_bytes, plus) refl

long_refused : (c : ℕ) (cs : List ℕ) → ltb 20 (suc (length cs)) ≡ true → to_int64 (c ∷ cs) ≡ none
unfolding to_int64
long_refused c cs long =
    let some_bytes : (suc (length cs) == 0) ≡ false = ground arith in rw (some_bytes, long) refl

conflicting : (o : Option ℤ) (v : ℤ) → o ≡ none → o ≡ some v → ⊥
conflicting o v e h = ground arith

signed-some :
    (negative : Bool) (o : Option ℕ) (v : ℤ)
    → signed negative o ≡ some v
    → (r : ℕ) × (o ≡ some r) × (signed negative (some r) ≡ some v)
signed-some negative none v h = absurd (ground arith)
signed-some negative (some r) v h = (r, refl, h)

-- A text without a sign that is read is a numeral.
unsigned-IsNumeral :
    (c : ℕ) (cs : List ℕ) (v : ℤ)
    → (c == b'-') ≡ false
    → to_canonical_int64 (c ∷ cs) ≡ some v
    → IsNumeral (c ∷ cs) × (v ≡ pos (number 0 (c ∷ cs))) × (number 0 (c ∷ cs) < 2 ^ 63)
unsigned-IsNumeral c cs v minus h = elim (Bool-cases (c == b'+')) [
  | inl plus ↦ absurd (conflicting (to_canonical_int64 (c ∷ cs)) v (plus_refused c cs plus) h)
  | inr plus ↦ elim (Bool-cases (ltb 20 (suc (length cs)))) [
    | inl long ↦ absurd (
        conflicting (to_canonical_int64 (c ∷ cs)) v
          (canonical_unsigned c cs plus minus ∙ long_refused c cs long) h)
    | inr short ↦
        let loop = parse_digits (suc (length cs)) false (2 ^ 63 - 1) 0 (c ∷ cs) 0 in
        let (r, e, ev) = signed-some false loop v (
          sym (canonical_unsigned c cs plus minus ∙ to_int64_unsigned c cs plus minus short) ∙ h) in
        let (n, er, b) = parse_digits-IsNumeral false (2 ^ 63 - 1) c cs r (omega arith) e in
        (n, ground arith, omega arith)
  ]
]

abbrev minus_zero : ℕ → List ℕ → Bool
minus_zero c cs = suc (suc (length cs)) == 2 && true && c == b'0'

numeral_positive :
    (c : ℕ) (cs : List ℕ) → IsNumeral (c ∷ cs) → minus_zero c cs ≡ false → 1 ≤ number 0 (c ∷ cs)
unfolding number
numeral_positive c cs (inl lo, h) z = omega (arith, number-ge (0 * 10 + (c - b'0')) cs)
numeral_positive c cs (inr nil, h) z =
    let z' : minus_zero c [] ≡ false = subst (λ cs. minus_zero c cs ≡ false) nil z in
    let lo : b'0' < c = ground arith in omega (arith, number-ge (0 * 10 + (c - b'0')) cs)

negative_value :
    (r : ℕ) (v : ℤ)
    → 1 ≤ r
    → r ≤ 2 ^ 63
    → signed true (some r) ≡ some v
    → (m : ℕ) × (v ≡ negsuc m) × (r ≡ suc m) × (m < 2 ^ 63)
negative_value zero v lo hi h = absurd (omega arith)
negative_value (suc m) v lo hi h =
    let e = sym (signed_negative m (omega arith)) ∙ h in (m, ground arith, refl, omega arith)

-- A text with a minus sign that is read is a minus sign and a numeral.
negative-IsNumeral :
    (c : ℕ) (cs : List ℕ) (v : ℤ)
    → to_canonical_int64 (b'-' ∷ c ∷ cs) ≡ some v
    → (m : ℕ) × IsNumeral (c ∷ cs) × (v ≡ negsuc m) × (number 0 (c ∷ cs) ≡ suc m) × (m < 2 ^ 63)
negative-IsNumeral c cs v h =
    let text = b'-' ∷ c ∷ cs in
    elim (Bool-cases (minus_zero c cs)) [
      | inl z ↦
          absurd (conflicting (to_canonical_int64 text) v (canonical_negative c cs ∙ rw z refl) h)
      | inr z ↦ elim (Bool-cases (ltb 20 (suc (suc (length cs))))) [
        | inl long ↦ absurd (
            conflicting (to_canonical_int64 text) v
              (canonical_negative c cs ∙ rw z (long_refused b'-' (c ∷ cs) long)) h)
        | inr short ↦
            let loop = parse_digits (suc (suc (length cs))) true (2 ^ 63) 1 (c ∷ cs) 0 in
            let read : to_canonical_int64 text ≡ signed true loop =
              canonical_negative c cs ∙ rw z (to_int64_negative c cs short) in
            let (r, e, ev) = signed-some true loop v (sym read ∙ h) in
            let (n, er, b) = parse_digits-IsNumeral true (2 ^ 63) c cs r (omega arith) e in
            let lo = numeral_positive c cs n z in
            let (m, vm, rm, mm) = negative_value r v (omega arith) b ev in
            (m, n, vm, sym er ∙ rm, mm)
      ]
    ]

-- `ToCanonicalInt64` reads the decimal text of every 64-bit integer as that integer.
pub to_canonical_int64-text : (v : ℤ) → InRange 63 v → to_canonical_int64 (text v) ≡ some v
unfolding text
to_canonical_int64-text (pos n) h =
    let w = digits10-IsWidth n (omega arith) in
    let e = number-decimal (digits10 n) n w in
    unsigned_read (decimal (digits10 n) n) (decimal-IsNumeral (digits10 n) n w) (omega arith)
    ∙ ap (λ n. some (pos n)) e
to_canonical_int64-text (negsuc n) h =
    let w = digits10-IsWidth (n + 1) (omega arith) in
    let e = number-decimal (digits10 (n + 1)) (n + 1) w in
    negative_read (decimal (digits10 (n + 1)) (n + 1)) n
      (decimal-IsNumeral (digits10 (n + 1)) (n + 1) w) (omega arith) (omega arith)

empty_refused : to_canonical_int64 [] ≡ none
unfolding to_canonical_int64
empty_refused = refl

minus_refused : to_canonical_int64 (b'-' ∷ []) ≡ none
unfolding to_canonical_int64 to_int64
minus_refused = refl

unsigned-text :
    (c : ℕ) (cs : List ℕ) (v : ℤ)
    → (c == b'-') ≡ false
    → to_canonical_int64 (c ∷ cs) ≡ some v
    → (c ∷ cs ≡ text v) × InRange 63 v
unfolding text
unsigned-text c cs v minus h =
    let (n, e, lt) = unsigned-IsNumeral c cs v minus h in
    subst (λ v. (c ∷ cs ≡ text v) × InRange 63 v) (sym e)
      (sym (decimal-numeral (c ∷ cs) n (omega arith)), (lt, omega arith))

negative-text :
    (cs : List ℕ) (v : ℤ)
    → to_canonical_int64 (b'-' ∷ cs) ≡ some v
    → (b'-' ∷ cs ≡ text v) × InRange 63 v
unfolding text
negative-text [] v h = absurd (conflicting (to_canonical_int64 (b'-' ∷ [])) v minus_refused h)
negative-text (c ∷ cs) v h =
    let (m, n, e, k, lt) = negative-IsNumeral c cs v h in
    let k' : number 0 (c ∷ cs) ≡ m + 1 = omega arith in
    let digits : c ∷ cs ≡ decimal (digits10 (m + 1)) (m + 1) =
      sym (decimal-numeral (c ∷ cs) n (omega arith)) ∙ ap (λ x. decimal (digits10 x) x) k' in
    subst (λ v. (b'-' ∷ c ∷ cs ≡ text v) × InRange 63 v) (sym e)
      (ap (λ d. b'-' ∷ d) digits, (omega arith, omega arith))

-- When `ToCanonicalInt64` reads a text, the text is the decimal text of the result, which is a
-- 64-bit integer.
pub to_canonical_int64-some :
    (s : List ℕ) (v : ℤ) → to_canonical_int64 s ≡ some v → (s ≡ text v) × InRange 63 v
to_canonical_int64-some [] v h = absurd (conflicting (to_canonical_int64 []) v empty_refused h)
to_canonical_int64-some (c ∷ cs) v h = elim (Bool-cases (c == b'-')) [
  | inl e ↦
      let e' : b'-' ≡ c = ground arith in
      subst (λ c. to_canonical_int64 (c ∷ cs) ≡ some v → (c ∷ cs ≡ text v) × InRange 63 v) e'
        (negative-text cs v) h
  | inr minus ↦ unsigned-text c cs v minus h
]

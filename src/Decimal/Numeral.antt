-- ===== src/Decimal/Numeral.antt =====
-- utils/string_utils.cpp: the digits without a redundant zero, which the loop of `ToInt64` takes.
use redis_simple.Common.{
  ℕ, zero, suc, ◌+◌, ◌-◌, ◌*◌, ◌/◌, ◌%◌, ◌^◌, ◌≤◌, ◌<◌, ◌≡◌, refl, ap, sym, ◌∙◌, subst, arith, inl,
  inr, ◌⊎◌, Bool, true, false, ◌&&◌, some, List, [], ◌∷◌, ◌++◌, All, ◌==◌, length, if◌then◌else◌,
}
use redis_simple.Decimal.{parse_digits, digits10}
use redis_simple.Decimal.Spec.{decimal, IsDigit, IsWidth, decimal-IsDigit}
use redis_simple.Decimal.Width.{digits10-IsWidth}
use redis_simple.Decimal.Parse.{
  number, decimal-number, number-IsWidth, parse_digits-number, parse_digits-some,
  parse_digits_round, parse_digits_accepts, number-ge, zero_refused,
}

-- A numeral has digits only, and the first is a zero only when it is the last.
abbrev pub IsNumeral : List ℕ → Type 0
IsNumeral [] = ⊥
IsNumeral (c ∷ cs) = (b'0' < c ⊎ (cs ≡ [])) × All IsDigit (c ∷ cs)

pub unique_width : (a b v : ℕ) → IsWidth a v → IsWidth b v → a ≡ b
unique_width zero b v h k = absurd h
unique_width (suc a) zero v h k = absurd k
unique_width (suc zero) (suc zero) v h k = refl
unique_width (suc zero) (suc (suc b)) v h k = absurd (omega (arith, k.0))
unique_width (suc (suc a)) (suc zero) v h k = absurd (omega (arith, h.0))
unique_width (suc (suc a)) (suc (suc b)) v h k =
    ap suc (unique_width (suc a) (suc b) (v / 10) h.1 k.1)

-- The first digit of a positive number is positive.
first_digit :
    (k v : ℕ)
    → IsWidth (suc k) v
    → 1 ≤ v
    → (c : ℕ) × (cs : List ℕ) × (decimal (suc k) v ≡ c ∷ cs) × (b'0' < c)
unfolding decimal
first_digit zero v h p =
    let e : b'0' + v % 10 ≡ b'0' + v = omega arith in
    (b'0' + v, [], ap (λ d. d ∷ []) e, omega arith)
first_digit (suc k) v h p =
    let (c, cs, e, lo) = first_digit k (v / 10) h.1 (omega (arith, h.0)) in
    (c, cs ++ (b'0' + v % 10) ∷ [], ap (λ d. d ++ (b'0' + v % 10) ∷ []) e, lo)

pub decimal-IsNumeral : (k v : ℕ) → IsWidth k v → IsNumeral (decimal k v)
unfolding decimal
decimal-IsNumeral zero v h = absurd h
decimal-IsNumeral (suc zero) v h = (inr refl, decimal-IsDigit 1 v)
decimal-IsNumeral (suc (suc k)) v h =
    let (c, cs, e, lo) = first_digit (suc k) v h (omega (arith, h.0)) in
    subst IsNumeral (sym e) (inl lo, subst (All IsDigit) e (decimal-IsDigit (suc (suc k)) v))

number_cons : (c : ℕ) (cs : List ℕ) → number 0 (c ∷ cs) ≡ number (0 * 10 + (c - b'0')) cs
unfolding number
number_cons c cs = refl

numeral-IsWidth : (cs : List ℕ) → IsNumeral cs → IsWidth (length cs) (number 0 cs)
unfolding number
numeral-IsWidth [] h = absurd h
numeral-IsWidth (c ∷ []) h = omega (arith, h.1.0)
numeral-IsWidth (c ∷ d ∷ ds) (inl lo, h) =
    let v = 0 * 10 + (c - b'0') in
    let e : length (d ∷ ds) + 1 ≡ suc (length (d ∷ ds)) = omega arith in
    subst (λ n. IsWidth n (number v (d ∷ ds))) e
      (number-IsWidth 0 v (d ∷ ds) (omega arith) (omega (arith, h.0)) h.1)
numeral-IsWidth (c ∷ d ∷ ds) (inr e, h) = absurd (nil_cons e)
  where
    nil_cons : ◌≡◌ {A = List ℕ} (d ∷ ds) [] → ⊥
    nil_cons e = ground arith

-- A numeral is the decimal text of its number.
pub decimal-numeral :
    (cs : List ℕ)
    → IsNumeral cs
    → number 0 cs < 2 ^ 64
    → decimal (digits10 (number 0 cs)) (number 0 cs) ≡ cs
unfolding decimal
decimal-numeral cs h lt =
    let v = number 0 cs in
    let n : digits10 v ≡ length cs + 0 =
      unique_width (digits10 v) (length cs) v (digits10-IsWidth v lt) (numeral-IsWidth cs h)
      ∙ omega arith in
    rw n (decimal-number 0 0 cs (digits cs h))
  where
    digits : (cs : List ℕ) → IsNumeral cs → All IsDigit cs
    digits [] h = absurd h
    digits (c ∷ cs) h = h.1

-- The zero test at the first digit.
abbrev refused : Bool → ℕ → List ℕ → Bool
refused s c cs =
    c == b'0'
    && zero_refused (if s then suc (suc (length cs)) else suc (length cs)) s (if s then 1 else 0)

not_refused : (s : Bool) (c : ℕ) (cs : List ℕ) → b'0' < c ⊎ (cs ≡ []) → refused s c cs ≡ false
not_refused true c cs (inl h) = ground arith
not_refused false c cs (inl h) = ground arith
not_refused true c cs (inr e) = rw e (ground arith)
not_refused false c cs (inr e) = rw e (ground arith)

accepted :
    (s : Bool) (c : ℕ) (cs : List ℕ) → IsDigit c → refused s c cs ≡ false → b'0' < c ⊎ (cs ≡ [])
accepted s c [] d h = inr refl
accepted true c (x ∷ cs) d h = inl (ground arith)
accepted false c (x ∷ cs) d h = inl (ground arith)

-- The loop takes a numeral.
pub parse_digits-numeral :
    (s : Bool) (max : ℕ) (cs : List ℕ)
    → IsNumeral cs
    → number 0 cs ≤ max
    → parse_digits (if s then suc (length cs) else length cs) s max (if s then 1 else 0) cs 0
      ≡ some (number 0 cs)
parse_digits-numeral s max [] h n = absurd h
parse_digits-numeral s max (c ∷ cs) h n =
    let start : ℕ = if s then 1 else 0 in
    let d : ℕ = 0 * 10 + (c - b'0') in
    parse_digits_round (if s then suc (suc (length cs)) else suc (length cs)) s max start c cs 0
      (not_refused s c cs h.0) h.1.0 (omega (arith, number-ge d cs, number_cons c cs))
    ∙ parse_digits-number (if s then suc (suc (length cs)) else suc (length cs)) s max (start + 1)
        cs d (omega arith) h.1.1 (omega (arith, number_cons c cs))
    ∙ ap some (sym (number_cons c cs))

-- The loop takes nothing else, except no digits at all.
pub parse_digits-IsNumeral :
    (s : Bool) (max c : ℕ) (cs : List ℕ) (r : ℕ)
    → 9 ≤ max
    → parse_digits
        (if s then suc (suc (length cs)) else suc (length cs))
        s
        max
        (if s then 1 else 0)
        (c ∷ cs)
        0
      ≡ some r
    → IsNumeral (c ∷ cs) × (r ≡ number 0 (c ∷ cs)) × (r ≤ max)
parse_digits-IsNumeral s max c cs r big h =
    let start : ℕ = if s then 1 else 0 in
    let (z, d, n, rest) =
      parse_digits_accepts (if s then suc (suc (length cs)) else suc (length cs)) s max start c cs 0
        r big h in
    let (ds, e, b) =
      parse_digits-some (if s then suc (suc (length cs)) else suc (length cs)) s max (start + 1) cs
        (0 * 10 + (c - b'0')) r big n rest in
    ((accepted s c cs d z, (d, ds)), e ∙ sym (number_cons c cs), b)

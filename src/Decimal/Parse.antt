-- ===== src/Decimal/Parse.antt =====
-- utils/string_utils.cpp: the loop of `ToInt64` reads the number that the digits stand for.
use redis_simple.Common.{
  ℕ, zero, suc, ◌+◌, ◌-◌, ◌*◌, ◌/◌, ◌%◌, ◌≤◌, ◌<◌, ◌≡◌, refl, sym, ◌∙◌, subst, arith, Bool, false,
  ◌&&◌, ◌||◌, Option, none, some, List, [], ◌∷◌, ◌++◌, All, ltb, ◌==◌, length, append-nil,
  append_assoc, if◌then◌else◌,
}
use redis_simple.Decimal.{parse_digits}
use redis_simple.Decimal.Spec.{decimal, IsDigit, IsWidth}

-- The number that digits stand for, after `m`.
unfoldable pub number : ℕ → List ℕ → ℕ
number m [] = m
number m (c ∷ cs) = number (m * 10 + (c - b'0')) cs

pub number-append : (m : ℕ) (xs ys : List ℕ) → number m (xs ++ ys) ≡ number (number m xs) ys
unfolding number
number-append m [] ys = refl
number-append m (x ∷ xs) ys = number-append (m * 10 + (x - b'0')) xs ys

pub number-ge : (m : ℕ) (cs : List ℕ) → m ≤ number m cs
unfolding number
number-ge m [] = omega arith
number-ge m (c ∷ cs) = omega (arith, number-ge (m * 10 + (c - b'0')) cs)

pub number-decimal : (k v : ℕ) → IsWidth k v → number 0 (decimal k v) ≡ v
unfolding number decimal
number-decimal zero v h = absurd h
number-decimal (suc zero) v h = omega arith
number-decimal (suc (suc k)) v h =
    number-append 0 (decimal (suc k) (v / 10)) ((b'0' + v % 10) ∷ [])
    ∙ omega (arith, number-decimal (suc k) (v / 10) h.1)

-- Digits after the digits of `m` are those of the number they make together.
pub decimal-number :
    (j m : ℕ) (cs : List ℕ)
    → All IsDigit cs
    → decimal (length cs + j) (number m cs) ≡ decimal j m ++ cs
unfolding number decimal
decimal-number j m [] h = let e : 0 + j ≡ j = omega arith in rw e (sym (append-nil (decimal j m)))
decimal-number j m (c ∷ cs) h =
    let d = m * 10 + (c - b'0') in
    let e : suc (length cs) + j ≡ length cs + suc j = omega arith in
    let q : d / 10 ≡ m = omega arith in
    let r : b'0' + d % 10 ≡ c = omega arith in
    rw (e, decimal-number (suc j) d cs h.1, q, r) (append_assoc (decimal j m) (c ∷ []) cs)

pub number-IsWidth :
    (j m : ℕ) (cs : List ℕ)
    → 1 ≤ m
    → IsWidth (suc j) m
    → All IsDigit cs
    → IsWidth (length cs + suc j) (number m cs)
unfolding number
number-IsWidth j m [] pos w h = let e : 0 + suc j ≡ suc j = omega arith in rw e w
number-IsWidth j m (c ∷ cs) pos w h =
    let d = m * 10 + (c - b'0') in
    let e : suc (length cs) + suc j ≡ length cs + suc (suc j) = omega arith in
    let q : d / 10 ≡ m = omega arith in
    rw e (
      number-IsWidth (suc j) d cs (omega arith) (omega arith, subst (IsWidth (suc j)) (sym q) w)
        h.1)

-- A zero at this index is redundant.
abbrev pub zero_refused : ℕ → Bool → ℕ → Bool
zero_refused size has_sign i = i == 0 && ltb 1 size || i == 1 && has_sign && ltb 2 size

-- One round of the loop.
pub parse_digits_round :
    (size : ℕ) (s : Bool) (max i c : ℕ) (cs : List ℕ) (m : ℕ)
    → (c == b'0' && zero_refused size s i) ≡ false
    → IsDigit c
    → m * 10 + (c - b'0') ≤ max
    → parse_digits size s max i (c ∷ cs) m
      ≡ parse_digits size s max (i + 1) cs (m * 10 + (c - b'0'))
unfolding parse_digits
parse_digits_round size s max i c cs m z d n = rw z (ground arith)

three_refusals :
    (a b c : Bool) (rest : Option ℕ) (r : ℕ)
    → (if a then none else if b then none else if c then none else rest) ≡ some r
    → (a ≡ false) × (b ≡ false) × (c ≡ false) × (rest ≡ some r)
three_refusals a b c rest r h = ground arith

pub parse_digits_accepts :
    (size : ℕ) (s : Bool) (max i c : ℕ) (cs : List ℕ) (m r : ℕ)
    → 9 ≤ max
    → parse_digits size s max i (c ∷ cs) m ≡ some r
    → ((c == b'0' && zero_refused size s i) ≡ false)
      × (IsDigit c)
      × (m * 10 + (c - b'0') ≤ max)
      × (parse_digits size s max (i + 1) cs (m * 10 + (c - b'0')) ≡ some r)
unfolding parse_digits
parse_digits_accepts size s max i c cs m r big h =
    let a = c == b'0' && (i == 0 && ltb 1 size || i == 1 && s && ltb 2 size) in
    let b = ltb c b'0' || ltb b'9' c in
    let t = ltb ((max - (c - b'0')) / 10) m in
    let rest = parse_digits size s max (i + 1) cs (m * 10 + (c - b'0')) in
    let (ea, eb, et, er) = three_refusals a b t rest r h in
    let d : IsDigit c = ground arith in (ea, d, ground arith, er)

-- After the first digit no zero is redundant.
past-zero_refused :
    (size : ℕ) (s : Bool) (i c : ℕ)
    → (if s then 1 else 0) < i
    → (c == b'0' && zero_refused size s i) ≡ false
past-zero_refused size s i c h = ground arith

pub parse_digits-number :
    (size : ℕ) (s : Bool) (max i : ℕ) (cs : List ℕ) (m : ℕ)
    → (if s then 1 else 0) < i
    → All IsDigit cs
    → number m cs ≤ max
    → parse_digits size s max i cs m ≡ some (number m cs)
unfolding number parse_digits
parse_digits-number size s max i [] m past d n = refl
parse_digits-number size s max i (c ∷ cs) m past d n =
    let m' = m * 10 + (c - b'0') in
    parse_digits_round size s max i c cs m (past-zero_refused size s i c past) d.0
      (omega (arith, number-ge m' cs))
    ∙ parse_digits-number size s max (i + 1) cs m' (omega arith) d.1 n

pub parse_digits-some :
    (size : ℕ) (s : Bool) (max i : ℕ) (cs : List ℕ) (m r : ℕ)
    → 9 ≤ max
    → m ≤ max
    → parse_digits size s max i cs m ≡ some r
    → All IsDigit cs × (r ≡ number m cs) × (r ≤ max)
unfolding number parse_digits
parse_digits-some size s max i [] m r big le h = (tt, ground arith, ground arith)
parse_digits-some size s max i (c ∷ cs) m r big le h =
    let m' = m * 10 + (c - b'0') in
    let (z, d, n, rest) = parse_digits_accepts size s max i c cs m r big h in
    let (ds, e, b) = parse_digits-some size s max (i + 1) cs m' r big n rest in ((d, ds), e, b)

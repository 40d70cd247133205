-- ===== src/Decimal/Spec.antt =====
-- The decimal text of a number, as utils/string_utils.cpp writes it, and the number of its digits.
use redis_simple.Common.{
  ℕ, zero, suc, ◌+◌, ◌/◌, ◌%◌, ◌≤◌, ◌<◌, ◌≡◌, refl, ◌∙◌, arith, List, [], ◌∷◌, ◌++◌, length,
  length-append, All, All-append,
}
use redis_simple.Common.Int.{ℤ, pos, negsuc}
use redis_simple.Decimal.{digits10}

-- `v` has `k` decimal digits; 0 has one.
abbrev pub IsWidth : ℕ → ℕ → Type 0
IsWidth zero v = ⊥
IsWidth (suc zero) v = v < 10
IsWidth (suc (suc k)) v = (10 ≤ v) × IsWidth (suc k) (v / 10)

-- The last `k` digits of `v`, the highest first.
unfoldable pub decimal : ℕ → ℕ → List ℕ
decimal zero v = []
decimal (suc k) v = decimal k (v / 10) ++ (b'0' + v % 10) ∷ []

-- The text of an integer.
unfoldable pub text : ℤ → List ℕ
text (pos n) = decimal (digits10 n) n
text (negsuc n) = b'-' ∷ decimal (digits10 (n + 1)) (n + 1)

abbrev pub IsDigit : ℕ → Type 0
IsDigit c = (b'0' ≤ c) × (c ≤ b'9')

pub length-decimal : (k v : ℕ) → length (decimal k v) ≡ k
unfolding decimal
length-decimal zero v = refl
length-decimal (suc k) v =
    length-append (decimal k (v / 10)) ((b'0' + v % 10) ∷ [])
    ∙ omega (arith, length-decimal k (v / 10))

pub decimal-IsDigit : (k v : ℕ) → All IsDigit (decimal k v)
unfolding decimal
decimal-IsDigit zero v = tt
decimal-IsDigit (suc k) v =
    All-append IsDigit (decimal k (v / 10)) ((b'0' + v % 10) ∷ []) (decimal-IsDigit k (v / 10))
      (omega arith)

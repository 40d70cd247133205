-- ===== src/RequestParser/Size.antt =====
-- server/request_parser.cpp: `FindCrlf` and `ParseSize` on the text of a number.
use redis_simple.Common.{
  ℕ, zero, suc, ◌+◌, ◌-◌, ◌*◌, ◌^◌, ◌<◌, ◌≡◌, refl, ◌∙◌, arith, some, List, [], ◌∷◌, ◌++◌, length,
  drop, drop-append_ge, All, true, false, ltb, leb, ◌==◌,
}
use redis_simple.Decimal.{digits10}
use redis_simple.Decimal.Spec.{IsDigit, decimal-IsDigit, length-decimal, IsWidth}
use redis_simple.Decimal.Width.{digits10-IsWidth}
use redis_simple.Decimal.Parse.{number, number-decimal}
use redis_simple.RequestParser.{find_pair, take_digits, parse_size}
use redis_simple.RequestParser.Encoding.{size_text, crlf}

pub drop_past : (pre ys : List ℕ) (k : ℕ) → drop (length pre + k) (pre ++ ys) ≡ drop k ys
drop_past pre ys k =
    let e : length pre + k - length pre ≡ k = omega arith in
    drop-append_ge (length pre + k) pre ys (omega arith) ∙ rw e refl

-- Digits have no "\r" among them.
pub find_pair-digits :
    (i : ℕ) (ds rest : List ℕ)
    → All IsDigit ds
    → find_pair i (ds ++ crlf rest) ≡ some (i + length ds)
unfolding find_pair
find_pair-digits i [] rest h =
    let e : ltb 0 (suc (length rest)) ≡ true = ground arith in
    let z : i + 0 ≡ i = omega arith in rw (e, z) refl
find_pair-digits i (d ∷ ds) rest h =
    let e : (d == b'\r') ≡ false = ground arith in
    let n : i + 1 + length ds ≡ i + suc (length ds) = omega arith in
    rw (e, find_pair-digits (i + 1) ds rest h.1, n) refl

take_digits-number :
    (m n : ℕ) (ds : List ℕ) → All IsDigit ds → take_digits m n ds ≡ (number m ds, n + length ds)
unfolding take_digits number
take_digits-number m n [] h = let e : n + 0 ≡ n = omega arith in rw e refl
take_digits-number m n (d ∷ ds) h =
    let lo : leb b'0' d ≡ true = ground arith in
    let hi : leb d b'9' ≡ true = ground arith in
    let k : n + 1 + length ds ≡ n + suc (length ds) = omega arith in
    rw (lo, hi, take_digits-number (m * 10 + (d - b'0')) (n + 1) ds h.1, k) refl

pub parse_size-text : (n : ℕ) → n < 2 ^ 64 → parse_size (size_text n) ≡ some n
unfolding parse_size
parse_size-text n h =
    let ds = size_text n in
    let w = digits10-IsWidth n h in
    let len = length-decimal (digits10 n) n in
    let taken = take_digits-number 0 0 ds (decimal-IsDigit (digits10 n) n) in
    let value = number-decimal (digits10 n) n w in
    let all : (0 + length ds == length ds) ≡ true = ground arith in
    let some_digits : (length ds == 0) ≡ false = rw len (positive (digits10 n) w) in
    let fits : ltb n (2 ^ 64) ≡ true = ground arith in
    rw (taken, some_digits, all, value, fits) refl
  where
    positive : (k : ℕ) → IsWidth k n → (k == 0) ≡ false
    positive zero w = absurd w
    positive (suc k) w = ground arith

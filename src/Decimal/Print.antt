-- ===== src/Decimal/Print.antt =====
-- utils/string_utils.cpp: `Uint64ToString` and `Int64ToString` write the decimal text.
use redis_simple.Common.{
  ℕ, zero, suc, ◌+◌, ◌-◌, ◌*◌, ◌/◌, ◌%◌, ◌^◌, ◌≤◌, ◌<◌, ◌≡◌, refl, ap, sym, ◌∙◌, subst, arith, true,
  false, List, [], ◌∷◌, ◌++◌, ltb, leb, ◌==◌, length, length-set, set, drop, append_assoc,
}
use redis_simple.Common.Int.{ℤ, pos, negsuc, InRange}
use redis_simple.Decimal.{table_at, write_digits, uint64_to_string, int64_to_string, digits10}
use redis_simple.Decimal.Spec.{decimal, text, IsWidth, length-decimal}
use redis_simple.Decimal.Width.{digits10-IsWidth, digits10-bounded}
use redis_simple.Decimal.Table.{table-digits, drop-two_set}

-- The last two digits.
decimal_two :
    (k v : ℕ)
    → decimal (suc (suc k)) v
      ≡ decimal k (v / 100) ++ ((b'0' + v % 100 / 10) ∷ (b'0' + v % 100 % 10) ∷ [])
unfolding decimal
decimal_two k v =
    let q : v / 10 / 10 ≡ v / 100 = omega arith in
    let a : v / 10 % 10 ≡ v % 100 / 10 = omega arith in
    let b : v % 10 ≡ v % 100 % 10 = omega arith in
    rw (q, a, b) (append_assoc (decimal k (v / 100)) ((b'0' + v % 100 / 10) ∷ []) _)

one_digit :
    (dst : List ℕ) (v : ℕ)
    → 0 < length dst
    → v < 10
    → set dst 0 (b'0' + v) ≡ decimal 1 v ++ drop 1 dst
unfolding decimal
one_digit [] v l h = absurd (omega arith)
one_digit (x ∷ dst) v l h = let e : b'0' + v ≡ b'0' + v % 10 = omega arith in ap (λ d. d ∷ dst) e

-- The two digits of `i` at `k` and `k + 1`, after the digits before them.
two_digits :
    (k : ℕ) (dst : List ℕ) (v : ℕ)
    → suc k < length dst
    → decimal k (v / 100)
        ++ drop k (set (set dst (suc k) (table_at (v % 100 * 2 + 1))) k (table_at (v % 100 * 2)))
      ≡ decimal (suc (suc k)) v ++ drop (suc (suc k)) dst
two_digits k dst v l =
    let (hi, lo) = table-digits (v % 100) (omega arith) in
    rw
      (
        decimal_two k v,
        drop-two_set k dst (table_at (v % 100 * 2)) (table_at (v % 100 * 2 + 1)) l,
        hi,
        lo,
      )
      (sym
        (append_assoc (decimal k (v / 100)) ((b'0' + v % 100 / 10) ∷ (b'0' + v % 100 % 10) ∷ []) _))

two_alone :
    (dst : List ℕ) (v : ℕ)
    → 1 < length dst
    → set (set dst 1 (table_at (v % 100 * 2 + 1))) 0 (table_at (v % 100 * 2))
      ≡ decimal 2 v ++ drop 2 dst
unfolding decimal
two_alone dst v l = two_digits 0 dst v l

-- From `next` on, the loop writes all the digits.
write_digits-decimal :
    (fuel k : ℕ) (dst : List ℕ) (v : ℕ)
    → k < fuel
    → k < 2 ^ 32
    → k < length dst
    → IsWidth (suc k) v
    → write_digits fuel dst k v ≡ decimal (suc k) v ++ drop (suc k) dst
unfolding write_digits
write_digits-decimal zero k dst v f b l w = absurd (omega arith)
write_digits-decimal (suc fuel) zero dst v f b l w =
    let last : leb 100 v ≡ false = ground arith in
    let one : ltb v 10 ≡ true = ground arith in rw (last, one, write_digits) (one_digit dst v l w)
write_digits-decimal (suc fuel) (suc zero) dst v f b l w =
    let last : leb 100 v ≡ false = ground arith in
    let two : ltb v 10 ≡ false = ground arith in
    let e : v ≡ v % 100 = omega arith in
    let d : set (set dst 1 (table_at (v % 100 * 2 + 1))) 0 (table_at (v % 100 * 2))
        ≡ decimal 2 v ++ drop 2 dst =
      two_alone dst v l in
    rw (last, two, write_digits)
      (subst
        (λ i.
          set (set dst 1 (table_at (i * 2 + 1))) 0 (table_at (i * 2)) ≡ decimal 2 v ++ drop 2 dst)
        (sym e) d)
write_digits-decimal (suc fuel) (suc (suc k)) dst v f b l w =
    let more : leb 100 v ≡ true = ground arith in
    let next : (suc (suc k) + 2 ^ 32 - 2) % 2 ^ 32 ≡ k = omega arith in
    let before : suc (suc k) - 1 ≡ suc k = omega arith in
    let q : v / 10 / 10 ≡ v / 100 = omega arith in
    let i = v % 100 in
    let one = set dst (suc (suc k)) (table_at (i * 2 + 1)) in
    let pair = set one (suc k) (table_at (i * 2)) in
    let len =
      length-set one (suc k) (table_at (i * 2))
      ∙ length-set dst (suc (suc k)) (table_at (i * 2 + 1)) in
    rw (more, next, before, write_digits)
      (write_digits-decimal fuel k pair (v / 100) (omega arith) (omega arith) (omega arith)
          (subst (IsWidth (suc k)) q w.1.1)
        ∙ two_digits (suc k) dst v l)

drop-set_at :
    (n : ℕ) (dst : List ℕ) (a : ℕ) → n < length dst → drop n (set dst n a) ≡ a ∷ drop (suc n) dst
drop-set_at n [] a l = absurd (omega arith)
drop-set_at zero (x ∷ dst) a l = refl
drop-set_at (suc n) (x ∷ dst) a l = drop-set_at n dst a (omega arith)

digits_written :
    (n : ℕ) (dst : List ℕ) (v : ℕ)
    → n < length dst
    → n < 2 ^ 32
    → IsWidth n v
    → write_digits n (set dst n 0) (n - 1) v ≡ decimal n v ++ 0 ∷ drop (suc n) dst
digits_written zero dst v l b w = absurd w
digits_written (suc k) dst v l b w =
    let e : suc k - 1 ≡ k = omega arith in
    let len = length-set dst (suc k) 0 in
    rw e (
      write_digits-decimal (suc k) k (set dst (suc k) 0) v (omega arith) (omega arith) (omega arith)
        w
      ∙ ap (λ t. decimal (suc k) v ++ t) (drop-set_at (suc k) dst 0 l))

uint64_to_string-decimal :
    (dst : List ℕ) (v : ℕ)
    → v < 10000000000000000000
    → digits10 v < length dst
    → uint64_to_string dst v
      ≡ (decimal (digits10 v) v ++ 0 ∷ drop (suc (digits10 v)) dst, digits10 v)
unfolding uint64_to_string
uint64_to_string-decimal dst v lt l =
    let fits : leb (length dst) (digits10 v) ≡ false = ground arith in
    let small = digits10-bounded v lt in
    let e = digits_written (digits10 v) dst v l (omega arith) (digits10-IsWidth v (omega arith)) in
    rw fits (ap (λ d. (d, digits10 v)) e)

uint64_to_string-short :
    (dst : List ℕ) (v : ℕ) → length dst ≤ digits10 v → uint64_to_string dst v ≡ (set dst 0 0, 0)
unfolding uint64_to_string
uint64_to_string-short dst v l =
    let short : leb (length dst) (digits10 v) ≡ true = ground arith in rw short refl

positive_width : (k v : ℕ) → IsWidth k v → (k == 0) ≡ false
positive_width zero v w = absurd w
positive_width (suc k) v w = ground arith

-- A number has one count of digits.
one_width : (j k v : ℕ) → IsWidth j v → IsWidth k v → j ≡ k
one_width zero k v a b = absurd a
one_width (suc j) zero v a b = absurd b
one_width (suc zero) (suc zero) v a b = refl
one_width (suc zero) (suc (suc k)) v a b = absurd (omega arith)
one_width (suc (suc j)) (suc zero) v a b = absurd (omega arith)
one_width (suc (suc j)) (suc (suc k)) v a b = ap suc (one_width (suc j) (suc k) (v / 10) a.1 b.1)

length-text_negsuc : (n : ℕ) → length (text (negsuc n)) ≡ suc (digits10 (n + 1))
unfolding text
length-text_negsuc n = omega (arith, length-decimal (digits10 (n + 1)) (n + 1))

length-text_pos : (n : ℕ) → length (text (pos n)) ≡ digits10 n
unfolding text
length-text_pos n = length-decimal (digits10 n) n

-- Into an array longer than the text, `Int64ToString` writes the text of the integer and a null
-- byte, leaves the rest of the array alone, and returns the length of the text.
pub int64_to_string-text :
    (dst : List ℕ) (v : ℤ)
    → InRange 63 v
    → length (text v) < length dst
    → int64_to_string dst v ≡ (text v ++ 0 ∷ drop (suc (length (text v))) dst, length (text v))
unfolding int64_to_string text
int64_to_string-text dst (pos n) h l =
    let len = length-text_pos n in
    rw len (uint64_to_string-decimal dst n (omega arith) (omega arith))
int64_to_string-text [] (negsuc n) h l = absurd (omega arith)
int64_to_string-text (x ∷ []) (negsuc n) h l = absurd (omega (arith, length-text_negsuc n))
int64_to_string-text (x ∷ y ∷ rest) (negsuc n) h l =
    let k = digits10 (n + 1) in
    let len : length (decimal k (n + 1)) ≡ k = length-decimal k (n + 1) in
    let printed = uint64_to_string-decimal (y ∷ rest) (n + 1) (omega arith) (omega arith) in
    let some_digits : (k == 0) ≡ false =
      positive_width k (n + 1) (digits10-IsWidth (n + 1) (omega arith)) in
    let e : k + 1 ≡ suc k = omega arith in rw (printed, len, some_digits, e) refl

-- The digits of the absolute value.
abbrev pub HasDigits : ℕ → ℤ → Type 0
HasDigits k (pos n) = IsWidth k n
HasDigits k (negsuc n) = IsWidth k (n + 1)

-- The bytes that a text of so many digits takes, with its minus sign.
abbrev pub room_for : ℕ → ℤ → ℕ
room_for k (pos n) = k
room_for k (negsuc n) = k + 1

-- Into an array of no more bytes than the digits of the integer and its minus sign, without room
-- for the null byte, `Int64ToString` returns 0.
pub int64_to_string-short :
    (dst : List ℕ) (v : ℤ) (k : ℕ)
    → InRange 63 v
    → HasDigits k v
    → length dst ≤ room_for k v
    → (int64_to_string dst v).1 ≡ 0
unfolding int64_to_string
int64_to_string-short dst (pos n) k h w l =
    let e = one_width k (digits10 n) n w (digits10-IsWidth n (omega arith)) in
    rw (uint64_to_string-short dst n (omega arith)) refl
int64_to_string-short [] (negsuc n) k h w l = refl
int64_to_string-short (x ∷ []) (negsuc n) k h w l = refl
int64_to_string-short (x ∷ y ∷ rest) (negsuc n) k h w l =
    let e = one_width k (digits10 (n + 1)) (n + 1) w (digits10-IsWidth (n + 1) (omega arith)) in
    rw (uint64_to_string-short (y ∷ rest) (n + 1) (omega arith)) refl

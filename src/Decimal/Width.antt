-- ===== src/Decimal/Width.antt =====
-- utils/int_utils.cpp: `Digits10` counts the decimal digits.
use redis_simple.Common.{
  ℕ, zero, suc, ◌+◌, ◌/◌, ◌^◌, ◌≤◌, ◌<◌, ◌≡◌, sym, subst, arith, Bool-cases, inl, inr, ltb, ltb→lt,
}
use redis_simple.Decimal.{digits10_from, digits10}
use redis_simple.Decimal.Spec.{IsWidth}

digits10_from-IsWidth_small :
    (fuel v : ℕ) → v < 1000000000000 → IsWidth (digits10_from (suc fuel) v) v
unfolding digits10_from
digits10_from-IsWidth_small fuel v h = ground arith

-- Three digits more.
three_more : (k v : ℕ) → 1000 ≤ v → IsWidth (suc k) (v / 1000) → IsWidth (suc (suc (suc (suc k)))) v
three_more k v lo h =
    let e : v / 10 / 10 / 10 ≡ v / 1000 = omega arith in
    (omega arith, (omega arith, (omega arith, subst (IsWidth (suc k)) (sym e) h)))

six_more :
    (k v : ℕ)
    → 1000000 ≤ v
    → IsWidth (suc k) (v / 1000000)
    → IsWidth (suc (suc (suc (suc (suc (suc (suc k))))))) v
six_more k v lo h =
    let e : v / 1000 / 1000 ≡ v / 1000000 = omega arith in
    three_more (suc (suc (suc k))) v (omega arith)
      (three_more k (v / 1000) (omega arith) (subst (IsWidth (suc k)) (sym e) h))

twelve_more :
    (k v : ℕ) → 1000000000000 ≤ v → IsWidth (suc k) (v / 1000000000000) → IsWidth (12 + suc k) v
twelve_more k v lo h =
    let e : v / 1000000 / 1000000 ≡ v / 1000000000000 = omega arith in
    let n : suc (suc (suc (suc (suc (suc (suc (suc (suc (suc (suc (suc (suc k))))))))))))
        ≡ 12 + suc k =
      omega arith in
    subst (λ n. IsWidth n v) n
      (six_more (suc (suc (suc (suc (suc (suc k)))))) v (omega arith)
        (six_more k (v / 1000000) (omega arith) (subst (IsWidth (suc k)) (sym e) h)))

some_more : (d v : ℕ) → 1000000000000 ≤ v → IsWidth d (v / 1000000000000) → IsWidth (12 + d) v
some_more zero v lo h = absurd h
some_more (suc k) v lo h = twelve_more k v lo h

digits10_from-IsWidth : (v : ℕ) → 1000000000000 ≤ v → v < 2 ^ 64 → IsWidth (digits10_from 2 v) v
unfolding digits10_from
digits10_from-IsWidth v lo hi =
    let w = v / 1000000000000 in
    let small = digits10_from-IsWidth_small 0 w (omega arith) in
    let n : 12 + digits10_from 1 w ≡ digits10_from 2 v = ground arith in
    subst (λ n. IsWidth n v) n (some_more (digits10_from 1 w) v lo small)

-- `Digits10` counts the decimal digits of every unsigned 64-bit number.
pub digits10-IsWidth : (v : ℕ) → v < 2 ^ 64 → IsWidth (digits10 v) v
unfolding digits10
digits10-IsWidth v h = elim (Bool-cases (ltb v 1000000000000)) [
  | inl e ↦ digits10_from-IsWidth_small 1 v (omega (arith, ltb→lt v 1000000000000 e))
  | inr e ↦ digits10_from-IsWidth v (ground arith) h
]

pub digits10-bounded : (v : ℕ) → v < 10000000000000000000 → digits10 v ≤ 19
unfolding digits10 digits10_from
digits10-bounded v h = ground arith

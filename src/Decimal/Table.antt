-- ===== src/Decimal/Table.antt =====
-- utils/string_utils.cpp: the table of digit pairs, and two neighbouring writes.
use redis_simple.Common.{
  ℕ, zero, suc, ◌+◌, ◌*◌, ◌/◌, ◌%◌, ◌<◌, ◌≡◌, refl, subst, arith, inl, inr, Bool, true, ◌&&◌, List,
  [], ◌∷◌, ltb, ◌==◌, length, set, drop, Bool-cases,
}
use redis_simple.Decimal.{table_at}

-- A test that holds below a bound, tried at every number.
abbrev holds_below : (ℕ → Bool) → ℕ → Bool
holds_below p zero = true
holds_below p (suc n) = p n && holds_below p n

holds_below_lem : (p : ℕ → Bool) (n i : ℕ) → holds_below p n ≡ true → i < n → p i ≡ true
holds_below_lem p zero i h lt = absurd (omega arith)
holds_below_lem p (suc n) i h lt =
    let (now, before) = both (p n) (holds_below p n) h in
    elim (Bool-cases (ltb i n)) [
      | inl e ↦ holds_below_lem p n i before (ground arith)
      | inr e ↦ let same : n ≡ i = ground arith in subst (λ i. p i ≡ true) same now
    ]
  where
    both : (a b : Bool) → (a && b) ≡ true → (a ≡ true) × (b ≡ true)
    both a b h = ground arith

-- The table holds the two digits of each number below 100.
abbrev pair_is_right : ℕ → Bool
pair_is_right i = table_at (i * 2) == b'0' + i / 10 && table_at (i * 2 + 1) == b'0' + i % 10

table_checked : holds_below pair_is_right 100 ≡ true
unfolding table_at
table_checked = refl

pub table-digits :
    (i : ℕ) → i < 100 → (table_at (i * 2) ≡ b'0' + i / 10) × (table_at (i * 2 + 1) ≡ b'0' + i % 10)
table-digits i lt =
    let h : pair_is_right i ≡ true = holds_below_lem pair_is_right 100 i table_checked lt in
    (ground arith, ground arith)

-- Two neighbouring writes.
pub drop-two_set :
    (k : ℕ) (dst : List ℕ) (a b : ℕ)
    → suc k < length dst
    → drop k (set (set dst (suc k) b) k a) ≡ a ∷ b ∷ drop (suc (suc k)) dst
drop-two_set k [] a b h = absurd (omega arith)
drop-two_set zero (x ∷ []) a b h = absurd (omega arith)
drop-two_set zero (x ∷ y ∷ dst) a b h = refl
drop-two_set (suc k) (x ∷ dst) a b h = drop-two_set k dst a b (omega arith)

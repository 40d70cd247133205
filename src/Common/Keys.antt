-- ===== src/Common/Keys.antt =====
-- Keys: the bytes of a `std::string`, and their equality.
use Prim.Native.Nat.{ℕ}
use mathlib.Core.Path.{◌≡◌, refl, ap, ◌∙◌}
use mathlib.Core.Bool.{Bool, true, false, ◌&&◌}
use mathlib.Core.List.{List, [], ◌∷◌}
use native.Mathlib.Omega.{arith}
use redis_simple.Common.Tests.{◌==◌}

abbrev pub Key : Type 0
Key = List ℕ

unfoldable pub same_key : Key → Key → Bool
same_key [] [] = true
same_key [] (y ∷ ys) = false
same_key (x ∷ xs) [] = false
same_key (x ∷ xs) (y ∷ ys) = x == y && same_key xs ys

pub same_key_refl : (k : Key) → same_key k k ≡ true
unfolding same_key
same_key_refl [] = refl
same_key_refl (x ∷ xs) = let e : (x == x) ≡ true = ground arith in rw (e, same_key_refl xs) refl

pub same_key-eq : (j k : Key) → same_key j k ≡ true → j ≡ k
unfolding same_key
same_key-eq [] [] h = refl
same_key-eq [] (y ∷ ys) h = absurd (ground arith)
same_key-eq (x ∷ xs) [] h = absurd (ground arith)
same_key-eq (x ∷ xs) (y ∷ ys) h =
    let (a, b) = both (x == y) (same_key xs ys) h in
    let e : x ≡ y = ground arith in ap (λ x. x ∷ xs) e ∙ ap (λ xs. y ∷ xs) (same_key-eq xs ys b)
  where
    both : (a b : Bool) → (a && b) ≡ true → (a ≡ true) × (b ≡ true)
    both a b h = ground arith

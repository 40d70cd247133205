-- ===== src/IntSet/Sorted.antt =====
-- Ascending lists of integers: what the array of memory/intset.cpp stands for.
use redis_simple.Common.{
  ℕ, zero, suc, ◌≤◌, ◌≡◌, refl, arith, Bool, true, false, some, List, [], ◌∷◌, ◌++◌, if◌then◌else◌,
  length, take, drop, get_elem?, All, ◌||◌,
}
use redis_simple.Common.Int.{ℤ, ◌<ℤ◌, ltb_ℤ, eqb_ℤ, <ℤ_cases}

abbrev pub IsSorted : List ℤ → Type 0
IsSorted [] = Unit
IsSorted (x ∷ xs) = All (λ y. x <ℤ y) xs × IsSorted xs

unfoldable pub member : ℤ → List ℤ → Bool
member v [] = false
member v (x ∷ xs) = eqb_ℤ x v || member v xs

-- Insertion into an ascending list; a member is not inserted again.
unfoldable pub insert : ℤ → List ℤ → List ℤ
insert v [] = v ∷ []
insert v (x ∷ xs) = if ltb_ℤ v x then v ∷ x ∷ xs else if ltb_ℤ x v then x ∷ insert v xs else x ∷ xs

unfoldable pub erase : ℤ → List ℤ → List ℤ
erase v [] = []
erase v (x ∷ xs) = if eqb_ℤ x v then xs else x ∷ erase v xs

All-trans : (v w : ℤ) (xs : List ℤ) → v <ℤ w → All (λ y. w <ℤ y) xs → All (λ y. v <ℤ y) xs
All-trans v w [] h a = tt
All-trans v w (x ∷ xs) h a = (omega arith, All-trans v w xs h a.1)

head_below :
    (x y : ℤ) (xs : List ℤ) (m : ℕ) → All (λ z. x <ℤ z) xs → get_elem? xs m ≡ some y → x <ℤ y
head_below x y [] m a e = cc
head_below x y (z ∷ xs) zero a e = ground arith
head_below x y (z ∷ xs) (suc m) a e = head_below x y xs m a.1 e

pub take-below :
    (v y : ℤ) (xs : List ℤ) (m : ℕ)
    → IsSorted xs
    → get_elem? xs m ≡ some y
    → y <ℤ v
    → All (λ x. x <ℤ v) (take (suc m) xs)
take-below v y [] m s e h = tt
take-below v y (x ∷ xs) zero s e h = (ground arith, tt)
take-below v y (x ∷ xs) (suc m) s e h =
    (ground (arith, head_below x y xs m s.0 e), take-below v y xs m s.1 e h)

pub drop-above :
    (v y : ℤ) (xs : List ℤ) (m : ℕ)
    → IsSorted xs
    → get_elem? xs m ≡ some y
    → v <ℤ y
    → All (λ x. v <ℤ x) (drop m xs)
drop-above v y [] m s e h = cc
drop-above v y (x ∷ xs) zero s e h =
    let e' : x ≡ y = ground arith in (rw e' h, All-trans v x xs (rw e' h) s.0)
drop-above v y (x ∷ xs) (suc m) s e h = drop-above v y xs m s.1 e h

above_every :
    (v : ℤ) (xs : List ℤ) → All (λ x. v <ℤ x) xs → (member v xs ≡ false) × (erase v xs ≡ xs)
unfolding member erase
above_every v [] a = (refl, refl)
above_every v (x ∷ xs) a = ground (arith, above_every v xs a.1)

-- A place between smaller and larger members: the value is new, and is inserted there.
pub record Between (v : ℤ) (xs : List ℤ) (i : ℕ) : Type 0 where
  pub inside : i ≤ length xs
  pub below : All (λ x. x <ℤ v) (take i xs)
  pub above : All (λ x. v <ℤ x) (drop i xs)

pub insert-Between :
    (v : ℤ) (xs : List ℤ) (i : ℕ)
    → All (λ x. x <ℤ v) (take i xs)
    → All (λ x. v <ℤ x) (drop i xs)
    → (member v xs ≡ false) × (insert v xs ≡ take i xs ++ v ∷ drop i xs) × (erase v xs ≡ xs)
unfolding member insert erase
insert-Between v [] zero b a = (refl, refl, refl)
insert-Between v [] (suc i) b a = (refl, refl, refl)
insert-Between v (x ∷ xs) zero b a = ground (arith, above_every v xs a.1)
insert-Between v (x ∷ xs) (suc i) b a = ground (arith, insert-Between v xs i b.1 a)

pub insert-at :
    (v : ℤ) (xs : List ℤ) (i : ℕ)
    → IsSorted xs
    → get_elem? xs i ≡ some v
    → (member v xs ≡ true) × (insert v xs ≡ xs) × (erase v xs ≡ take i xs ++ drop (suc i) xs)
unfolding member insert erase
insert-at v [] i s e = cc
insert-at v (x ∷ xs) zero s e = ground arith
insert-at v (x ∷ xs) (suc i) s e = ground (arith, insert-at v xs i s.1 e, head_below x v xs i s.0 e)

insert-above :
    (v w : ℤ) (xs : List ℤ) → All (λ y. w <ℤ y) xs → w <ℤ v → All (λ y. w <ℤ y) (insert v xs)
unfolding insert
insert-above v w [] a h = (h, tt)
insert-above v w (x ∷ xs) a h = ground (arith, insert-above v w xs a.1 h)

erase-above : (v w : ℤ) (xs : List ℤ) → All (λ y. w <ℤ y) xs → All (λ y. w <ℤ y) (erase v xs)
unfolding erase
erase-above v w [] a = tt
erase-above v w (x ∷ xs) a = ground (arith, erase-above v w xs a.1)

pub insert-IsSorted : (v : ℤ) (xs : List ℤ) → IsSorted xs → IsSorted (insert v xs)
unfolding insert
insert-IsSorted v [] s = (tt, tt)
insert-IsSorted v (x ∷ xs) s =
    ground
      (arith, insert-IsSorted v xs s.1, insert-above v x xs s.0, All-trans v x xs, <ℤ_cases v x)

pub erase-IsSorted : (v : ℤ) (xs : List ℤ) → IsSorted xs → IsSorted (erase v xs)
unfolding erase
erase-IsSorted v [] s = tt
erase-IsSorted v (x ∷ xs) s = ground (arith, erase-IsSorted v xs s.1, erase-above v x xs s.0)

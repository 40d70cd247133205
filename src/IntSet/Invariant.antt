-- ===== src/IntSet/Invariant.antt =====
-- memory/intset.h: the integers of a set, and its well-formedness.
use redis_simple.Common.{
  ℕ, zero, suc, ◌^◌, ◌≤◌, ◌<◌, ◌≡◌, refl, ap, ◌∙◌, arith, List, [], ◌∷◌, some, map, length, take,
  get_elem?, get_or, length-take,
}
use redis_simple.Common.Int.{ℤ}
use redis_simple.IntSet.{IntSet, magnitude, of_cell, encoded_value}
use redis_simple.IntSet.Encoding.{slot-below}
use redis_simple.IntSet.Sorted.{IsSorted}

abbrev pub decode : IntSet → List ℕ → List ℤ
decode s = map (of_cell (magnitude s.encoding))

-- The members, ascending.
unfoldable pub values : IntSet → List ℤ
values s = decode s (take s.length s.contents)

pub record IsValid (s : IntSet) : Type 0 where
  pub room : s.length ≤ length s.contents
  pub small : s.length < 2 ^ 29
  pub sorted : IsSorted (values s)

pub length-map {ℓ κ} :
    {A : Type ℓ} {B : Type κ} (f : A → B) (xs : List A) → length (map f xs) ≡ length xs
length-map f [] = refl
length-map f (x ∷ xs) = ap suc (length-map f xs)

pub map-take {ℓ κ} :
    {A : Type ℓ} {B : Type κ} (f : A → B) (n : ℕ) (xs : List A)
    → map f (take n xs) ≡ take n (map f xs)
map-take f zero xs = refl
map-take f (suc n) [] = refl
map-take f (suc n) (x ∷ xs) = ap (◌∷◌ (f x)) (map-take f n xs)

pub length-values : {s : IntSet} → IsValid s → length (values s) ≡ s.length
unfolding values
length-values {s} v =
    length-map (of_cell (magnitude s.encoding)) (take s.length s.contents)
    ∙ omega (arith, length-take s.length s.contents, v.room)

pub get_elem?-map-take {ℓ κ} :
    {A : Type ℓ} {B : Type κ} (f : A → B) (xs : List A) (n i : ℕ) (d : A)
    → i < n
    → n ≤ length xs
    → (get_elem? xs i ≡ some (get_or xs i d))
      × (get_elem? (map f (take n xs)) i ≡ some (f (get_or xs i d)))
get_elem?-map-take f [] n i d h k = absurd (omega arith)
get_elem?-map-take f (x ∷ xs) zero i d h k = absurd (omega arith)
get_elem?-map-take f (x ∷ xs) (suc n) zero d h k = (refl, refl)
get_elem?-map-take f (x ∷ xs) (suc n) (suc i) d h k =
    get_elem?-map-take f xs n i d (omega arith) (omega arith)

-- Below the length a read gives a member; from the length on it throws.
pub encoded_value_lem :
    {s : IntSet} (v : IsValid s) (i : ℕ)
    → i < s.length
    → (x : ℤ) × (encoded_value s i ≡ some x) × (get_elem? (values s) i ≡ some x)
unfolding encoded_value values
encoded_value_lem {s} v i h =
    let f = of_cell (magnitude s.encoding) in
    let (raw, member) = get_elem?-map-take f s.contents s.length i 0 h v.room in
    let here = slot-below s.encoding i (omega (arith, v.small)) in
    (f (get_or s.contents i 0), rw here (ground arith), member)

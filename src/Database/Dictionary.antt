-- ===== src/Database/Dictionary.antt =====
-- A dictionary as the database uses it, the abstract view of memory/dict.h: the values that it finds
-- under its keys. Database/Represents.antt relates it to the hash table of Dict.
use redis_simple.Common.{
  ◌≡◌, refl, ap, sym, ◌∙◌, subst, arith, Bool, true, false, Option, none, some, List, [], ◌∷◌, ◌==◌,
  if◌then◌else◌, length, Bool-cases, inl, inr,
}
use redis_simple.Common.Keys.{Key, same_key, same_key-eq}

abbrev pub Table : Type 0 → Type 0
Table V = List (Key × V)

-- `FindValue`
unfoldable pub find_value : {V : Type 0} → Key → Table V → Option V
find_value key [] = none
find_value key ((k, v) ∷ t) = let rest = find_value key t in if same_key key k then some v else rest

-- `Delete`
unfoldable pub delete_value : {V : Type 0} → Key → Table V → Table V
delete_value key [] = []
delete_value key ((k, v) ∷ t) =
    let rest = delete_value key t in if same_key key k then rest else (k, v) ∷ rest

-- `Set`
unfoldable pub set_value : {V : Type 0} → Key → V → Table V → Table V
set_value key v t = (key, v) ∷ delete_value key t

-- What a deletion leaves.
pub find-delete :
    {V : Type 0} (j k : Key) (t : Table V)
    → find_value j (delete_value k t) ≡ (if same_key j k then none else find_value j t)
unfolding find_value delete_value
find-delete {V} j k [] = if_same (same_key j k)
  where
    if_same : (b : Bool) → ◌≡◌ {A = Option V} none (if b then none else none)
    if_same true = refl
    if_same false = refl
find-delete {V} j k ((i, v) ∷ t) = elim (Bool-cases (same_key k i)) [
  | inl e ↦
      let ki = same_key-eq k i e in
      rw (e, find-delete j k t) (deleted_here (same_key j k) (same_key j i) (ap (same_key j) ki))
  | inr e ↦
      rw (e, find_value, find-delete j k t)
        (deleted_behind (same_key j k) (same_key j i)
          (λ h. subst (λ k. same_key k i ≡ false) (sym (same_key-eq j k h)) e))
]
  where
    deleted_here :
        (a b : Bool)
        → a ≡ b
        → (if a then none else find_value j t)
          ≡ (if a then none else if b then some v else find_value j t)
    deleted_here true b e = refl
    deleted_here false true e = absurd (ground arith)
    deleted_here false false e = refl

    deleted_behind :
        (a b : Bool)
        → (a ≡ true → b ≡ false)
        → (if b then some v else if a then none else find_value j t)
          ≡ (if a then none else if b then some v else find_value j t)
    deleted_behind true b e = let b' = e refl in rw b' refl
    deleted_behind false b e = refl

pub find-set :
    {V : Type 0} (j k : Key) (v : V) (t : Table V)
    → find_value j (set_value k v t) ≡ (if same_key j k then some v else find_value j t)
unfolding set_value find_value
find-set {V} j k v t = elim (Bool-cases (same_key j k)) [
  | inl e ↦ rw e refl
  | inr e ↦ rw e (find-delete j k t ∙ rw e refl)
]

pub find-empty :
    {V : Type 0} (k : Key) (t : Table V) → (length t == 0) ≡ true → find_value k t ≡ none
unfolding find_value
find-empty k [] h = refl
find-empty k (x ∷ t) h = absurd (ground arith)

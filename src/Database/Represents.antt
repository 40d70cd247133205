-- ===== src/Database/Represents.antt =====
-- memory/dict.h as server/db/db.cpp uses it: a dictionary and the table of its keys and values.
use redis_simple.Common.{ℕ, ◌<◌, ◌≡◌, refl, ap, sym, ◌∙◌, none, some, [], if◌then◌else◌}
use redis_simple.Common.Keys.{Key, same_key}
use redis_simple.Dict.{Dict, create, clear, find_value, set_value, delete, chain_at}
use redis_simple.Dict.Chain.{value_in}
use redis_simple.Dict.Invariant.{IsDict, value}
use redis_simple.Dict.Methods.{find_value-value, set_value-value}
use redis_simple.Dict.Results.{create-value, extract-value, blank-IsDict}
use redis_simple.Database.Dictionary.{Table, find-delete, find-set}
use redis_simple.Database.Dictionary

-- The dictionaries that the operations make of a new one, each with the table that the operations
-- of the table make of the empty one.
pub data Represents {V : Type 0} (hf : Key → ℕ) : Dict V → Table V → Type 0 where
  created :
      (capacity : ℕ) (d : Dict V) → 0 < capacity → create capacity ≡ some d → Represents hf d []
  looked_up :
      (k : Key) (d : Dict V) (t : Table V)
      → Represents hf d t
      → Represents hf (find_value hf k d).0 t
  stored :
      (k : Key) (v : V) (d : Dict V) (t : Table V)
      → Represents hf d t
      → Represents hf (set_value hf k v d) (Dictionary.set_value k v t)
  deleted :
      (k : Key) (d : Dict V) (t : Table V)
      → Represents hf d t
      → Represents hf (delete hf k d).0 (Dictionary.delete_value k t)
  cleared : (d : Dict V) (t : Table V) → Represents hf d t → Represents hf (clear d) []

-- A well-formed dictionary with the values of a table.
pub record SameValues {V : Type 0} (hf : Key → ℕ) (d : Dict V) (t : Table V) : Type 0 where
  pub good : IsDict hf d
  pub same : (k : Key) → value hf k d ≡ Dictionary.find_value k t

module _ {V : Type 0} (hf : Key → ℕ) where
  pub Represents-SameValues : (d : Dict V) (t : Table V) → Represents hf d t → SameValues hf d t
  unfolding Dictionary.find_value delete clear chain_at value_in
  Represents-SameValues _ _ (Represents.created capacity d pos h) =
      let (good, same) = create-value hf capacity d pos h in record { good = good; same = same }
  Represents-SameValues _ _ (Represents.looked_up k d t r) =
      let p = Represents-SameValues d t r in
      let (_, good, same) = find_value-value hf k d p.good in
      record { good = good; same = λ j. same j ∙ p.same j }
  Represents-SameValues _ _ (Represents.stored k v d t r) =
      let p = Represents-SameValues d t r in
      let (good, same) = set_value-value hf k v d p.good in
      record {
        good = good;
        same = λ j.
            same j
            ∙ ap (λ o. if same_key j k then some v else o) (p.same j)
            ∙ sym (find-set j k v t);
      }
  Represents-SameValues _ _ (Represents.deleted k d t r) =
      let p = Represents-SameValues d t r in
      let (_, good, same) = extract-value hf k d p.good in
      record {
        good = good;
        same = λ j.
            same j
            ∙ ap (λ o. if same_key j k then none else o) (p.same j)
            ∙ sym (find-delete j k t);
      }
  Represents-SameValues _ _ (Represents.cleared d t r) = record {
    good = blank-IsDict hf;
    same = λ k. refl;
  }

  -- Whatever the hash function, and whatever `FindValue`, `Set`, `Delete` and `Clear` have been called
  -- in whatever order after `Create` of a capacity above 0, `FindValue` returns what the table finds
  -- on which the same operations have been done, which keeps each key once.
  pub find_value-Represents :
      (k : Key) (d : Dict V) (t : Table V)
      → Represents hf d t
      → (find_value hf k d).1 ≡ Dictionary.find_value k t
  find_value-Represents k d t r =
      let p = Represents-SameValues d t r in (find_value-value hf k d p.good).0 ∙ p.same k

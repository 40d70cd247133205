-- ===== src/Dict/Invariant.antt =====
-- memory/dict.h: the invariant of the two tables, and the value that a dictionary has for a key.
use redis_simple.Common.{
  ℕ, ◌<◌, ◌≡◌, refl, ap, sym, ◌∙◌, subst, arith, Bool, true, false, not, Option, none, some, [],
  ◌==◌, if◌then◌else◌, length, get_or, Bool-cases, inl, inr, ◌⊎◌, eq-nil,
}
use redis_simple.Common.Keys.{Key, same_key, same_key-eq}
use redis_simple.Dict.{
  DictEntry, HashTable, Dict, hash_index, chain_at, search_table, search_tables, value_of,
  change_table,
}
use redis_simple.Dict.Chain.{value_in, search_chain-value}
use redis_simple.Dict.Table.{IsTable, chain_at-IsChain, table_value}

abbrev pub or_else : {V : Type 0} → Option V → Option V → Option V
or_else none o = o
or_else (some v) o = some v

-- The second table is in use exactly while rehashing.
abbrev pub InPhase : Option ℕ → ℕ → ℕ → Type 0
InPhase none n m = m ≡ 0
InPhase (some r) n m = (0 < n) × (0 < m)

pub record IsDict {V : Type 0} (hf : Key → ℕ) (d : Dict V) : Type 0 where
  pub first : IsTable hf d.table0
  pub second : IsTable hf d.table1
  pub phase : InPhase d.rehash_idx (length d.table0.buckets) (length d.table1.buckets)
  pub apart : (k : Key) → (table_value hf k d.table0 ≡ none) ⊎ (table_value hf k d.table1 ≡ none)

-- The value of a key: that of the first table, or of the second.
abbrev pub value : {V : Type 0} → (Key → ℕ) → Key → Dict V → Option V
value hf k d = or_else (table_value hf k d.table0) (table_value hf k d.table1)

abbrev pub table_of : {V : Type 0} → Bool → Dict V → HashTable V
table_of false d = d.table0
table_of true d = d.table1

module _ {V : Type 0} (hf : Key → ℕ) where
  pub empty_table : (k : Key) (t : HashTable V) → length t.buckets ≡ 0 → table_value hf k t ≡ none
  unfolding chain_at value_in
  empty_table k t h =
      ap (λ bs. value_in k (get_or bs (hash_index (hf k) t) [])) (eq-nil t.buckets h)

  nonempty_of_value :
      (k : Key) (t : HashTable V) (v : V) → table_value hf k t ≡ some v → 0 < length t.buckets
  nonempty_of_value k t v e = elim (Bool-cases (length t.buckets == 0)) [
    | inl z ↦ absurd (conflict (table_value hf k t) (empty_table k t (ground arith)) e)
    | inr n ↦ ground arith
  ]
    where
      conflict : (o : Option V) → o ≡ none → o ≡ some v → ⊥
      conflict o p q = ground arith

  search_table-value :
      (k : Key) (t : HashTable V)
      → IsTable hf t
      → value_of (search_table k (hf k) t) ≡ table_value hf k t
  unfolding search_table
  search_table-value k t ok = elim (Bool-cases (length t.buckets == 0)) [
    | inl e ↦ rw (e, search_table) (sym (empty_table k t (ground arith)))
    | inr n ↦
        rw (n, search_table)
          (search_chain-value hf t.size_exp k (hash_index (hf k) t) (chain_at (hf k) t)
            (chain_at-IsChain hf t ok (hf k)))
  ]

  -- What the loop over the tables finds.
  abbrev pub Found : Key → Dict V → Option (Bool × DictEntry V) → Type 0
  Found k d none = value hf k d ≡ none
  Found k d (some (i, e)) =
      (table_value hf k (table_of i d) ≡ some e.val)
      × (table_value hf k (table_of (not i) d) ≡ none)
      × (value hf k d ≡ some e.val)
      × (0 < length (table_of i d).buckets)

  pub search_tables-Found :
      (k : Key) (d : Dict V) → IsDict hf d → Found k d (search_tables k (hf k) d)
  unfolding search_tables
  search_tables-Found k d ok =
      cases (search_table k (hf k) d.table0) (search_table k (hf k) d.table1) d.rehash_idx
        (search_table-value k d.table0 ok.first) (search_table-value k d.table1 ok.second) ok.phase
        (ok.apart k)
    where
      v0 : Option V
      v0 = table_value hf k d.table0

      v1 : Option V
      v1 = table_value hf k d.table1

      in_first : (v : V) → v0 ≡ some v → (v0 ≡ none) ⊎ (v1 ≡ none) → v1 ≡ none
      in_first v e (inl n) = absurd (ground arith)
      in_first v e (inr n) = n

      cases :
          (o0 o1 : Option (DictEntry V)) (r : Option ℕ)
          → value_of o0 ≡ v0
          → value_of o1 ≡ v1
          → InPhase r (length d.table0.buckets) (length d.table1.buckets)
          → (v0 ≡ none) ⊎ (v1 ≡ none)
          → Found k d (elim o0 as (λ o. Option (Bool × DictEntry V)) [
            | some e ↦ some (false, e)
            | none ↦
                if (elim r as (λ r. Bool) [ none ↦ false | some r ↦ true ])
                then elim o1 as (λ o. Option (Bool × DictEntry V)) [
                  | none ↦ none
                  | some e ↦ some (true, e)
                ]
                else none
          ])
      cases (some e) o1 r e0 e1 p a = (
        sym e0,
        in_first e.val (sym e0) a,
        ap (λ o. or_else o v1) (sym e0),
        nonempty_of_value k d.table0 e.val (sym e0),
      )
      cases none o1 none e0 e1 p a = ap (λ o. or_else o v1) (sym e0) ∙ empty_table k d.table1 p
      cases none none (some r) e0 e1 p a = ap (λ o. or_else o v1) (sym e0) ∙ sym e1
      cases none (some e) (some r) e0 e1 p a = (
        sym e1,
        sym e0,
        ap (λ o. or_else o v1) (sym e0) ∙ sym e1,
        nonempty_of_value k d.table1 e.val (sym e1),
      )

or_else-none : {V : Type 0} (o : Option V) → or_else o none ≡ o
or_else-none none = refl
or_else-none (some v) = refl

-- A change of one table that changes only what is found under one key, which is not in the other.
module _ {V : Type 0} (hf : Key → ℕ) (d : Dict V) (ok : IsDict hf d) (k : Key) (o : Option V)
    (f : HashTable V → HashTable V) where
  abbrev pub Changes : Bool → Type 0
  Changes i =
      IsTable hf (f (table_of i d))
      × (length (f (table_of i d)).buckets ≡ length (table_of i d).buckets)
      × ((j : Key)
          → table_value hf j (f (table_of i d))
            ≡ (if same_key j k then o else table_value hf j (table_of i d)))
      × (table_value hf k (table_of (not i) d) ≡ none)

  absent_at :
      (i : Bool)
      → Changes i
      → (j : Key) → same_key j k ≡ true
      → table_value hf j (table_of (not i) d) ≡ none
  absent_at i c j same =
      ap (λ k. table_value hf k (table_of (not i) d)) (same_key-eq j k same) ∙ c.3

  pub change_table-value :
      (i : Bool)
      → Changes i
      → (j : Key) → value hf j (change_table i f d) ≡ (if same_key j k then o else value hf j d)
  change_table-value false c j = elim (Bool-cases (same_key j k)) [
    | inl same ↦
        let x : table_value hf j (f d.table0) ≡ o =
          c.2 j ∙ ap (λ b. if b then o else table_value hf j d.table0) same in
        rw (same, absent_at false c j same, x) (or_else-none o)
    | inr apart ↦
        let x : table_value hf j (f d.table0) ≡ table_value hf j d.table0 =
          c.2 j ∙ ap (λ b. if b then o else table_value hf j d.table0) apart in
        rw (apart, x) refl
  ]
  change_table-value true c j = elim (Bool-cases (same_key j k)) [
    | inl same ↦
        let x : table_value hf j (f d.table1) ≡ o =
          c.2 j ∙ ap (λ b. if b then o else table_value hf j d.table1) same in
        rw (same, absent_at true c j same, x) refl
    | inr apart ↦
        let x : table_value hf j (f d.table1) ≡ table_value hf j d.table1 =
          c.2 j ∙ ap (λ b. if b then o else table_value hf j d.table1) apart in
        rw (apart, x) refl
  ]

  pub change_table-IsDict : (i : Bool) → Changes i → IsDict hf (change_table i f d)
  change_table-IsDict false c = record {
    first = c.0;
    second = ok.second;
    phase = subst (λ n. InPhase d.rehash_idx n (length d.table1.buckets)) (sym c.1) ok.phase;
    apart = λ j. elim (Bool-cases (same_key j k)) [
      | inl same ↦ inr (absent_at false c j same)
      | inr other ↦ elim (ok.apart j) [
        | inl n ↦ inl (c.2 j ∙ ap (λ b. if b then o else table_value hf j d.table0) other ∙ n)
        | inr n ↦ inr n
      ]
    ];
  }
  change_table-IsDict true c = record {
    first = ok.first;
    second = c.0;
    phase = subst (λ n. InPhase d.rehash_idx (length d.table0.buckets) n) (sym c.1) ok.phase;
    apart = λ j. elim (Bool-cases (same_key j k)) [
      | inl same ↦ inl (absent_at true c j same)
      | inr other ↦ elim (ok.apart j) [
        | inl n ↦ inl n
        | inr n ↦ inr (c.2 j ∙ ap (λ b. if b then o else table_value hf j d.table1) other ∙ n)
      ]
    ];
  }

-- ===== src/Dict/Results.antt =====
-- memory/dict.h: `Insert`, `Extract` and `Delete`, with what they return.
use redis_simple.Common.{
  ℕ, ◌<◌, ◌≡◌, refl, ap, sym, ◌∙◌, subst, Bool, Bool-cases, inl, inr, true, false, not, Option,
  none, some, length, if◌then◌else◌, arith,
}
use redis_simple.Common.Keys.{Key, same_key, same_key-eq}
use redis_simple.Dict.{
  DictEntry, Dict, is_rehashing, search_tables, change_table, insert_entry, unlink_entry,
  rehash_step_if_needed, insert_raw, insert_value, extract, expand, create, chain_at, reset,
}
use redis_simple.Dict.Invariant.{IsDict, value, Found, search_tables-Found}
use redis_simple.Dict.Chain.{value_in}
use redis_simple.Dict.Rounds.{rehash_step-IsSame, reset-IsTable}
use redis_simple.Dict.Growth.{expand-IsSame}
use redis_simple.Dict.Methods.{
  IsUpdate, after, unlink_entry-IsUpdate, insert_entry-IsUpdate, prepared, prepared-IsSame,
  prepared-length,
}

abbrev pub is_some : {V : Type 0} → Option V → Bool
is_some none = false
is_some (some v) = true

-- The value of a key that is inserted: a value that is there stays.
abbrev pub first_of : {V : Type 0} → Option V → V → Option V
first_of none v = some v
first_of (some w) v = some w

module _ {V : Type 0} (hf : Key → ℕ) where
  at_key :
      (j k : Key) (d : Dict V) (o : Option V)
      → o ≡ value hf k d
      → value hf j d ≡ (if same_key j k then o else value hf j d)
  at_key j k d o e = elim (Bool-cases (same_key j k)) [
    | inl same ↦
        ap (λ k. value hf k d) (same_key-eq j k same)
        ∙ sym e
        ∙ sym (ap (λ b. if b then o else value hf j d) same)
    | inr other ↦ sym (ap (λ b. if b then o else value hf j d) other)
  ]

  -- `Insert` on a well-formed dictionary tells whether the key was absent and gives it the value
  -- only then, while every other key keeps the value it had, and keeps the dictionary well formed.
  pub insert_value-value :
      (k : Key) (v : V) (d : Dict V)
      → IsDict hf d
      → ((insert_value hf k v d).1 ≡ not (is_some (value hf k d)))
        × IsDict hf (insert_value hf k v d).0
        × ((j : Key)
            → value hf j (insert_value hf k v d).0
              ≡ (if same_key j k then first_of (value hf k d) v else value hf j d))
  unfolding insert_value insert_raw
  insert_value-value k v d ok =
      let p = prepared-IsSame hf d ok in
      let d' = prepared hf d in
      let c =
        cases d' p.good (prepared-length hf d ok) (search_tables k (hf k) d')
          (search_tables-Found hf k d' p.good) in
      let u = after hf p c.1 in
      (
        c.0 ∙ ap (λ o. not (is_some o)) (p.same k),
        u.good,
        λ j. u.values j ∙ ap (λ o. if same_key j k then first_of o v else value hf j d) (p.same k),
      )
    where
      entry : DictEntry V
      entry = record { key = k; val = v; hash = hf k }

      cases :
          (d' : Dict V)
          → IsDict hf d'
          → 0 < length d'.table0.buckets
          → (o : Option (Bool × DictEntry V)) → Found hf k d' o
          → let r : Dict V × Option Bool = elim o as (λ o. Dict V × Option Bool) [
            | some (i, e) ↦ (d', some i)
            | none ↦ (change_table (is_rehashing d') (insert_entry entry) d', none)
          ] in
            ((elim r.1 as (λ o. Bool) [ none ↦ true | some i ↦ false ])
              ≡ not (is_some (value hf k d')))
            × IsUpdate hf k (first_of (value hf k d') v) d' r.0
      cases d' good n0 none h = (
        ap (λ o. not (is_some o)) (sym h),
        subst
            (λ o.
              IsUpdate hf k (first_of o v) d'
                (change_table (is_rehashing d') (insert_entry entry) d'))
            (sym h) (insert_entry-IsUpdate hf k v d' good n0 h),
      )
      cases d' good n0 (some (i, e)) h = (
        ap (λ o. not (is_some o)) (sym (h.2)),
        record {
          good = good;
          values = λ j.
              at_key j k d' (first_of (value hf k d') v) (ap (λ o. first_of o v) (h.2) ∙ sym (h.2));
        },
      )

  -- `Extract` on a well-formed dictionary returns the value of the key, which is absent
  -- afterwards, while every other key keeps the value it had, and keeps the dictionary well
  -- formed.
  pub extract-value :
      (k : Key) (d : Dict V)
      → IsDict hf d
      → ((extract hf k d).1 ≡ value hf k d)
        × IsDict hf (extract hf k d).0
        × ((j : Key)
            → value hf j (extract hf k d).0 ≡ (if same_key j k then none else value hf j d))
  unfolding extract
  extract-value k d ok =
      let p = rehash_step-IsSame hf d ok in
      let d' = rehash_step_if_needed d in
      let c = cases d' p.good (search_tables k (hf k) d') (search_tables-Found hf k d' p.good) in
      let u = after hf p c.1 in (c.0 ∙ p.same k, u.good, u.values)
    where
      cases :
          (d' : Dict V)
          → IsDict hf d'
          → (o : Option (Bool × DictEntry V)) → Found hf k d' o
          → let r : Dict V × Option V = elim o as (λ o. Dict V × Option V) [
            | none ↦ (d', none)
            | some (i, e) ↦ (change_table i (unlink_entry k (hf k)) d', some e.val)
          ] in
            (r.1 ≡ value hf k d') × IsUpdate hf k none d' r.0
      cases d' good none h =
          (sym h, record { good = good; values = λ j. at_key j k d' none (sym h) })
      cases d' good (some (i, e)) h = (sym (h.2), unlink_entry-IsUpdate hf k d' good i e h)

  -- Both tables are empty.
  pub blank-IsDict :
      IsDict {V = V} hf
        (record { table0 = reset; table1 = reset; rehash_idx = none; pause_rehash = 0 })
  unfolding chain_at value_in
  blank-IsDict = record {
    first = reset-IsTable hf;
    second = reset-IsTable hf;
    phase = refl;
    apart = λ k. inl refl;
  }

  -- A dictionary that is created has no keys.
  pub create-value :
      (capacity : ℕ) (d : Dict V)
      → 0 < capacity
      → create capacity ≡ some d
      → IsDict hf d × ((k : Key) → value hf k d ≡ none)
  unfolding create chain_at value_in
  create-value capacity d pos h =
      let p = expand-IsSame hf capacity blank blank-IsDict pos in
      cases (expand capacity blank).0 (expand capacity blank).1 p.good p.same h
    where
      blank : Dict V
      blank = record { table0 = reset; table1 = reset; rehash_idx = none; pause_rehash = 0 }

      cases :
          (d' : Dict V) (b : Bool)
          → IsDict hf d'
          → ((k : Key) → value hf k d' ≡ none)
          → (if b then some d' else none) ≡ some d
          → IsDict hf d × ((k : Key) → value hf k d ≡ none)
      cases d' false good same e = absurd (ground arith)
      cases d' true good same e =
          let q : d' ≡ d = ap (λ o. elim o as (λ o. Dict V) [ none ↦ d' | some x ↦ x ]) e in
          (subst (IsDict hf) q good, λ k. ap (value hf k) (sym q) ∙ same k)

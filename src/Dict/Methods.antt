-- ===== src/Dict/Methods.antt =====
-- memory/dict.h: the methods against the values that a dictionary has for its keys.
use redis_simple.Common.{
  ℕ, ◌<◌, ◌≡◌, refl, ap, sym, ◌∙◌, arith, Bool, true, false, not, Option, none, some, [], ◌∷◌,
  if◌then◌else◌, length, length-set, get_or,
}
use redis_simple.Common.Keys.{Key, same_key}
use redis_simple.Dict.{
  DictEntry, HashTable, Dict, is_rehashing, chain_at, hash_index, search_tables, change_table,
  insert_entry, set_found, unlink_entry, set_val_chain, unlink_chain, write_chain,
  rehash_step_if_needed, expand_if_needed, find_value, insert_raw, set_value,
}
use redis_simple.Dict.Table.{IsTable, table_value}
use redis_simple.Dict.Changes.{
  insert_entry-IsTable, insert_entry-value, set_found-IsTable, set_found-value,
  unlink_entry-IsTable, unlink_entry-value,
}
use redis_simple.Dict.Invariant.{
  IsDict, InPhase, value, or_else, table_of, Found, search_tables-Found, Changes,
  change_table-value, change_table-IsDict,
}
use redis_simple.Dict.Rehashing.{IsSame, IsSame-trans}
use redis_simple.Dict.Rounds.{rehash_step-IsSame}
use redis_simple.Dict.Growth.{expand_if_needed-IsSame, expand_if_needed-length}

-- `d'` is a dictionary with the values of `d`, but `o` for the key `k`.
pub record IsUpdate {V : Type 0} (hf : Key → ℕ) (k : Key) (o : Option V) (d d' : Dict V)
    : Type 0 where
  pub good : IsDict hf d'
  pub values : (j : Key) → value hf j d' ≡ (if same_key j k then o else value hf j d)

module _ {V : Type 0} (hf : Key → ℕ) where
  pub after :
      {k : Key} {o : Option V} {d d' d'' : Dict V}
      → IsSame hf d d'
      → IsUpdate hf k o d' d''
      → IsUpdate hf k o d d''
  after {k} {o} p u = record {
    good = u.good;
    values = λ j. u.values j ∙ ap (λ x. if same_key j k then o else x) (p.same j);
  }

  updated :
      (k : Key) (o : Option V) (d : Dict V) (ok : IsDict hf d) (i : Bool)
      (f : HashTable V → HashTable V)
      → Changes hf d ok k o f i
      → IsUpdate hf k o d (change_table i f d)
  updated k o d ok i f c = record {
    good = change_table-IsDict hf d ok k o f i c;
    values = change_table-value hf d ok k o f i c;
  }

  table_of-IsTable : (d : Dict V) → IsDict hf d → (i : Bool) → IsTable hf (table_of i d)
  table_of-IsTable d ok false = ok.first
  table_of-IsTable d ok true = ok.second

  set_found-length :
      (k : Key) (h : ℕ) (v : V) (t : HashTable V)
      → length (set_found k h v t).buckets ≡ length t.buckets
  unfolding set_found write_chain
  set_found-length k h v t =
      length-set t.buckets (hash_index h t) (set_val_chain k h v (chain_at h t))

  unlink_entry-length :
      (k : Key) (h : ℕ) (t : HashTable V) → length (unlink_entry k h t).buckets ≡ length t.buckets
  unfolding unlink_entry write_chain
  unlink_entry-length k h t =
      length-set t.buckets (hash_index h t) (unlink_chain k h (chain_at h t))

  insert_entry-length :
      (e : DictEntry V) (t : HashTable V) → length (insert_entry e t).buckets ≡ length t.buckets
  unfolding insert_entry
  insert_entry-length e t =
      length-set t.buckets (hash_index e.hash t) (e ∷ get_or t.buckets (hash_index e.hash t) [])

  set_found-IsUpdate :
      (k : Key) (v : V) (d : Dict V)
      → IsDict hf d
      → (i : Bool) (e : DictEntry V) → Found hf k d (some (i, e))
      → IsUpdate hf k (some v) d (change_table i (set_found k (hf k) v) d)
  set_found-IsUpdate k v d ok i e h =
      let t = table_of-IsTable d ok i in
      updated k (some v) d ok i (set_found k (hf k) v) (
        set_found-IsTable hf (table_of i d) t h.3 k e.val h.0 v,
        set_found-length k (hf k) v (table_of i d),
        set_found-value hf (table_of i d) t h.3 k e.val h.0 v,
        h.1,
      )

  pub unlink_entry-IsUpdate :
      (k : Key) (d : Dict V)
      → IsDict hf d
      → (i : Bool) (e : DictEntry V) → Found hf k d (some (i, e))
      → IsUpdate hf k none d (change_table i (unlink_entry k (hf k)) d)
  unlink_entry-IsUpdate k d ok i e h =
      let t = table_of-IsTable d ok i in
      updated k none d ok i (unlink_entry k (hf k)) (
        unlink_entry-IsTable hf (table_of i d) t h.3 k e.val h.0,
        unlink_entry-length k (hf k) (table_of i d),
        unlink_entry-value hf (table_of i d) t h.3 k e.val h.0,
        h.1,
      )

  pub insert_entry-IsUpdate :
      (k : Key) (v : V) (d : Dict V)
      → IsDict hf d
      → 0 < length d.table0.buckets
      → value hf k d ≡ none
      → IsUpdate hf k (some v) d (
          change_table (is_rehashing d) (insert_entry (record { key = k; val = v; hash = hf k })) d)
  insert_entry-IsUpdate k v d ok n0 absent = cases d.rehash_idx ok.phase
    where
      entry : DictEntry V
      entry = record { key = k; val = v; hash = hf k }

      both : (x y : Option V) → or_else x y ≡ none → (x ≡ none) × (y ≡ none)
      both none y h = (refl, h)
      both (some x) y h = absurd (ground arith)

      absent_in : (i : Bool) → table_value hf k (table_of i d) ≡ none
      absent_in false = (both (table_value hf k d.table0) (table_value hf k d.table1) absent).0
      absent_in true = (both (table_value hf k d.table0) (table_value hf k d.table1) absent).1

      inserted :
          (i : Bool)
          → 0 < length (table_of i d).buckets
          → IsUpdate hf k (some v) d (change_table i (insert_entry entry) d)
      inserted i n =
          let t = table_of-IsTable d ok i in
          updated k (some v) d ok i (insert_entry entry) (
            insert_entry-IsTable hf (table_of i d) t n entry refl (absent_in i),
            insert_entry-length entry (table_of i d),
            insert_entry-value hf (table_of i d) t n entry refl,
            absent_in (not i),
          )

      cases :
          (r : Option ℕ)
          → InPhase r (length d.table0.buckets) (length d.table1.buckets)
          → IsUpdate hf k (some v) d (
              change_table
                (elim r as (λ r. Bool) [ none ↦ false | some r ↦ true ])
                (insert_entry entry)
                d)
      cases none phase = inserted false n0
      cases (some r) phase = inserted true phase.1

  -- The dictionary that an insertion looks at.
  abbrev pub prepared : Dict V → Dict V
  prepared d = rehash_step_if_needed (expand_if_needed d)

  pub prepared-IsSame : (d : Dict V) → IsDict hf d → IsSame hf d (prepared d)
  prepared-IsSame d ok =
      let p = expand_if_needed-IsSame hf d ok in
      IsSame-trans p (rehash_step-IsSame hf (expand_if_needed d) p.good)

  pub prepared-length : (d : Dict V) → IsDict hf d → 0 < length (prepared d).table0.buckets
  prepared-length d ok =
      (rehash_step-IsSame hf (expand_if_needed d) (expand_if_needed-IsSame hf d ok).good).opened
        (expand_if_needed-length hf d ok)

  -- `FindValue` on a well-formed dictionary returns the value of the key, and the step of
  -- rehashing that it takes keeps the dictionary well formed and changes no value.
  pub find_value-value :
      (k : Key) (d : Dict V)
      → IsDict hf d
      → ((find_value hf k d).1 ≡ value hf k d)
        × IsDict hf (find_value hf k d).0
        × ((j : Key) → value hf j (find_value hf k d).0 ≡ value hf j d)
  unfolding find_value
  find_value-value k d ok =
      let p = rehash_step-IsSame hf d ok in
      let d' = rehash_step_if_needed d in
      (
        cases d' (search_tables k (hf k) d') (search_tables-Found hf k d' p.good) ∙ p.same k,
        p.good,
        p.same,
      )
    where
      cases :
          (d' : Dict V) (o : Option (Bool × DictEntry V))
          → Found hf k d' o
          → (elim o as (λ o. Option V) [ none ↦ none | some (i, e) ↦ some e.val ]) ≡ value hf k d'
      cases d' none h = sym h
      cases d' (some (i, e)) h = sym (h.2)

  -- After `Set` on a well-formed dictionary, its key has the value, every other key has the value
  -- it had, and the dictionary is well formed, rehashing or not.
  pub set_value-value :
      (k : Key) (v : V) (d : Dict V)
      → IsDict hf d
      → IsDict hf (set_value hf k v d)
        × ((j : Key)
            → value hf j (set_value hf k v d) ≡ (if same_key j k then some v else value hf j d))
  unfolding set_value insert_raw
  set_value-value k v d ok =
      let p = prepared-IsSame d ok in
      let u =
        cases (prepared d) p.good (prepared-length d ok) (search_tables k (hf k) (prepared d))
          (search_tables-Found hf k (prepared d) p.good) in
      let w = after p u in (w.good, w.values)
    where
      entry : DictEntry V
      entry = record { key = k; val = v; hash = hf k }

      cases :
          (d' : Dict V)
          → IsDict hf d'
          → 0 < length d'.table0.buckets
          → (o : Option (Bool × DictEntry V)) → Found hf k d' o
          → let r : Dict V × Option Bool = elim o as (λ o. Dict V × Option Bool) [
            | some (i, e) ↦ (d', some i)
            | none ↦ (change_table (is_rehashing d') (insert_entry entry) d', none)
          ] in
            IsUpdate hf k (some v) d' (elim r.1 as (λ o. Dict V) [
              | none ↦ r.0
              | some i ↦ change_table i (set_found k (hf k) v) r.0
            ])
      cases d' good n0 none h = insert_entry-IsUpdate k v d' good n0 h
      cases d' good n0 (some (i, e)) h = set_found-IsUpdate k v d' good i e h

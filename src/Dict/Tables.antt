-- ===== src/Dict/Tables.antt =====
-- memory/dict.h: the entries, the chains and the two tables, and the changes of one table.
use redis_simple.Common.{
  ℕ, zero, suc, ◌+◌, ◌-◌, ◌*◌, ◌/◌, ◌%◌, ◌^◌, Bool, true, false, ◌&&◌, Option, none, some, List, [],
  ◌∷◌, ltb, leb, ◌==◌, if◌then◌else◌, length, get_or, set,
}
use redis_simple.Common.Keys.{Key, same_key}

pub record DictEntry (V : Type 0) : Type 0 where
  pub key : Key
  pub val : V
  pub hash : ℕ

-- One of the two tables: the heads of the chains, the number of entries and the exponent.
pub record HashTable (V : Type 0) : Type 0 where
  pub buckets : List (List (DictEntry V))
  pub used : ℕ
  pub size_exp : Option ℕ

pub record Dict (V : Type 0) : Type 0 where
  pub table0 : HashTable V
  pub table1 : HashTable V
  pub rehash_idx : Option ℕ
  pub pause_rehash : ℕ

abbrev pub is_rehashing : {V : Type 0} → Dict V → Bool
is_rehashing d = elim d.rehash_idx [ none ↦ false | some r ↦ true ]

-- `Reset`
abbrev pub reset : {V : Type 0} → HashTable V
reset = record { buckets = []; used = 0; size_exp = none }

unfoldable pub table_size : Option ℕ → ℕ
table_size none = 0
table_size (some e) = if leb 64 e then 0 else 2 ^ e

-- `hash & TableMask(i)`
unfoldable pub masked : ℕ → Option ℕ → ℕ
masked h none = 0
masked h (some e) = h % 2 ^ e

abbrev pub hash_index : {V : Type 0} → ℕ → HashTable V → ℕ
hash_index h t = masked h t.size_exp

-- `NextExp`, with the rounds left as fuel; `none` is -1
unfoldable pub next_exp_loop : ℕ → ℕ → ℕ → ℕ → Option ℕ
next_exp_loop zero exponent table_size size = none
next_exp_loop (suc fuel) exponent table_size size =
    let rest = next_exp_loop fuel (exponent + 1) (table_size * 2) size in
    if leb size table_size
    then some exponent
    else if ltb ((2 ^ 64 - 1) / 2) table_size
    then none
    else rest

unfoldable pub next_exp : ℕ → Option ℕ
unfolding next_exp_loop
next_exp size = next_exp_loop 64 1 2 size

module _ {V : Type 0} where
  unfoldable pub size : Dict V → ℕ
  size d = d.table0.used + d.table1.used

  -- the chain at a hash
  unfoldable pub chain_at : ℕ → HashTable V → List (DictEntry V)
  chain_at h t = get_or t.buckets (hash_index h t) []

  unfoldable pub insert_entry : DictEntry V → HashTable V → HashTable V
  insert_entry e t = record t {
    buckets = set t.buckets (hash_index e.hash t) (e ∷ get_or t.buckets (hash_index e.hash t) []);
    used = t.used + 1;
  }

  -- `UnlinkEntry` of the head of a chain, which `rest` follows
  unfoldable pub unlink_head : DictEntry V → List (DictEntry V) → HashTable V → HashTable V
  unlink_head e rest t = record t {
    buckets = set t.buckets (hash_index e.hash t) rest;
    used = t.used - 1;
  }

  -- `entry->hash == hash && IsEqual(key, entry->key)`
  abbrev pub is_entry_of : Key → ℕ → DictEntry V → Bool
  is_entry_of key hash e = e.hash == hash && same_key key e.key

  -- the walk along a chain
  unfoldable pub search_chain : Key → ℕ → List (DictEntry V) → Option (DictEntry V)
  search_chain key hash [] = none
  search_chain key hash (e ∷ es) =
      let rest = search_chain key hash es in if is_entry_of key hash e then some e else rest

  -- `UnlinkEntry` of the first entry of the key in a chain: `prev->next`, or the head, skips it
  unfoldable pub unlink_chain : Key → ℕ → List (DictEntry V) → List (DictEntry V)
  unlink_chain key hash [] = []
  unlink_chain key hash (e ∷ es) =
      let rest = unlink_chain key hash es in if is_entry_of key hash e then es else e ∷ rest

  -- `SetVal` of the first entry of the key in a chain
  unfoldable pub set_val_chain : Key → ℕ → V → List (DictEntry V) → List (DictEntry V)
  set_val_chain key hash v [] = []
  set_val_chain key hash v (e ∷ es) =
      let rest = set_val_chain key hash v es in
      if is_entry_of key hash e then record e { val = v } ∷ es else e ∷ rest

  unfoldable pub search_table : Key → ℕ → HashTable V → Option (DictEntry V)
  search_table key hash t =
      if length t.buckets == 0 then none else search_chain key hash (chain_at hash t)

  -- the loop over the tables in `FindEntry`, `Unlink` and `KeyIndex`: the table and the entry
  unfoldable pub search_tables : Key → ℕ → Dict V → Option (Bool × DictEntry V)
  search_tables key hash d = elim (search_table key hash d.table0) [
    | some e ↦ some (false, e)
    | none ↦
        if is_rehashing d
        then elim (search_table key hash d.table1) [ none ↦ none | some e ↦ some (true, e) ]
        else none
  ]

-- `get()` of an entry that was found
abbrev pub value_of : {V : Type 0} → Option (DictEntry V) → Option V
value_of none = none
value_of (some e) = some e.val

module _ {V : Type 0} where
  abbrev pub change_table : Bool → (HashTable V → HashTable V) → Dict V → Dict V
  change_table false f d = record d { table0 = f d.table0 }
  change_table true f d = record d { table1 = f d.table1 }

  -- the chain at a hash, written again
  unfoldable pub write_chain : ℕ → List (DictEntry V) → HashTable V → HashTable V
  write_chain h c t = record t { buckets = set t.buckets (hash_index h t) c }

  -- `SetVal` of the entry that was found, in its table
  unfoldable pub set_found : Key → ℕ → V → HashTable V → HashTable V
  set_found key hash v t = write_chain hash (set_val_chain key hash v (chain_at hash t)) t

  -- `UnlinkEntry` of the entry that was found, in its table
  unfoldable pub unlink_entry : Key → ℕ → HashTable V → HashTable V
  unlink_entry key hash t =
      let t' = write_chain hash (unlink_chain key hash (chain_at hash t)) t in
      record t' { used = t'.used - 1 }

-- ===== src/Tests/Dict.antt =====
-- Runs of the dictionary, with the length of a key as its hash, so that many keys share a bucket.
use redis_simple.Common.{ℕ, ◌≡◌, refl, none, some, [], true, not, if◌then◌else◌, length, arith}
use redis_simple.Common.Keys.{Key, same_key}
use redis_simple.Decimal.{codes}
use redis_simple.Database.Dictionary
use redis_simple.Database.Represents.{Represents, find_value-Represents}
use redis_simple.Dict.{
  Dict, table_size, next_exp_loop, next_exp, initialize_table_with_size, expand_to, expand,
  expand_if_needed, chain_at, insert_entry, unlink_head, move_chain, move_bucket, rehash_loop,
  migrate_rehashed_table, rehash, rehash_step_if_needed, search_chain, search_table, search_tables,
  insert_raw, set_value, masked, find_value, insert_value, extract, create, is_rehashing, set_found,
  set_val_chain, write_chain,
}
use redis_simple.Dict.Invariant.{IsDict, value}
use redis_simple.Dict.Methods.{find_value-value, set_value-value}
use redis_simple.Dict.Results.{insert_value-value, extract-value, create-value, is_some, first_of}

abbrev hash : Key → ℕ
hash k = length k

abbrev two_buckets : Dict ℕ
two_buckets = record {
  table0 = initialize_table_with_size 1 2;
  table1 = record { buckets = []; used = 0; size_exp = none };
  rehash_idx = none;
  pause_rehash = 0;
}

created : create 2 ≡ some two_buckets
unfolding create expand expand_to next_exp next_exp_loop table_size
created = refl

-- The fifth key starts a rehashing, and one of the two buckets is moved at once.
abbrev five_keys : Dict ℕ
five_keys = set_value hash (codes "ee") 5 (
    set_value hash (codes "d") 4 (
      set_value hash (codes "cc") 3
        (set_value hash (codes "b") 2 (set_value hash (codes "aa") 1 two_buckets))))

two_buckets-IsDict : IsDict hash two_buckets
two_buckets-IsDict = (create-value hash 2 two_buckets (omega arith) created).0

five_keys-IsDict : IsDict hash five_keys
five_keys-IsDict =
    let d0 = two_buckets in
    let d1 = set_value hash (codes "aa") 1 d0 in
    let d2 = set_value hash (codes "b") 2 d1 in
    let d3 = set_value hash (codes "cc") 3 d2 in
    let d4 = set_value hash (codes "d") 4 d3 in
    (set_value-value hash (codes "ee") 5 d4
      (set_value-value hash (codes "d") 4 d3
        (set_value-value hash (codes "cc") 3 d2
          (set_value-value hash (codes "b") 2 d1
            (set_value-value hash (codes "aa") 1 d0 two_buckets-IsDict).0).0).0).0).0

five_keys_rehashing : is_rehashing five_keys ≡ true
unfolding expand expand_to next_exp next_exp_loop table_size initialize_table_with_size
    expand_if_needed insert_entry chain_at unlink_head move_chain move_bucket rehash_loop
    migrate_rehashed_table rehash rehash_step_if_needed search_chain search_table search_tables
    insert_raw set_value masked same_key set_found set_val_chain write_chain
five_keys_rehashing = refl

find_value-value_example :
    ((find_value hash (codes "cc") five_keys).1 ≡ value hash (codes "cc") five_keys)
    × IsDict hash (find_value hash (codes "cc") five_keys).0
    × ((j : Key) → value hash j (find_value hash (codes "cc") five_keys).0 ≡ value hash j five_keys)
find_value-value_example = find_value-value hash (codes "cc") five_keys five_keys-IsDict

set_value-value_example :
    IsDict hash (set_value hash (codes "b") 9 five_keys)
    × ((j : Key)
        → value hash j (set_value hash (codes "b") 9 five_keys)
          ≡ (if same_key j (codes "b") then some 9 else value hash j five_keys))
set_value-value_example = set_value-value hash (codes "b") 9 five_keys five_keys-IsDict

insert_value-value_example :
    ((insert_value hash (codes "d") 9 five_keys).1
      ≡ not (is_some (value hash (codes "d") five_keys)))
    × IsDict hash (insert_value hash (codes "d") 9 five_keys).0
    × ((j : Key)
        → value hash j (insert_value hash (codes "d") 9 five_keys).0 ≡ (
            if same_key j (codes "d")
            then first_of (value hash (codes "d") five_keys) 9
            else value hash j five_keys))
insert_value-value_example = insert_value-value hash (codes "d") 9 five_keys five_keys-IsDict

extract-value_example :
    ((extract hash (codes "aa") five_keys).1 ≡ value hash (codes "aa") five_keys)
    × IsDict hash (extract hash (codes "aa") five_keys).0
    × ((j : Key)
        → value hash j (extract hash (codes "aa") five_keys).0
          ≡ (if same_key j (codes "aa") then none else value hash j five_keys))
extract-value_example = extract-value hash (codes "aa") five_keys five_keys-IsDict

one_key-Represents :
    Represents hash
      (set_value hash (codes "aa") 1 two_buckets)
      (Dictionary.set_value (codes "aa") 1 [])
one_key-Represents =
    Represents.stored (codes "aa") 1 two_buckets []
      (Represents.created 2 two_buckets (omega arith) created)

find_value-Represents_example :
    (find_value hash (codes "aa") (set_value hash (codes "aa") 1 two_buckets)).1
    ≡ Dictionary.find_value (codes "aa") (Dictionary.set_value (codes "aa") 1 [])
find_value-Represents_example =
    find_value-Represents hash (codes "aa") (set_value hash (codes "aa") 1 two_buckets)
      (Dictionary.set_value (codes "aa") 1 []) one_key-Represents

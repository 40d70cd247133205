-- ===== src/Dict.antt =====
-- memory/dict.h: the hash table with incremental rehashing, for byte strings as keys and with the
-- default functions of `Create`. `std::hash` is the parameter `hash_function`. A chain of entries is
-- a list, an exponent of -1 is `none`, and the counters are plain numbers.
pub mod Tables
pub mod Chain
pub mod Table
pub mod Changes
pub mod Invariant
pub mod Rehashing
pub mod Rounds
pub mod Growth
pub mod Methods
pub mod Results
pub mod Fuel
unfoldable pub use Tables.*
use redis_simple.Common.{
  ℕ, zero, suc, ◌+◌, ◌-◌, ◌*◌, ◌/◌, ◌%◌, ◌^◌, max, Bool, true, false, not, ◌&&◌, ◌||◌, Option, none,
  some, List, [], ◌∷◌, ◌++◌, ltb, leb, ◌==◌, if◌then◌else◌, length, get_or, set, replicate,
}
use redis_simple.Common.Keys.{Key, same_key}

module _ {V : Type 0} where
  unfoldable pub initialize_table_with_size : ℕ → ℕ → HashTable V
  initialize_table_with_size exp size = record {
    buckets = replicate size [];
    used = 0;
    size_exp = some exp;
  }

  -- `Expand` from the check of the exponent on
  unfoldable pub expand_to : ℕ → ℕ → Dict V → Dict V × Bool
  expand_to size new_exp d =
      let new_size = table_size (some new_exp) in
      if ltb new_size size || ltb ((2 ^ 64 - 1) / 8) new_size
      then (d, false)
      else elim d.table0.size_exp [
        | none ↦ (
          record d { table0 = initialize_table_with_size new_exp new_size; rehash_idx = none },
          true,
        )
        | some e ↦ if leb new_exp e then (d, false) else (
          record d { table1 = initialize_table_with_size new_exp new_size; rehash_idx = some 0 },
          true,
        )
      ]

  unfoldable pub expand : ℕ → Dict V → Dict V × Bool
  expand size d =
      if is_rehashing d || ltb size d.table0.used
      then (d, false)
      else elim (next_exp size) [ none ↦ (d, false) | some new_exp ↦ expand_to size new_exp d ]

  -- the ratio of the entries to the size, at least 2
  unfoldable pub expand_if_needed : Dict V → Dict V
  expand_if_needed d =
      let n = table_size d.table0.size_exp in
      if n == 0 || leb (2 * n) d.table0.used then (expand (d.table0.used + 1) d).0 else d

  -- the loop that moves a chain of `Rehash`
  unfoldable pub move_chain : List (DictEntry V) → Dict V → Dict V
  move_chain [] d = d
  move_chain (e ∷ rest) d =
      move_chain rest
        (record d { table0 = unlink_head e rest d.table0; table1 = insert_entry e d.table1 })

  -- a bucket of `Rehash` that has a chain
  unfoldable pub move_bucket : ℕ → List (DictEntry V) → Dict V → Dict V
  move_bucket r chain d =
      let d' = move_chain chain d in
      record d' {
        table0 = record d'.table0 { buckets = set d'.table0.buckets r [] };
        rehash_idx = some (r + 1);
      }

  -- the loop of `Rehash`; a round counts `n` or `empty_visit` down, so their sum is enough fuel
  unfoldable pub rehash_loop : ℕ → ℕ → ℕ → Dict V → Dict V
  rehash_loop zero n empty_visit d = d
  rehash_loop (suc fuel) n empty_visit d = elim d.rehash_idx [
    | none ↦ d
    | some r ↦
        elim (ltb 0 n
          && (ltb r (table_size d.table0.size_exp) && (ltb 0 d.table0.used && ltb 0 empty_visit))) [
            | false ↦ d
            | true ↦ elim (get_or d.table0.buckets r []) [
              | [] ↦ rehash_loop fuel n (empty_visit - 1) (record d { rehash_idx = some (r + 1) })
              | e ∷ rest ↦ rehash_loop fuel (n - 1) empty_visit (move_bucket r (e ∷ rest) d)
            ]
          ]
  ]

  unfoldable pub migrate_rehashed_table : Dict V → Dict V
  migrate_rehashed_table d = record d { table0 = d.table1; table1 = reset; rehash_idx = none }

  -- `Rehash`: the result false says that no rehashing is under way any more
  unfoldable pub rehash : ℕ → Dict V → Dict V × Bool
  rehash n d =
      if is_rehashing d
      then (let d' = rehash_loop (n + n * 10) n (n * 10) d in
          if d'.table0.used == 0 then (migrate_rehashed_table d', false) else (d', true))
      else (d, false)

  unfoldable pub rehash_step_if_needed : Dict V → Dict V
  rehash_step_if_needed d = if d.pause_rehash == 0 then (rehash 1 d).0 else d

  -- `Clear`: both tables are emptied and reset
  unfoldable pub clear : Dict V → Dict V
  clear d = record { table0 = reset; table1 = reset; rehash_idx = none; pause_rehash = 0 }

  -- `Scan`: the entries that are visited, and the next cursor
  unfoldable pub scan : ℕ → Dict V → List (DictEntry V) × Option ℕ
  scan cursor d = (
    get_or d.table0.buckets cursor []
        ++ (if is_rehashing d then get_or d.table1.buckets cursor [] else []),
    if leb (max (length d.table0.buckets) (length d.table1.buckets)) (cursor + 1)
        then none
        else some (cursor + 1),
  )

module _ {V : Type 0} (hash_function : Key → ℕ) where
  -- `FindEntry` and `FindValue`
  unfoldable pub find_value : Key → Dict V → Dict V × Option V
  find_value key d =
      let d' = rehash_step_if_needed d in
      (
        d',
        elim (search_tables key (hash_function key) d') [ none ↦ none | some (i, e) ↦ some e.val ],
      )

  -- `InsertRaw` and the value of the new entry; the table of an existing entry is returned
  unfoldable pub insert_raw : Key → V → Dict V → Dict V × Option Bool
  insert_raw key v d =
      let d' = rehash_step_if_needed (expand_if_needed d) in
      let hash = hash_function key in
      elim (search_tables key hash d') [
        | some (i, e) ↦ (d', some i)
        | none ↦ (
          change_table (is_rehashing d') (insert_entry (record { key = key; val = v; hash = hash }))
              d',
          none,
        )
      ]

  -- `Set`
  unfoldable pub set_value : Key → V → Dict V → Dict V
  set_value key v d =
      let r = insert_raw key v d in
      elim r.1 [ none ↦ r.0 | some i ↦ change_table i (set_found key (hash_function key) v) r.0 ]

  -- `Insert`
  unfoldable pub insert_value : Key → V → Dict V → Dict V × Bool
  insert_value key v d =
      let r = insert_raw key v d in (r.0, elim r.1 [ none ↦ true | some i ↦ false ])

  -- `Unlink`, and `Extract`, which returns the value
  unfoldable pub extract : Key → Dict V → Dict V × Option V
  extract key d =
      let d' = rehash_step_if_needed d in
      let hash = hash_function key in
      elim (search_tables key hash d') [
        | none ↦ (d', none)
        | some (i, e) ↦ (change_table i (unlink_entry key hash) d', some e.val)
      ]

  -- `Delete`
  unfoldable pub delete : Key → Dict V → Dict V × Bool
  delete key d = let r = extract key d in (r.0, elim r.1 [ none ↦ false | some v ↦ true ])

-- `Create`; `none` is a null pointer
unfoldable pub create : {V : Type 0} → ℕ → Option (Dict V)
create capacity =
    let (d, done) =
      expand capacity
        (record { table0 = reset; table1 = reset; rehash_idx = none; pause_rehash = 0 }) in
    if done then some d else none

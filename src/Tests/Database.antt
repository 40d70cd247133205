-- ===== src/Tests/Database.antt =====
-- Runs of the database, on numbers as objects.
use redis_simple.Common.{
  ℕ, zero, suc, ◌≡◌, ◌≤◌, refl, arith, List, [], ◌∷◌, false, Option, none, some, length,
}
use redis_simple.Common.Int.{ℤ, pos}
use redis_simple.Decimal.{codes}
use redis_simple.Database.Expiry.{time_to_live-expire_key_at}
use redis_simple.Database.{
  expire_key_at, time_to_live, milliseconds, RedisDb, ok, is_key_expired, lookup_key, set_key,
  rename_key, delete_key, has_value,
}
use redis_simple.Common.Keys.{Key, same_key}
use redis_simple.Database.Dictionary.{find_value, delete_value, set_value}
use redis_simple.Database.Keys.{visible}
use redis_simple.Database.Sampling.{
  ExpireSampleResult, sample_loop, visit, delete_keys, expire_some,
}
use redis_simple.Database.Represents.{Represents}
use redis_simple.Database.ActiveScan.{scanned, buckets_of, expire_some-Represents}
use redis_simple.Dict.{
  Dict, create, expand, expand_to, next_exp, next_exp_loop, table_size, initialize_table_with_size,
  delete,
}
use redis_simple.Dict
use redis_simple.Database.Steps.{Reached, Reached-owned}
use redis_simple.Database.Clients.{lookup_key-visible, rename_key-moved, rename_key-others}

abbrev a : Key
a = codes "a"

abbrev b : Key
b = codes "b"

abbrev blank : RedisDb ℕ
blank = record { dict = []; expires = []; expire_cursor = 0; loading = false }

-- "a" expires at 100, and "b" does not expire.
abbrev two_keys : RedisDb ℕ
two_keys = (set_key b (some 8) (pos 0) false (set_key a (some 7) (pos 100) false blank).0).0

two_keys-Reached : Reached ℕ two_keys
two_keys-Reached =
    Reached.set_to b (some 8) (pos 0) false (set_key a (some 7) (pos 100) false blank).0
      (Reached.set_to a (some 7) (pos 100) false blank (Reached.created false))

missing_key : find_value (codes "c") two_keys.dict ≡ none
unfolding set_key set_value delete_value same_key find_value
missing_key = refl

Reached-owned_example : find_value (codes "c") two_keys.expires ≡ none
Reached-owned_example = Reached-owned two_keys (codes "c") two_keys-Reached missing_key

lookup_key-visible_example :
    ((lookup_key (pos 100) a two_keys).1 ≡ visible (pos 100) a two_keys)
    × (find_value a (lookup_key (pos 100) a two_keys).0.dict ≡ visible (pos 100) a two_keys)
    × (visible (pos 100) b (lookup_key (pos 100) a two_keys).0 ≡ visible (pos 100) b two_keys)
lookup_key-visible_example = lookup_key-visible (pos 100) a b two_keys two_keys-Reached

seen_before : visible (pos 99) a two_keys ≡ some 7
unfolding set_key set_value delete_value same_key find_value is_key_expired
seen_before = refl

a_is_not_b : same_key a b ≡ false
unfolding same_key
a_is_not_b = refl

rename_key-moved_example :
    ((rename_key (pos 99) a b two_keys).1 ≡ ok)
    × (find_value b (rename_key (pos 99) a b two_keys).0.dict ≡ some 7)
    × (find_value a (rename_key (pos 99) a b two_keys).0.dict ≡ none)
    × (find_value b (rename_key (pos 99) a b two_keys).0.expires ≡ find_value a two_keys.expires)
    × (find_value a (rename_key (pos 99) a b two_keys).0.expires ≡ none)
rename_key-moved_example = rename_key-moved (pos 99) a b two_keys 7 seen_before a_is_not_b

c_is_not_a : same_key (codes "c") a ≡ false
unfolding same_key
c_is_not_a = refl

b_is_not_c : same_key b (codes "c") ≡ false
unfolding same_key
b_is_not_c = refl

b_is_not_a : same_key b a ≡ false
unfolding same_key
b_is_not_a = refl

a_is_not_c : same_key a (codes "c") ≡ false
unfolding same_key
a_is_not_c = refl

rename_key-others_example :
    (find_value b (rename_key (pos 99) a (codes "c") two_keys).0.dict ≡ find_value b two_keys.dict)
    × (find_value b (rename_key (pos 99) a (codes "c") two_keys).0.expires
        ≡ find_value b two_keys.expires)
rename_key-others_example =
    rename_key-others (pos 99) a (codes "c") b two_keys 7 seen_before a_is_not_c b_is_not_a
      b_is_not_c

expired_lookup : (lookup_key (pos 100) a two_keys).1 ≡ none
unfolding lookup_key set_key set_value delete_value same_key find_value is_key_expired
expired_lookup = refl

seen_early : visible (pos 50) a two_keys ≡ some 7
unfolding set_key set_value delete_value same_key find_value is_key_expired
seen_early = refl

time_to_live-expire_key_at_example :
    ((expire_key_at (pos 50) (pos 51) a (pos 90) two_keys).1 ≡ ok)
    × (time_to_live
          (pos 60)
          (pos 61)
          a
          milliseconds
          (expire_key_at (pos 50) (pos 51) a (pos 90) two_keys).0
        ≡ ((expire_key_at (pos 50) (pos 51) a (pos 90) two_keys).0, pos 29))
time_to_live-expire_key_at_example =
    time_to_live-expire_key_at (pos 50) (pos 51) a (pos 90) (pos 60) (pos 61) two_keys 7 seen_early
      refl refl

-- A scan of the expirations of the two keys, in two buckets.
abbrev two_buckets : ℕ → List (Key × ℤ) × Option ℕ
two_buckets zero = ((a, pos 100) ∷ [], some 1)
two_buckets (suc c) = ([], none)

two_keys_live : two_keys.loading ≡ false
unfolding set_key
two_keys_live = refl

abbrev hash : Key → ℕ
hash k = length k

abbrev no_expirations : Dict ℤ
no_expirations = record {
  table0 = initialize_table_with_size 1 2;
  table1 = record { buckets = []; used = 0; size_exp = none };
  rehash_idx = none;
  pause_rehash = 0;
}

expirations_created : create 2 ≡ some no_expirations
unfolding create expand expand_to next_exp next_exp_loop table_size
expirations_created = refl

-- The dictionary of the expirations of the two keys.
abbrev expirations : Dict ℤ
expirations = (delete hash b (Dict.set_value hash a (pos 100) no_expirations)).0

expirations-Represents : Represents hash expirations two_keys.expires
unfolding set_key
expirations-Represents =
    Represents.deleted b (Dict.set_value hash a (pos 100) no_expirations) (set_value a (pos 100) [])
      (Represents.stored a (pos 100) no_expirations []
        (Represents.created 2 no_expirations (omega arith) expirations_created))

expire_some-Represents_example :
    (o : RedisDb ℕ × ExpireSampleResult) × (expire_some
        (scanned expirations)
        (buckets_of expirations)
        10
        (pos 100)
        two_keys
      ≡ some o)
    × (o.1.sampled ≤ 10)
    × (o.1.expired ≤ o.1.sampled)
    × ((j : Key) → visible (pos 100) j o.0 ≡ visible (pos 100) j two_keys)
expire_some-Represents_example =
    expire_some-Represents hash expirations 10 (pos 100) two_keys two_keys-Reached two_keys_live
      expirations-Represents

-- The object whose expiration has come is deleted.
sampled_out :
    expire_some two_buckets 2 10 (pos 100) two_keys
    ≡ some (
      record { dict = (b, 8) ∷ []; expires = []; expire_cursor = 0; loading = false },
      record { sampled = 1; expired = 1 },
    )
unfolding expire_some sample_loop visit delete_keys delete_key has_value set_key set_value
    delete_value same_key find_value
sampled_out = refl

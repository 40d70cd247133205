-- ===== src/Database/Steps.antt =====
-- server/db/db.cpp: the steps of a database, and what holds of every database that is reached.
use redis_simple.Common.{ℕ, List, ◌≡◌, refl, Bool, Option, none, some, []}
use redis_simple.Common.Int.{ℤ}
use redis_simple.Database.{
  RedisDb, delete_key, lookup_key, set_key, unlink_key, expire_key_at, persist_key, rename_key,
  set_loading, flush,
}
use redis_simple.Common.Keys.{Key}
use redis_simple.Database.Sampling.{ExpireSampleResult, expire_some}
use redis_simple.Database.Dictionary.{find_value}
use redis_simple.Database.Keys.{IsOwned}
use redis_simple.Database.Invariant.{
  delete_key-IsOwned, lookup_key-IsOwned, set_key-IsOwned, unlink_key-IsOwned, expire_some-IsOwned,
}
use redis_simple.Database.Owned.{expire_key_at-IsOwned, persist_key-IsOwned, rename_key-IsOwned}

-- The databases that the operations make of an empty one.
pub data Reached (V : Type 0) : RedisDb V → Type 0 where
  created :
      (loading : Bool)
      → Reached V record { dict = []; expires = []; expire_cursor = 0; loading = loading }
  looked_up :
      (now : ℤ) (k : Key) (db : RedisDb V) → Reached V db → Reached V (lookup_key now k db).0
  set_to :
      (k : Key) (object : Option V) (expire : ℤ) (keep_ttl : Bool) (db : RedisDb V)
      → Reached V db
      → Reached V (set_key k object expire keep_ttl db).0
  deleted : (k : Key) (db : RedisDb V) → Reached V db → Reached V (delete_key k db).0
  unlinked :
      (now : ℤ) (reclaimed : Bool) (k : Key) (db : RedisDb V)
      → Reached V db
      → Reached V (unlink_key now reclaimed k db).0
  expiring :
      (now later : ℤ) (k : Key) (expire : ℤ) (db : RedisDb V)
      → Reached V db
      → Reached V (expire_key_at now later k expire db).0
  persisted :
      (now : ℤ) (k : Key) (db : RedisDb V) → Reached V db → Reached V (persist_key now k db).0
  renamed :
      (now : ℤ) (old new : Key) (db : RedisDb V)
      → Reached V db
      → Reached V (rename_key now old new db).0
  flushed : (db : RedisDb V) → Reached V db → Reached V (flush db)
  sampling :
      (scan : ℕ → List (Key × ℤ) × Option ℕ) (buckets max_samples : ℕ) (now : ℤ) (db : RedisDb V)
      (o : RedisDb V × ExpireSampleResult)
      → expire_some scan buckets max_samples now db ≡ some o
      → Reached V db
      → Reached V o.0
  loaded : (loading : Bool) (db : RedisDb V) → Reached V db → Reached V (set_loading loading db)

pub Reached-IsOwned : {V : Type 0} (db : RedisDb V) → Reached V db → IsOwned db
unfolding find_value flush set_loading
Reached-IsOwned _ (Reached.created loading) = λ k h. refl
Reached-IsOwned _ (Reached.looked_up now k db r) =
    lookup_key-IsOwned now k db (Reached-IsOwned db r)
Reached-IsOwned _ (Reached.set_to k object expire keep_ttl db r) =
    set_key-IsOwned k object expire keep_ttl db (Reached-IsOwned db r)
Reached-IsOwned _ (Reached.deleted k db r) = delete_key-IsOwned k db (Reached-IsOwned db r)
Reached-IsOwned _ (Reached.unlinked now reclaimed k db r) =
    unlink_key-IsOwned now reclaimed k db (Reached-IsOwned db r)
Reached-IsOwned _ (Reached.expiring now later k expire db r) =
    expire_key_at-IsOwned now later k expire db (Reached-IsOwned db r)
Reached-IsOwned _ (Reached.persisted now k db r) =
    persist_key-IsOwned now k db (Reached-IsOwned db r)
Reached-IsOwned _ (Reached.renamed now old new db r) =
    rename_key-IsOwned now old new db (Reached-IsOwned db r)
Reached-IsOwned _ (Reached.flushed db r) = λ k h. refl
Reached-IsOwned _ (Reached.sampling scan buckets max_samples now db o e r) =
    expire_some-IsOwned scan buckets max_samples now db o e (Reached-IsOwned db r)
Reached-IsOwned _ (Reached.loaded loading db r) = λ k h. Reached-IsOwned db r k h

-- In every database that the operations make of an empty one, a key without an object has no
-- expiration.
pub Reached-owned :
    {V : Type 0} (db : RedisDb V) (key : Key)
    → Reached V db
    → find_value key db.dict ≡ none
    → find_value key db.expires ≡ none
Reached-owned db key r missing = Reached-IsOwned db r key missing

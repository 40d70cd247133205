-- ===== src/Database/Owned.antt =====
-- server/db/db.cpp: the operations behind a lookup keep the expirations on the keys with an object.
use redis_simple.Common.{
  ◌≡◌, refl, ap, sym, ◌∙◌, arith, Bool, true, false, not, ◌&&◌, Option, none, some, if◌then◌else◌,
}
use redis_simple.Common.Int.{ℤ, ltb_ℤ}
use redis_simple.Database.{
  RedisDb, DbStatus, ok, error, has_value, is_key_expired, delete_key, lookup_key, expire_key_at,
  persist_key, move_object, rename_key,
}
use redis_simple.Common.Keys.{Key, same_key, same_key-eq}
use redis_simple.Database.Dictionary.{Table, find_value, delete_value, set_value, find-delete}
use redis_simple.Database.Keys.{IsOwned}
use redis_simple.Database.Invariant.{
  owned_part, absent_set, elsewhere_set, absent_delete, delete_key-IsOwned, lookup_key-IsOwned,
}

pub lookup_key-found :
    {V : Type 0} (now : ℤ) (k : Key) (db : RedisDb V) (object : V)
    → (lookup_key now k db).1 ≡ some object
    → find_value k (lookup_key now k db).0.dict ≡ some object
unfolding lookup_key
lookup_key-found {V} now k db object h =
    cases (find_value k db.dict) refl (is_key_expired now k db) h
  where
    cases :
        (o : Option V)
        → find_value k db.dict ≡ o
        → (expired : Bool)
        → (elim o as (λ o. RedisDb V × Option V) [
          | none ↦ (db, none)
          | some object ↦ if expired then ((delete_key k db).0, none) else (db, some object)
        ]).1
          ≡ some object
        → find_value k
            (elim o as (λ o. RedisDb V × Option V) [
              | none ↦ (db, none)
              | some object ↦ if expired then ((delete_key k db).0, none) else (db, some object)
            ]).0.dict
          ≡ some object
    cases none e expired h = absurd (ground arith)
    cases (some v) e true h = absurd (ground arith)
    cases (some v) e false h = e ∙ h

-- `ExpireKeyAt` and `PersistKey` behind their lookup.
given_expiration :
    {V : Type 0} (k : Key) (expire : ℤ) (object : V) (db : RedisDb V)
    → IsOwned db
    → find_value k db.dict ≡ some object
    → IsOwned (record db { expires = set_value k expire db.expires })
given_expiration {V} k expire object db owned found j missing =
    elsewhere_set j k expire db.expires (other (same_key j k) refl) ∙ owned j missing
  where
    other : (b : Bool) → same_key j k ≡ b → same_key j k ≡ false
    other true e = absurd (
        clash (find_value j db.dict) object missing
          (ap (λ k. find_value k db.dict) (same_key-eq j k e) ∙ found))
      where
        clash : (o : Option V) (v : V) → o ≡ none → o ≡ some v → ⊥
        clash o v e h = ground arith
    other false e = e

pub expire_key_at-IsOwned :
    {V : Type 0} (now later : ℤ) (k : Key) (expire : ℤ) (db : RedisDb V)
    → IsOwned db
    → IsOwned (expire_key_at now later k expire db).0
unfolding expire_key_at
expire_key_at-IsOwned {V} now later k expire db owned =
    cases (lookup_key now k db).1 refl (not db'.loading && not (ltb_ℤ later expire))
  where
    db' : RedisDb V
    db' = (lookup_key now k db).0

    cases :
        (o : Option V)
        → (lookup_key now k db).1 ≡ o
        → (b : Bool)
        → IsOwned
            (elim o as (λ o. RedisDb V × DbStatus) [
              | none ↦ ((lookup_key now k db).0, error)
              | some object ↦ if b then delete_key k (lookup_key now k db).0 else (
                record (lookup_key now k db).0 {
                  expires = set_value k expire (lookup_key now k db).0.expires;
                },
                ok,
              )
            ]).0
    cases none e b = lookup_key-IsOwned now k db owned
    cases (some object) e true =
        delete_key-IsOwned k (lookup_key now k db).0 (lookup_key-IsOwned now k db owned)
    cases (some object) e false =
        given_expiration k expire object (lookup_key now k db).0 (lookup_key-IsOwned now k db owned)
          (lookup_key-found now k db object e)

pub persist_key-IsOwned :
    {V : Type 0} (now : ℤ) (k : Key) (db : RedisDb V)
    → IsOwned db
    → IsOwned (persist_key now k db).0
unfolding persist_key
persist_key-IsOwned {V} now k db owned =
    cases (lookup_key now k db).1 (has_value k (lookup_key now k db).0.expires)
  where
    cases :
        (o : Option V) (b : Bool)
        → IsOwned
            (elim o as (λ o. RedisDb V × DbStatus) [
              | none ↦ ((lookup_key now k db).0, error)
              | some object ↦
                  if b
                  then (
                    record (lookup_key now k db).0 {
                      expires = delete_value k (lookup_key now k db).0.expires;
                    },
                    ok,
                  )
                  else ((lookup_key now k db).0, error)
            ]).0
    cases none b j missing = lookup_key-IsOwned now k db owned j missing
    cases (some object) true j missing =
        absent_delete j k (lookup_key now k db).0.expires
          (lookup_key-IsOwned now k db owned j missing)
    cases (some object) false j missing = lookup_key-IsOwned now k db owned j missing

move_object-IsOwned :
    {V : Type 0} (old new : Key) (object : V) (db : RedisDb V)
    → IsOwned db
    → IsOwned (move_object old new object db)
unfolding move_object
move_object-IsOwned {V} old new object db owned j missing =
    let (other, before) = absent_set j new object (delete_value old db.dict) missing in
    let kept =
      find-delete j old db.expires
      ∙ owned_part (same_key j old) (find_value j db.dict) (find_value j db.expires) (owned j)
          (sym (find-delete j old db.dict) ∙ before) in
    cases other kept (find_value old db.expires)
  where
    cases :
        same_key j new ≡ false
        → find_value j (delete_value old db.expires) ≡ none
        → (o : Option ℤ)
        → find_value j (elim o as (λ o. Table ℤ) [
          | none ↦ delete_value new (delete_value old db.expires)
          | some e ↦ set_value new e (delete_value old db.expires)
        ])
          ≡ none
    cases other kept none = absent_delete j new (delete_value old db.expires) kept
    cases other kept (some e) = elsewhere_set j new e (delete_value old db.expires) other ∙ kept

pub rename_key-IsOwned :
    {V : Type 0} (now : ℤ) (old new : Key) (db : RedisDb V)
    → IsOwned db
    → IsOwned (rename_key now old new db).0
unfolding rename_key
rename_key-IsOwned {V} now old new db owned = cases (lookup_key now old db).1 (same_key old new)
  where
    cases :
        (o : Option V) (b : Bool)
        → IsOwned
            (elim o as (λ o. RedisDb V × DbStatus) [
              | none ↦ ((lookup_key now old db).0, error)
              | some object ↦
                  if b
                  then ((lookup_key now old db).0, ok)
                  else (move_object old new object (lookup_key now old db).0, ok)
            ]).0
    cases none b = lookup_key-IsOwned now old db owned
    cases (some object) true = lookup_key-IsOwned now old db owned
    cases (some object) false =
        move_object-IsOwned old new object (lookup_key now old db).0
          (lookup_key-IsOwned now old db owned)

-- ===== src/Database/Invariant.antt =====
-- server/db/db.cpp: every operation keeps the expirations on the keys that have an object.
use redis_simple.Common.{
  ℕ, List, [], ◌∷◌, ◌+◌, ◌||◌, ◌==◌, length, ◌≡◌, refl, ap, sym, ◌∙◌, subst, arith, Bool, true,
  false, not, ◌&&◌, Option, none, some, if◌then◌else◌,
}
use redis_simple.Common.Int.{ℤ, pos, ltb_ℤ, eqb_ℤ}
use redis_simple.Database.{
  RedisDb, DbStatus, ok, error, has_value, is_key_expired, delete_key, lookup_key, set_key,
  unlink_key,
}
use redis_simple.Common.Keys.{Key, same_key}
use redis_simple.Database.Sampling.{
  ExpireSampleResult, Sample, sample_loop, delete_keys, expire_some,
}
use redis_simple.Database.Dictionary.{
  Table, find_value, delete_value, set_value, find-delete, find-set,
}
use redis_simple.Database.Keys.{IsOwned, delete_key-dict, delete_key-expires, lookup_key-view}

pub owned_part :
    {V W : Type 0} (b : Bool) (o : Option V) (e : Option W)
    → (o ≡ none → e ≡ none)
    → (if b then none else o) ≡ none
    → (if b then none else e) ≡ none
owned_part true o e h k = refl
owned_part false o e h k = h k

pub delete_key-IsOwned :
    {V : Type 0} (k : Key) (db : RedisDb V) → IsOwned db → IsOwned (delete_key k db).0
delete_key-IsOwned k db owned j missing =
    delete_key-expires j k db owned
    ∙ owned_part (same_key j k) (find_value j db.dict) (find_value j db.expires) (owned j)
        (sym (delete_key-dict j k db) ∙ missing)

pub lookup_key-IsOwned :
    {V : Type 0} (now : ℤ) (k : Key) (db : RedisDb V) → IsOwned db → IsOwned (lookup_key now k db).0
lookup_key-IsOwned now k db owned =
    subst IsOwned (sym (ap (λ r. r.0) (lookup_key-view now k db)))
      (either (has_value k db.dict && is_key_expired now k db))
  where
    either : (b : Bool) → IsOwned (if b then (delete_key k db).0 else db)
    either true = delete_key-IsOwned k db owned
    either false = owned

-- A key that stays without an object is not the one that gets one.
absent_part :
    {V : Type 0} (b : Bool) (v : V) (o : Option V)
    → (if b then some v else o) ≡ none
    → (b ≡ false) × (o ≡ none)
absent_part true v o h = absurd (ground arith)
absent_part false v o h = (refl, h)

pub absent_set :
    {V : Type 0} (j k : Key) (v : V) (t : Table V)
    → find_value j (set_value k v t) ≡ none
    → (same_key j k ≡ false) × (find_value j t ≡ none)
absent_set j k v t missing =
    absent_part (same_key j k) v (find_value j t) (sym (find-set j k v t) ∙ missing)

pub elsewhere_set :
    {V : Type 0} (j k : Key) (v : V) (t : Table V)
    → same_key j k ≡ false
    → find_value j (set_value k v t) ≡ find_value j t
elsewhere_set j k v t e = find-set j k v t ∙ rw e refl

pub elsewhere_delete :
    {V : Type 0} (j k : Key) (t : Table V)
    → same_key j k ≡ false
    → find_value j (delete_value k t) ≡ find_value j t
elsewhere_delete j k t e = find-delete j k t ∙ rw e refl

pub absent_delete :
    {V : Type 0} (j k : Key) (t : Table V)
    → find_value j t ≡ none
    → find_value j (delete_value k t) ≡ none
absent_delete {V} j k t e = find-delete j k t ∙ rw e (either (same_key j k))
  where
    either : (b : Bool) → ◌≡◌ {A = Option V} (if b then none else none) none
    either true = refl
    either false = refl

pub set_key-IsOwned :
    {V : Type 0} (k : Key) (object : Option V) (expire : ℤ) (keep_ttl : Bool) (db : RedisDb V)
    → IsOwned db
    → IsOwned (set_key k object expire keep_ttl db).0
unfolding set_key
set_key-IsOwned k none expire keep_ttl db owned j missing = owned j missing
set_key-IsOwned k (some object) expire keep_ttl db owned j missing =
    let (other, before) = absent_set j k object db.dict missing in
    let kept = owned j before in
    let clears = not keep_ttl && eqb_ℤ expire (pos 0) in
    written (if clears then delete_value k db.expires else db.expires) other (ltb_ℤ (pos 0) expire)
      (cleared other kept clears)
  where
    cleared :
        same_key j k ≡ false
        → find_value j db.expires ≡ none
        → (b : Bool) → find_value j (if b then delete_value k db.expires else db.expires) ≡ none
    cleared other kept true = elsewhere_delete j k db.expires other ∙ kept
    cleared other kept false = kept

    written :
        (t : Table ℤ)
        → same_key j k ≡ false
        → (b : Bool) → find_value j t ≡ none
        → find_value j (if b then set_value k expire t else t) ≡ none
    written t other true kept = elsewhere_set j k expire t other ∙ kept
    written t other false kept = kept

removed-IsOwned :
    {V : Type 0} (k : Key) (db : RedisDb V)
    → IsOwned db
    → IsOwned (record db { dict = delete_value k db.dict; expires = delete_value k db.expires })
removed-IsOwned k db owned j missing =
    find-delete j k db.expires
    ∙ owned_part (same_key j k) (find_value j db.dict) (find_value j db.expires) (owned j)
        (sym (find-delete j k db.dict) ∙ missing)

pub unlink_key-IsOwned :
    {V : Type 0} (now : ℤ) (reclaimed : Bool) (k : Key) (db : RedisDb V)
    → IsOwned db
    → IsOwned (unlink_key now reclaimed k db).0
unfolding unlink_key
unlink_key-IsOwned {V} now reclaimed k db owned =
    cases (is_key_expired now k db) (find_value k db.dict)
  where
    cases :
        (b : Bool) (o : Option V)
        → IsOwned
            (if b then ((delete_key k db).0, error) else elim o as (λ o. RedisDb V × DbStatus) [
              | none ↦ (db, error)
              | some object ↦ (
                record db { dict = delete_value k db.dict; expires = delete_value k db.expires },
                if reclaimed then ok else error,
              )
            ]).0
    cases true o = delete_key-IsOwned k db owned
    cases false none = owned
    cases false (some object) = removed-IsOwned k db owned

delete_keys-IsOwned :
    {V : Type 0} (keys : List Key) (db : RedisDb V) (n : ℕ)
    → IsOwned db
    → IsOwned (delete_keys keys db n).0
unfolding delete_keys
delete_keys-IsOwned [] db n owned = owned
delete_keys-IsOwned (k ∷ ks) db n owned =
    delete_keys-IsOwned ks (delete_key k db).0 (elim (delete_key k db).1 [ ok ↦ n + 1 | error ↦ n ])
      (delete_key-IsOwned k db owned)

pub expire_some-IsOwned :
    {V : Type 0} (scan : ℕ → List (Key × ℤ) × Option ℕ) (buckets max_samples : ℕ) (now : ℤ)
    (db : RedisDb V) (o : RedisDb V × ExpireSampleResult)
    → expire_some scan buckets max_samples now db ≡ some o
    → IsOwned db
    → IsOwned o.0
unfolding expire_some
expire_some-IsOwned {V} scan buckets max_samples now db o h owned =
    cases (max_samples == 0 || length db.expires == 0)
      (sample_loop scan (buckets + 1) max_samples now db.expire_cursor
        (record { count = 0; expired_keys = [] }))
      h
  where
    returned :
        (a b : RedisDb V × ExpireSampleResult)
        → ◌≡◌ {A = Option (RedisDb V × ExpireSampleResult)} (some a) (some b)
        → IsOwned a.0
        → IsOwned b.0
    returned a b e owned =
        let same : a ≡ b = ground arith in
        subst (λ (r : RedisDb V × ExpireSampleResult). IsOwned r.0) same owned

    cases :
        (b : Bool) (s : Option (ℕ × Sample))
        → (if b
            then some (db, record { sampled = 0; expired = 0 })
            else elim s as (λ s. Option (RedisDb V × ExpireSampleResult)) [
              | none ↦ none
              | some (cursor, r) ↦ some (
                (delete_keys r.expired_keys (record db { expire_cursor = cursor }) 0).0,
                record {
                  sampled = r.count;
                  expired = (delete_keys r.expired_keys (record db { expire_cursor = cursor }) 0).1;
                },
              )
            ])
          ≡ some o
        → IsOwned o.0
    cases true s e = returned (db, record { sampled = 0; expired = 0 }) o e owned
    cases false none e = absurd (ground arith)
    cases false (some (cursor, r)) e =
        let after = delete_keys r.expired_keys (record db { expire_cursor = cursor }) 0 in
        returned (after.0, record { sampled = r.count; expired = after.1 }) o e
          (delete_keys-IsOwned r.expired_keys (record db { expire_cursor = cursor }) 0 owned)

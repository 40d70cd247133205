-- ===== src/Database/Expiry.antt =====
-- server/db/db.cpp: an expiration that is set is the one that the time to live is counted to.
use redis_simple.Common.{
  arith, ◌≡◌, ◌+◌, ◌-◌, refl, ap, ◌∙◌, Bool, true, false, not, ◌&&◌, Option, none, some,
  if◌then◌else◌,
}
use redis_simple.Common.Int.{ℤ, pos, negsuc, pos_part, neg_part, ltb_ℤ}
use redis_simple.Database.{
  RedisDb, DbStatus, ok, error, milliseconds, delete_key, expire_key_at, time_to_live,
  in_resolution,
}
use redis_simple.Common.Keys.{Key, same_key_refl}
use redis_simple.Database.Dictionary.{find_value, set_value, find-set}
use redis_simple.Database.Keys.{visible, has_come}
use redis_simple.Database.Clients.{lookup_key-seen}

expire_key_at-seen :
    {V : Type 0} (now later : ℤ) (k : Key) (e : ℤ) (db : RedisDb V) (object : V)
    → visible now k db ≡ some object
    → ltb_ℤ later e ≡ true
    → expire_key_at now later k e db ≡ (record db { expires = set_value k e db.expires }, ok)
unfolding expire_key_at
expire_key_at-seen {V} now later k e db object seen future =
    ap (λ r. next r (not r.0.loading && not (ltb_ℤ later e))) (lookup_key-seen now k db object seen)
    ∙ still_future db.loading (ltb_ℤ later e) future
  where
    next : RedisDb V × Option V → Bool → RedisDb V × DbStatus
    next r due = elim r.1 [
      | none ↦ (r.0, error)
      | some object ↦
          if due then delete_key k r.0 else (record r.0 { expires = set_value k e r.0.expires }, ok)
    ]

    still_future :
        (loading before : Bool)
        → before ≡ true
        → (if not loading && not before
            then delete_key k db
            else (record db { expires = set_value k e db.expires }, ok))
          ≡ (record db { expires = set_value k e db.expires }, ok)
    still_future true true h = refl
    still_future false true h = refl
    still_future loading false h = absurd (ground arith)

visible-given :
    {V : Type 0} (now first : ℤ) (k : Key) (e : ℤ) (db : RedisDb V) (object : V)
    → visible first k db ≡ some object
    → ltb_ℤ now e ≡ true
    → visible now k (record db { expires = set_value k e db.expires }) ≡ some object
visible-given {V} now first k e db object seen future =
    ap (λ b. if b then none else find_value k db.dict)
      (ap (λ o. if db.loading then false else has_come now o)
          (find-set k k e db.expires
            ∙ ap (λ b. if b then some e else find_value k db.expires) (same_key_refl k))
        ∙ alive db.loading (ltb_ℤ now e) future)
    ∙ present (if db.loading then false else has_come first (find_value k db.expires))
        (find_value k db.dict) seen
  where
    alive :
        (loading before : Bool) → before ≡ true → (if loading then false else not before) ≡ false
    alive true before h = refl
    alive false true h = refl
    alive false false h = absurd (ground arith)

    present :
        (expired : Bool) (o : Option V)
        → (if expired then none else o) ≡ some object
        → o ≡ some object
    present true o h = absurd (ground arith)
    present false o h = h

-- Where a client sees an object under a key, `ExpireKeyAt` with a time that has not come succeeds,
-- and from then on, until that time, `TimeToLive` in milliseconds returns the time that is left,
-- 0 if the second reading of the clock is past it, and changes nothing.
pub time_to_live-expire_key_at :
    {V : Type 0} (now later : ℤ) (k : Key) (e : ℤ) (now' later' : ℤ) (db : RedisDb V) (object : V)
    → visible now k db ≡ some object
    → ltb_ℤ later e ≡ true
    → ltb_ℤ now' e ≡ true
    → ((expire_key_at now later k e db).1 ≡ ok)
      × (time_to_live now' later' k milliseconds (expire_key_at now later k e db).0 ≡ (
        (expire_key_at now later k e db).0,
        pos ((pos_part e + neg_part later') - (pos_part later' + neg_part e)),
      ))
unfolding time_to_live in_resolution
time_to_live-expire_key_at {V} now later k e now' later' db object seen future still =
    let set_to = expire_key_at-seen now later k e db object seen future in
    let given = visible-given now' now k e db object seen still in
    (
      ap (λ r. r.1) set_to,
      rw set_to (
          ap next
            (lookup_key-seen now' k (record db { expires = set_value k e db.expires }) object given)
          ∙ ap counted (
              find-set k k e db.expires
              ∙ ap (λ b. if b then some e else find_value k db.expires) (same_key_refl k))),
    )
  where
    counted : Option ℤ → RedisDb V × ℤ
    counted o = elim o [
      | none ↦ (record db { expires = set_value k e db.expires }, negsuc 0)
      | some e' ↦ (
        record db { expires = set_value k e db.expires },
        pos ((pos_part e' + neg_part later') - (pos_part later' + neg_part e')),
      )
    ]

    next : RedisDb V × Option V → RedisDb V × ℤ
    next r = elim r.1 [
      | none ↦ (r.0, negsuc 1)
      | some object ↦ elim (find_value k r.0.expires) [
        | none ↦ (r.0, negsuc 0)
        | some e' ↦ (r.0, pos ((pos_part e' + neg_part later') - (pos_part later' + neg_part e')))
      ]
    ]

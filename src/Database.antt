-- ===== src/Database.antt =====
-- server/db/db.h and server/db/db.cpp: the keys with their objects, and the expirations. Each of the
-- two dictionaries is a table of keys and values; a reading of the clock is an argument, `now`, and
-- so is the answer of the reclaimer.
pub mod Dictionary
pub mod Represents
pub mod Scanned
pub mod Sampling
pub mod Active
pub mod ActiveScan
pub mod Keys
pub mod Invariant
pub mod Owned
pub mod Steps
pub mod Clients
pub mod Expiry
use redis_simple.Common.{
  ℕ, zero, suc, ◌+◌, ◌-◌, ◌*◌, ◌/◌, ◌%◌, Bool, true, false, not, ◌&&◌, ◌||◌, Option, none, some,
  List, [], ◌∷◌, ltb, leb, ◌==◌, if◌then◌else◌, length,
}
use redis_simple.Common.Int.{ℤ, pos, negsuc, pos_part, neg_part, ltb_ℤ, eqb_ℤ}
use redis_simple.Common.Keys.{Key, same_key}
use Dictionary.{Table, find_value, set_value, delete_value}

pub data DbStatus : Type 0 where
  ok : DbStatus
  error : DbStatus

pub data TtlResolution : Type 0 where
  seconds : TtlResolution
  milliseconds : TtlResolution

-- `V` is the type of the objects.
pub record RedisDb (V : Type 0) : Type 0 where
  pub dict : Table V
  pub expires : Table ℤ
  pub expire_cursor : ℕ
  pub loading : Bool

unfoldable pub has_value : {V : Type 0} → Key → Table V → Bool
has_value key t = elim (find_value key t) [ none ↦ false | some v ↦ true ]

-- The value that `TimeToLive` returns for a time that is left.
unfoldable pub in_resolution : TtlResolution → ℕ → ℤ
in_resolution milliseconds ttl = pos ttl
in_resolution seconds ttl = pos (ttl / 1000 + (if leb 500 (ttl % 1000) then 1 else 0))

module _ {V : Type 0} where
  unfoldable pub is_key_expired : ℤ → Key → RedisDb V → Bool
  is_key_expired now key db =
      if db.loading || length db.expires == 0
      then false
      else elim (find_value key db.expires) [ none ↦ false | some e ↦ not (ltb_ℤ now e) ]

  unfoldable pub delete_key : Key → RedisDb V → RedisDb V × DbStatus
  delete_key key db =
      if has_value key db.dict
      then (
        record db {
          dict = delete_value key db.dict;
          expires = if ltb 0 (length db.expires) then delete_value key db.expires else db.expires;
        },
        ok,
      )
      else (db, error)

  -- `LookupKey` and `MutableLookupKey`
  unfoldable pub lookup_key : ℤ → Key → RedisDb V → RedisDb V × Option V
  lookup_key now key db = elim (find_value key db.dict) [
    | none ↦ (db, none)
    | some object ↦
        if is_key_expired now key db then ((delete_key key db).0, none) else (db, some object)
  ]

  -- `SetKey`; `none` is a null object
  unfoldable pub set_key : Key → Option V → ℤ → Bool → RedisDb V → RedisDb V × DbStatus
  set_key key none expire keep_ttl db = (db, error)
  set_key key (some object) expire keep_ttl db =
      let cleared =
        if not keep_ttl && eqb_ℤ expire (pos 0) then delete_value key db.expires else db.expires in
      (
        record db {
          dict = set_value key object db.dict;
          expires = if ltb_ℤ (pos 0) expire then set_value key expire cleared else cleared;
        },
        ok,
      )

  -- `UnlinkKey`; `reclaimed` is what `Reclaim` answers
  unfoldable pub unlink_key : ℤ → Bool → Key → RedisDb V → RedisDb V × DbStatus
  unlink_key now reclaimed key db =
      if is_key_expired now key db
      then ((delete_key key db).0, error)
      else elim (find_value key db.dict) [
        | none ↦ (db, error)
        | some object ↦ (
          record db { dict = delete_value key db.dict; expires = delete_value key db.expires },
          if reclaimed then ok else error,
        )
      ]

  -- `ExpireKeyAt`, which reads the clock twice
  unfoldable pub expire_key_at : ℤ → ℤ → Key → ℤ → RedisDb V → RedisDb V × DbStatus
  expire_key_at now later key expire db =
      let (db', object) = lookup_key now key db in
      elim object [
        | none ↦ (db', error)
        | some object ↦
            if not db'.loading && not (ltb_ℤ later expire)
            then delete_key key db'
            else (record db' { expires = set_value key expire db'.expires }, ok)
      ]

  unfoldable pub persist_key : ℤ → Key → RedisDb V → RedisDb V × DbStatus
  persist_key now key db =
      let (db', object) = lookup_key now key db in
      elim object [
        | none ↦ (db', error)
        | some object ↦
            if has_value key db'.expires
            then (record db' { expires = delete_value key db'.expires }, ok)
            else (db', error)
      ]

  -- `TimeToLive`; the subtraction stops at 0
  unfoldable pub time_to_live : ℤ → ℤ → Key → TtlResolution → RedisDb V → RedisDb V × ℤ
  time_to_live now later key resolution db =
      let (db', object) = lookup_key now key db in
      elim object [
        | none ↦ (db', negsuc 1)
        | some object ↦ elim (find_value key db'.expires) [
          | none ↦ (db', negsuc 0)
          | some e ↦ (
            db',
            in_resolution resolution
                ((pos_part e + neg_part later) - (pos_part later + neg_part e)),
          )
        ]
      ]

  -- `RenameKey` once the object is found
  unfoldable pub move_object : Key → Key → V → RedisDb V → RedisDb V
  move_object old_key new_key object db =
      let expires = delete_value old_key db.expires in
      record db {
        dict = set_value new_key object (delete_value old_key db.dict);
        expires = elim (find_value old_key db.expires) [
          | none ↦ delete_value new_key expires
          | some e ↦ set_value new_key e expires
        ];
      }

  unfoldable pub rename_key : ℤ → Key → Key → RedisDb V → RedisDb V × DbStatus
  rename_key now old_key new_key db =
      let (db', object) = lookup_key now old_key db in
      elim object [
        | none ↦ (db', error)
        | some object ↦
            if same_key old_key new_key
            then (db', ok)
            else (move_object old_key new_key object db', ok)
      ]

  unfoldable pub set_loading : Bool → RedisDb V → RedisDb V
  set_loading loading db = record db { loading = loading }

  unfoldable pub flush : RedisDb V → RedisDb V
  flush db = record db { dict = []; expires = []; expire_cursor = 0 }

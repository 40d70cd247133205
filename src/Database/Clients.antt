-- ===== src/Database/Clients.antt =====
-- server/db/db.cpp: what a client sees of the keys.
use redis_simple.Common.{
  ◌≡◌, refl, ap, sym, ◌∙◌, arith, Bool, true, false, ◌&&◌, Option, none, some, if◌then◌else◌,
}
use redis_simple.Common.Int.{ℤ}
use redis_simple.Database.{
  RedisDb, DbStatus, ok, error, has_value, is_key_expired, delete_key, lookup_key, move_object,
  rename_key,
}
use redis_simple.Common.Keys.{Key, same_key, same_key-eq, same_key_refl}
use redis_simple.Database.Dictionary.{
  Table, find_value, delete_value, set_value, find-delete, find-set,
}
use redis_simple.Database.Keys.{
  visible, has_come, IsOwned, is_key_expired-view, delete_key-dict, delete_key-expires,
  delete_key-loading, lookup_key-view, not_found,
}
use redis_simple.Database.Invariant.{elsewhere_delete, elsewhere_set}
use redis_simple.Database.Steps.{Reached, Reached-IsOwned}

-- A key that is not to be seen is not after a deletion either; the others are seen as they were.
pub visible-delete_unseen :
    {V : Type 0} (now : ℤ) (j k : Key) (db : RedisDb V)
    → IsOwned db
    → visible now k db ≡ none
    → visible now j (delete_key k db).0 ≡ visible now j db
visible-delete_unseen {V} now j k db owned unseen =
    rw (delete_key-loading k db, delete_key-expires j k db owned, delete_key-dict j k db)
      (cases (same_key j k) db.loading (find_value j db.expires) (find_value j db.dict)
        (λ same. ap (λ j. visible now j db) (same_key-eq j k same) ∙ unseen))
  where
    cases :
        (same loading : Bool) (e : Option ℤ) (o : Option V)
        → (same ≡ true → (if (if loading then false else has_come now e) then none else o) ≡ none)
        → (if (if loading then false else has_come now (if same then none else e))
            then none
            else (if same then none else o))
          ≡ (if (if loading then false else has_come now e) then none else o)
    cases true true e o h = sym (h refl)
    cases true false e o h = sym (h refl)
    cases false loading e o h = refl

-- `LookupKey` returns the object that is to be seen under the key: none when the expiration of the
-- key has come and the database is not loading, and the object of the dictionary otherwise.
-- Afterwards the dictionary holds that object under the key, so that an expired one is deleted, and
-- what is to be seen is the same under every key. The database is one that the operations have made.
pub lookup_key-visible :
    {V : Type 0} (now : ℤ) (k j : Key) (db : RedisDb V)
    → Reached V db
    → ((lookup_key now k db).1 ≡ visible now k db)
      × (find_value k (lookup_key now k db).0.dict ≡ visible now k db)
      × (visible now j (lookup_key now k db).0 ≡ visible now j db)
lookup_key-visible {V} now k j db r =
    let view = lookup_key-view now k db in
    let seen = seen_same (has_value k db.dict) (is_key_expired now k db) refl in
    let left = left_there (has_value k db.dict) (is_key_expired now k db) refl refl in
    (
      ap (λ r. r.1) view,
      ap (λ r. find_value k r.0.dict) view ∙ left,
      ap (λ r. visible now j r.0) view ∙ seen,
    )
  where
    seen_same :
        (found expired : Bool)
        → is_key_expired now k db ≡ expired
        → visible now j (if found && expired then (delete_key k db).0 else db) ≡ visible now j db
    seen_same true true e =
        visible-delete_unseen now j k db (Reached-IsOwned db r)
          (rw (sym (is_key_expired-view now k db), e) refl)
    seen_same true false e = refl
    seen_same false expired e = refl

    nowhere : (b : Bool) → ◌≡◌ {A = Option V} none (if b then none else none)
    nowhere true = refl
    nowhere false = refl

    left_there :
        (found expired : Bool)
        → has_value k db.dict ≡ found
        → is_key_expired now k db ≡ expired
        → find_value k (if found && expired then (delete_key k db).0 else db).dict
          ≡ visible now k db
    left_there true true found e =
        delete_key-dict k k db ∙ rw (same_key_refl k, sym (is_key_expired-view now k db), e) refl
    left_there true false found e = rw (sym (is_key_expired-view now k db), e) refl
    left_there false expired found e =
        rw (not_found k db.dict found)
          (nowhere (if db.loading then false else has_come now (find_value k db.expires)))

-- A key that is seen is looked up without a change.
pub lookup_key-seen :
    {V : Type 0} (now : ℤ) (k : Key) (db : RedisDb V) (object : V)
    → visible now k db ≡ some object
    → lookup_key now k db ≡ (db, some object)
lookup_key-seen {V} now k db object h =
    lookup_key-view now k db
    ∙ ap
        (λ o.
          (if has_value k db.dict && is_key_expired now k db then (delete_key k db).0 else db, o))
        h
    ∙ ap (λ d. (d, some object))
        (kept (has_value k db.dict) (is_key_expired now k db)
          (ap (λ b. if b then none else find_value k db.dict) (is_key_expired-view now k db) ∙ h))
  where
    kept :
        (found expired : Bool)
        → (if expired then none else find_value k db.dict) ≡ some object
        → (if found && expired then (delete_key k db).0 else db) ≡ db
    kept found true h = absurd (ground arith)
    kept true false h = refl
    kept false false h = refl

rename_key-seen :
    {V : Type 0} (now : ℤ) (old new : Key) (db : RedisDb V) (object : V)
    → visible now old db ≡ some object
    → same_key old new ≡ false
    → rename_key now old new db ≡ (move_object old new object db, ok)
unfolding rename_key
rename_key-seen {V} now old new db object h other =
    ap (next (same_key old new)) (lookup_key-seen now old db object h)
    ∙ ap (λ b. next b (db, some object)) other
  where
    next : Bool → RedisDb V × Option V → RedisDb V × DbStatus
    next same r = elim r.1 [
      | none ↦ (r.0, error)
      | some object ↦ if same then (r.0, ok) else (move_object old new object r.0, ok)
    ]

-- Where a client sees an object under a key, `RenameKey` to another key succeeds: the object is
-- then under the new key, with the expiration of the old one, or none if that had none, whatever
-- the new key held before, and the old key has neither.
pub rename_key-moved :
    {V : Type 0} (now : ℤ) (old new : Key) (db : RedisDb V) (object : V)
    → visible now old db ≡ some object
    → same_key old new ≡ false
    → ((rename_key now old new db).1 ≡ ok)
      × (find_value new (rename_key now old new db).0.dict ≡ some object)
      × (find_value old (rename_key now old new db).0.dict ≡ none)
      × (find_value new (rename_key now old new db).0.expires ≡ find_value old db.expires)
      × (find_value old (rename_key now old new db).0.expires ≡ none)
unfolding move_object
rename_key-moved {V} now old new db object h other =
    let e = rename_key-seen now old new db object h other in
    let gone_object =
      elsewhere_set old new object (delete_value old db.dict) other ∙ deleted db.dict in
    (
      ap (λ r. r.1) e,
      ap (λ r. find_value new r.0.dict) e
          ∙ find-set new new object (delete_value old db.dict)
          ∙ rw (same_key_refl new) refl,
      ap (λ r. find_value old r.0.dict) e ∙ gone_object,
      ap (λ r. find_value new r.0.expires) e ∙ moved (find_value old db.expires),
      ap (λ r. find_value old r.0.expires) e ∙ gone (find_value old db.expires),
    )
  where
    deleted : {W : Type 0} (t : Table W) → find_value old (delete_value old t) ≡ none
    deleted t = find-delete old old t ∙ rw (same_key_refl old) refl

    moved :
        (o : Option ℤ)
        → find_value new (elim o as (λ o. Table ℤ) [
          | none ↦ delete_value new (delete_value old db.expires)
          | some e ↦ set_value new e (delete_value old db.expires)
        ])
          ≡ o
    moved none = find-delete new new (delete_value old db.expires) ∙ rw (same_key_refl new) refl
    moved (some e) = find-set new new e (delete_value old db.expires) ∙ rw (same_key_refl new) refl

    gone :
        (o : Option ℤ)
        → find_value old (elim o as (λ o. Table ℤ) [
          | none ↦ delete_value new (delete_value old db.expires)
          | some e ↦ set_value new e (delete_value old db.expires)
        ])
          ≡ none
    gone none = elsewhere_delete old new (delete_value old db.expires) other ∙ deleted db.expires
    gone (some e) = elsewhere_set old new e (delete_value old db.expires) other ∙ deleted db.expires

-- Where a client sees an object under a key, `RenameKey` to another key leaves the object and the
-- expiration of every third key alone.
pub rename_key-others :
    {V : Type 0} (now : ℤ) (old new j : Key) (db : RedisDb V) (object : V)
    → visible now old db ≡ some object
    → same_key old new ≡ false
    → same_key j old ≡ false
    → same_key j new ≡ false
    → (find_value j (rename_key now old new db).0.dict ≡ find_value j db.dict)
      × (find_value j (rename_key now old new db).0.expires ≡ find_value j db.expires)
unfolding move_object
rename_key-others {V} now old new j db object h other jold jnew =
    let e = rename_key-seen now old new db object h other in
    (
      ap (λ r. find_value j r.0.dict) e
          ∙ elsewhere_set j new object (delete_value old db.dict) jnew
          ∙ elsewhere_delete j old db.dict jold,
      ap (λ r. find_value j r.0.expires) e ∙ kept (find_value old db.expires),
    )
  where
    kept :
        (o : Option ℤ)
        → find_value j (elim o as (λ o. Table ℤ) [
          | none ↦ delete_value new (delete_value old db.expires)
          | some e ↦ set_value new e (delete_value old db.expires)
        ])
          ≡ find_value j db.expires
    kept none =
        elsewhere_delete j new (delete_value old db.expires) jnew
        ∙ elsewhere_delete j old db.expires jold
    kept (some e) =
        elsewhere_set j new e (delete_value old db.expires) jnew
        ∙ elsewhere_delete j old db.expires jold

-- ===== src/Database/Keys.antt =====
-- server/db/db.cpp: what is found under the keys after a deletion and a lookup.
use redis_simple.Common.{
  ◌≡◌, refl, ap, ◌∙◌, arith, Bool, true, false, not, ◌&&◌, ◌||◌, Option, none, some, ◌==◌, ltb,
  if◌then◌else◌, length, Bool-cases, Option-cases, inl, inr,
}
use redis_simple.Common.Int.{ℤ, ltb_ℤ}
use redis_simple.Database.{RedisDb, has_value, is_key_expired, delete_key, lookup_key}
use redis_simple.Common.Keys.{Key, same_key, same_key-eq}
use redis_simple.Database.Dictionary.{Table, find_value, delete_value, find-delete, find-empty}

-- An expiration that has come.
abbrev pub has_come : ℤ → Option ℤ → Bool
has_come now none = false
has_come now (some e) = not (ltb_ℤ now e)

-- The object that a client is to see under a key: that of the dictionary, unless the expiration of
-- the key has come while the database is not loading.
abbrev pub visible : {V : Type 0} → ℤ → Key → RedisDb V → Option V
visible now key db =
    if (if db.loading then false else has_come now (find_value key db.expires))
    then none
    else find_value key db.dict

-- A key without an object has no expiration.
abbrev pub IsOwned : {V : Type 0} → RedisDb V → Type 0
IsOwned db = (key : Key) → find_value key db.dict ≡ none → find_value key db.expires ≡ none

unless_found :
    {V : Type 0} (j k : Key) (o : Option V)
    → (same_key j k ≡ true → o ≡ none)
    → o ≡ (if same_key j k then none else o)
unless_found j k o h = elim (Bool-cases (same_key j k)) [ inl e ↦ rw e (h e) | inr e ↦ rw e refl ]

find-delete_some :
    (j k : Key) (t : Table ℤ)
    → find_value j (if ltb 0 (length t) then delete_value k t else t)
      ≡ (if same_key j k then none else find_value j t)
find-delete_some j k t = elim (Bool-cases (ltb 0 (length t))) [
  | inl e ↦ rw e (find-delete j k t)
  | inr e ↦
      let empty : (length t == 0) ≡ true = ground arith in
      rw e (unless_found j k (find_value j t) (λ same. find-empty j t empty))
]

module _ {V : Type 0} where
  pub is_key_expired-view :
      (now : ℤ) (key : Key) (db : RedisDb V)
      → is_key_expired now key db
        ≡ (if db.loading then false else has_come now (find_value key db.expires))
  unfolding is_key_expired
  is_key_expired-view now key db =
      cases db.loading (length db.expires == 0) (find_value key db.expires)
        (find-empty key db.expires)
    where
      cases :
          (loading empty : Bool) (o : Option ℤ)
          → (empty ≡ true → o ≡ none)
          → (if loading || empty
              then false
              else elim o [ none ↦ false | some e ↦ not (ltb_ℤ now e) ])
            ≡ (if loading then false else has_come now o)
      cases true empty o h = refl
      cases false true o h = rw (h refl) refl
      cases false false none h = refl
      cases false false (some e) h = refl

  delete_key-found :
      (k : Key) (db : RedisDb V)
      → has_value k db.dict ≡ true
      → (delete_key k db).0 ≡ record db {
        dict = delete_value k db.dict;
        expires = if ltb 0 (length db.expires) then delete_value k db.expires else db.expires;
      }
  unfolding delete_key
  delete_key-found k db e = rw (e, delete_key) refl

  delete_key-missing :
      (k : Key) (db : RedisDb V) → has_value k db.dict ≡ false → (delete_key k db).0 ≡ db
  unfolding delete_key
  delete_key-missing k db e = rw (e, delete_key) refl

  pub not_found : (k : Key) (t : Table V) → has_value k t ≡ false → find_value k t ≡ none
  unfolding has_value
  not_found k t h = elim (Option-cases (find_value k t)) [
    | inl e ↦ e
    | inr (v, e) ↦ absurd (conflict (find_value k t) v e h)
  ]
    where
      conflict :
          (o : Option V) (v : V)
          → o ≡ some v
          → (elim o as (λ o. Bool) [ none ↦ false | some v ↦ true ]) ≡ false
          → ⊥
      conflict none v e h = ground arith
      conflict (some w) v e h = ground arith

  -- A deleted key has no object, and the other keys keep theirs.
  pub delete_key-dict :
      (j k : Key) (db : RedisDb V)
      → find_value j (delete_key k db).0.dict
        ≡ (if same_key j k then none else find_value j db.dict)
  delete_key-dict j k db = elim (Bool-cases (has_value k db.dict)) [
    | inl e ↦ ap (λ d. find_value j d.dict) (delete_key-found k db e) ∙ find-delete j k db.dict
    | inr e ↦
        ap (λ d. find_value j d.dict) (delete_key-missing k db e)
        ∙ unless_found j k (find_value j db.dict)
            (λ same. ap (λ k. find_value k db.dict) (same_key-eq j k same) ∙ not_found k db.dict e)
  ]

  pub delete_key-expires :
      (j k : Key) (db : RedisDb V)
      → IsOwned db
      → find_value j (delete_key k db).0.expires
        ≡ (if same_key j k then none else find_value j db.expires)
  delete_key-expires j k db owned = elim (Bool-cases (has_value k db.dict)) [
    | inl e ↦
        ap (λ d. find_value j d.expires) (delete_key-found k db e) ∙ find-delete_some j k db.expires
    | inr e ↦
        ap (λ d. find_value j d.expires) (delete_key-missing k db e)
        ∙ unless_found j k (find_value j db.expires) (λ same.
          ap (λ k. find_value k db.expires) (same_key-eq j k same)
          ∙ owned k (not_found k db.dict e))
  ]

  pub delete_key-loading : (k : Key) (db : RedisDb V) → (delete_key k db).0.loading ≡ db.loading
  delete_key-loading k db = elim (Bool-cases (has_value k db.dict)) [
    | inl e ↦ ap (λ d. d.loading) (delete_key-found k db e)
    | inr e ↦ ap (λ d. d.loading) (delete_key-missing k db e)
  ]

  -- A lookup deletes an expired key, and changes nothing else.
  pub lookup_key-view :
      (now : ℤ) (k : Key) (db : RedisDb V)
      → lookup_key now k db ≡ (
        if has_value k db.dict && is_key_expired now k db then (delete_key k db).0 else db,
        visible now k db,
      )
  unfolding lookup_key has_value
  lookup_key-view now k db =
      cases (find_value k db.dict) (is_key_expired now k db)
      ∙ ap
          (λ b. (
            if has_value k db.dict && is_key_expired now k db then (delete_key k db).0 else db,
            if b then none else find_value k db.dict,
          ))
          (is_key_expired-view now k db)
    where
      cases :
          (o : Option V) (expired : Bool)
          → (elim o as (λ o. RedisDb V × Option V) [
            | none ↦ (db, none)
            | some object ↦ if expired then ((delete_key k db).0, none) else (db, some object)
          ])
            ≡ (
              if (elim o as (λ o. Bool) [ none ↦ false | some v ↦ true ]) && expired
                  then (delete_key k db).0
                  else db,
              if expired then none else o,
            )
      cases none true = refl
      cases none false = refl
      cases (some v) true = refl
      cases (some v) false = refl

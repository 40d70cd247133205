-- ===== src/Database/Sampling.antt =====
-- server/db/db.cpp: `ExpireSome`, the sample of expirations of which those that have come are
-- deleted. The `Scan` of the dictionary of expirations is an argument: the entries that it visits at
-- a cursor, and the next cursor.
use redis_simple.Common.{
  ℕ, zero, suc, ◌+◌, true, false, not, ◌||◌, Option, none, some, List, [], ◌∷◌, ◌++◌, ltb, leb,
  ◌==◌, if◌then◌else◌, length,
}
use redis_simple.Common.Int.{ℤ, ltb_ℤ}
use redis_simple.Common.Keys.{Key}
use redis_simple.Database.{RedisDb, ok, error, delete_key}

pub record ExpireSampleResult : Type 0 where
  pub sampled : ℕ
  pub expired : ℕ

-- The count and the keys that the visitor changes.
pub record Sample : Type 0 where
  pub count : ℕ
  pub expired_keys : List Key

-- The calls of the visitor.
unfoldable pub visit : ℕ → ℤ → List (Key × ℤ) → Sample → Sample
visit max_samples now [] r = r
visit max_samples now ((key, expire) ∷ rest) r = visit max_samples now rest (
    if leb max_samples r.count then r else record {
      count = r.count + 1;
      expired_keys = if not (ltb_ℤ now expire) then r.expired_keys ++ key ∷ [] else r.expired_keys;
    })

-- The loop over the scan, on fuel, with the cursor that it leaves; `none` where the fuel runs out
unfoldable pub sample_loop :
    (ℕ → List (Key × ℤ) × Option ℕ) → ℕ → ℕ → ℤ → ℕ → Sample → Option (ℕ × Sample)
sample_loop scan zero max_samples now cursor r = none
sample_loop scan (suc fuel) max_samples now cursor r =
    let visited = visit max_samples now (scan cursor).0 r in
    elim (ltb r.count max_samples) [
      | false ↦ some (cursor, r)
      | true ↦ elim (scan cursor).1 [
        | none ↦ some (0, visited)
        | some next ↦ sample_loop scan fuel max_samples now next visited
      ]
    ]

module _ {V : Type 0} where
  -- The deletions, which are counted.
  unfoldable pub delete_keys : List Key → RedisDb V → ℕ → RedisDb V × ℕ
  delete_keys [] db expired = (db, expired)
  delete_keys (key ∷ keys) db expired =
      let r = delete_key key db in
      delete_keys keys r.0 (elim r.1 [ ok ↦ expired + 1 | error ↦ expired ])

  -- A scan visits each bucket once at most, so one more round than there are buckets is enough.
  unfoldable pub expire_some :
      (ℕ → List (Key × ℤ) × Option ℕ)
      → ℕ
      → ℕ
      → ℤ
      → RedisDb V
      → Option (RedisDb V × ExpireSampleResult)
  expire_some scan buckets max_samples now db =
      let start : Sample = record { count = 0; expired_keys = [] } in
      if max_samples == 0 || length db.expires == 0
      then some (db, record { sampled = 0; expired = 0 })
      else elim (sample_loop scan (buckets + 1) max_samples now db.expire_cursor start) [
        | none ↦ none
        | some (cursor, r) ↦
            let (db', expired) =
              delete_keys r.expired_keys (record db { expire_cursor = cursor }) 0 in
            some (db', record { sampled = r.count; expired = expired })
      ]

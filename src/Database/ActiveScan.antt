-- ===== src/Database/ActiveScan.antt =====
-- server/db/db.cpp: `ExpireSome` over the `Scan` of memory/dict.h.
use redis_simple.Common.{
  ℕ, ◌≤◌, ◌≡◌, arith, false, Option, some, List, [], ◌∷◌, map, max, length, All,
}
use redis_simple.Common.Int.{ℤ}
use redis_simple.Common.Keys.{Key}
use redis_simple.Dict.{Dict, DictEntry, scan}
use redis_simple.Database.{RedisDb}
use redis_simple.Database.Dictionary.{Table, find_value}
use redis_simple.Database.Keys.{visible}
use redis_simple.Database.Steps.{Reached}
use redis_simple.Database.Represents.{Represents}
use redis_simple.Database.Scanned.{scan-Represents}
use redis_simple.Database.Sampling.{ExpireSampleResult, expire_some}
use redis_simple.Database.Active.{expire_some-visible}

-- What the visitor is called with, and the next cursor.
abbrev pub scanned : Dict ℤ → ℕ → List (Key × ℤ) × Option ℕ
scanned d cursor = (map (λ (e : DictEntry ℤ). (e.key, e.val)) (scan cursor d).0, (scan cursor d).1)

abbrev pub buckets_of : Dict ℤ → ℕ
buckets_of d = max (length d.table0.buckets) (length d.table1.buckets)

visited_pairs :
    (t : Table ℤ) (entries : List (DictEntry ℤ))
    → All (λ e. find_value e.key t ≡ some e.val) entries
    → All
        (λ (x : Key × ℤ). find_value x.0 t ≡ some x.1)
        (map (λ (e : DictEntry ℤ). (e.key, e.val)) entries)
visited_pairs t [] h = tt
visited_pairs t (e ∷ entries) h = (h.0, visited_pairs t entries h.1)

-- `ExpireSome` on a database that is not loading, over the scan of a dictionary that stands for its
-- expirations, returns, having sampled no more expirations than it was asked to and deleted no more
-- than it sampled, and what is to be seen at that time is the same under every key. The database is
-- one that the operations have made.
pub expire_some-Represents :
    {V : Type 0} (hf : Key → ℕ) (d : Dict ℤ) (max_samples : ℕ) (now : ℤ) (db : RedisDb V)
    → Reached V db
    → db.loading ≡ false
    → Represents hf d db.expires
    → (o : RedisDb V × ExpireSampleResult) × (expire_some
          (scanned d)
          (buckets_of d)
          max_samples
          now
          db
        ≡ some o)
      × (o.1.sampled ≤ max_samples)
      × (o.1.expired ≤ o.1.sampled)
      × ((j : Key) → visible now j o.0 ≡ visible now j db)
expire_some-Represents hf d max_samples now db reached live r =
    expire_some-visible (scanned d) (buckets_of d) max_samples now db reached live
      (λ c. visited_pairs db.expires (scan c d).0 (scan-Represents hf c d db.expires r).0)
      (λ c next e.
        let (step, inside) = (scan-Represents hf c d db.expires r).1 next e in
        (omega arith, inside))

-- ===== src/Database/Active.antt =====
-- server/db/db.cpp: what `ExpireSome` deletes.
use redis_simple.Common.{
  ℕ, zero, suc, ◌+◌, ◌-◌, ◌≤◌, ◌<◌, ◌≡◌, refl, ◌∙◌, arith, Bool, true, false, not, ◌||◌, Bool-cases,
  Option-cases, inl, inr, Option, none, some, List, [], ◌∷◌, ◌++◌, ltb, leb, ◌==◌, if◌then◌else◌,
  length, length-append, All, All-append, All-map,
}
use redis_simple.Common.Int.{ℤ, ltb_ℤ}
use redis_simple.Common.Keys.{Key}
use redis_simple.Database.{RedisDb, DbStatus, ok, error, delete_key}
use redis_simple.Database.Dictionary.{find_value}
use redis_simple.Database.Keys.{visible, IsOwned}
use redis_simple.Database.Invariant.{delete_key-IsOwned}
use redis_simple.Database.Clients.{visible-delete_unseen}
use redis_simple.Database.Steps.{Reached, Reached-IsOwned}
use redis_simple.Database.Sampling.{
  ExpireSampleResult, Sample, visit, sample_loop, delete_keys, expire_some,
}

-- A sample of no more than the bound, whose expired keys are each counted in it and are not seen.
abbrev IsSample : {V : Type 0} → ℤ → RedisDb V → ℕ → Sample → Type 0
IsSample now db max_samples r =
    (r.count ≤ max_samples)
    × (length r.expired_keys ≤ r.count)
    × All (λ key. visible now key db ≡ none) r.expired_keys

module _ {V : Type 0} (now : ℤ) (db : RedisDb V) (live : db.loading ≡ false) where
  due-unseen :
      (key : Key) (expire : ℤ)
      → find_value key db.expires ≡ some expire
      → not (ltb_ℤ now expire) ≡ true
      → visible now key db ≡ none
  due-unseen key expire at due = rw (live, at, due) refl

  visit-IsSample :
      (max_samples : ℕ) (entries : List (Key × ℤ)) (r : Sample)
      → All (λ x. find_value x.0 db.expires ≡ some x.1) entries
      → IsSample now db max_samples r
      → IsSample now db max_samples (visit max_samples now entries r)
  unfolding visit
  visit-IsSample max_samples [] r h p = p
  visit-IsSample max_samples ((key, expire) ∷ rest) r h p =
      visit-IsSample max_samples rest _ h.1
        (cases (leb max_samples r.count) (not (ltb_ℤ now expire)) refl refl)
    where
      cases :
          (full due : Bool)
          → leb max_samples r.count ≡ full
          → not (ltb_ℤ now expire) ≡ due
          → IsSample now db max_samples (
              if full then r else record {
                count = r.count + 1;
                expired_keys = if due then r.expired_keys ++ key ∷ [] else r.expired_keys;
              })
      cases true due e d = p
      cases false true e d = (
        ground arith,
        omega (arith, p.1, length-append r.expired_keys (key ∷ [])),
        All-append (λ key. visible now key db ≡ none) r.expired_keys (key ∷ []) p.2
            (due-unseen key expire h.0 d, tt),
      )
      cases false false e d = (ground arith, omega (arith, p.1), p.2)

  sample_loop-IsSample :
      (scan : ℕ → List (Key × ℤ) × Option ℕ) (buckets fuel max_samples cursor : ℕ) (r : Sample)
      → ((c : ℕ) → All (λ x. find_value x.0 db.expires ≡ some x.1) (scan c).0)
      → ((c next : ℕ) → (scan c).1 ≡ some next → (c < next) × (next < buckets))
      → buckets - cursor < fuel
      → IsSample now db max_samples r
      → (o : ℕ × Sample) × (sample_loop scan fuel max_samples now cursor r ≡ some o)
        × IsSample now db max_samples o.1
  unfolding sample_loop
  sample_loop-IsSample scan buckets zero max_samples cursor r held ends f p = absurd (omega arith)
  sample_loop-IsSample scan buckets (suc fuel) max_samples cursor r held ends f p =
      elim (Bool-cases (ltb r.count max_samples)) [
        | inr done ↦ ((cursor, r), rw (done, sample_loop) refl, p)
        | inl more ↦
            let visited = visit max_samples now (scan cursor).0 r in
            let q = visit-IsSample max_samples (scan cursor).0 r (held cursor) p in
            elim (Option-cases (scan cursor).1) [
              | inl last ↦ ((0, visited), rw (more, sample_loop, last) refl, q)
              | inr (next, e) ↦
                  let on = ends cursor next e in
                  let (o, eq, s) =
                    sample_loop-IsSample scan buckets fuel max_samples next visited held ends
                      (omega arith) q in
                  (o, rw (more, sample_loop, e) eq, s)
            ]
      ]

delete_keys-visible :
    {V : Type 0} (now : ℤ) (keys : List Key) (db : RedisDb V) (n : ℕ)
    → IsOwned db
    → All (λ key. visible now key db ≡ none) keys
    → ((j : Key) → visible now j (delete_keys keys db n).0 ≡ visible now j db)
      × ((delete_keys keys db n).1 ≤ n + length keys)
unfolding delete_keys
delete_keys-visible now [] db n owned h = (λ j. refl, omega arith)
delete_keys-visible {V} now (k ∷ ks) db n owned h =
    let one = λ (j : Key). visible-delete_unseen now j k db owned h.0 in
    let unseen = All-map (λ key e. one key ∙ e) ks h.1 in
    let (same, few) =
      delete_keys-visible now ks (delete_key k db).0 (counted (delete_key k db).1)
        (delete_key-IsOwned k db owned) unseen in
    (λ j. same j ∙ one j, omega (arith, few, at_most (delete_key k db).1))
  where
    counted : DbStatus → ℕ
    counted s = elim s [ ok ↦ n + 1 | error ↦ n ]

    at_most : (s : DbStatus) → counted s ≤ n + 1
    at_most ok = omega arith
    at_most error = omega arith

-- `ExpireSome` on a database that is not loading returns, having sampled no more expirations than
-- it was asked to and deleted no more than it sampled, and what is to be seen at that time is the
-- same under every key. The database is one that the operations have made; a scan of its expirations
-- visits entries of them, and goes on to higher cursors below the number of buckets, until it ends.
pub expire_some-visible :
    {V : Type 0} (scan : ℕ → List (Key × ℤ) × Option ℕ) (buckets max_samples : ℕ) (now : ℤ)
    (db : RedisDb V)
    → Reached V db
    → db.loading ≡ false
    → ((c : ℕ) → All (λ x. find_value x.0 db.expires ≡ some x.1) (scan c).0)
    → ((c next : ℕ) → (scan c).1 ≡ some next → (c < next) × (next < buckets))
    → (o : RedisDb V × ExpireSampleResult) × (expire_some scan buckets max_samples now db ≡ some o)
      × (o.1.sampled ≤ max_samples)
      × (o.1.expired ≤ o.1.sampled)
      × ((j : Key) → visible now j o.0 ≡ visible now j db)
unfolding expire_some
expire_some-visible {V} scan buckets max_samples now db reached live held ends =
    elim (Bool-cases (max_samples == 0 || length db.expires == 0)) [
      | inl nothing ↦ (
        (db, record { sampled = 0; expired = 0 }),
        rw (nothing, expire_some) refl,
        omega arith,
        omega arith,
        λ j. refl,
      )
      | inr something ↦
          let ((cursor, r), e, (few, counted, unseen)) =
            sample_loop-IsSample now db live scan buckets (buckets + 1) max_samples db.expire_cursor
              (record { count = 0; expired_keys = [] }) held ends (omega arith)
              (omega arith, omega arith, tt) in
          let rest =
            delete_keys-visible now r.expired_keys (record db { expire_cursor = cursor }) 0
              (Reached-IsOwned db reached) unseen in
          let after = delete_keys r.expired_keys (record db { expire_cursor = cursor }) 0 in
          (
            (after.0, record { sampled = r.count; expired = after.1 }),
            rw (something, expire_some, e) refl,
            few,
            omega (arith, rest.1),
            rest.0,
          )
    ]

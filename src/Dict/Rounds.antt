-- ===== src/Dict/Rounds.antt =====
-- memory/dict.h: the rounds of `Rehash`, and the migration of the tables.
use redis_simple.Common.{
  ℕ, zero, suc, ◌+◌, ◌-◌, ◌*◌, ◌≤◌, ◌<◌, ◌≡◌, refl, ap, sym, ◌∙◌, subst, arith, Bool, true, false,
  ◌&&◌, Option, none, some, List, [], ◌∷◌, ◌==◌, if◌then◌else◌, length, get_or, set, set-get_or,
  ltb, inr,
}
use redis_simple.Common.Keys.{Key}
use redis_simple.Dict.{
  DictEntry, HashTable, Dict, chain_at, hash_index, move_chain, move_bucket, rehash_loop, rehash,
  rehash_step_if_needed, migrate_rehashed_table, table_size, reset,
}
use redis_simple.Dict.Chain.{value_in, IsChain}
use redis_simple.Dict.Table.{IsTable, table_value, total, capacity}
use redis_simple.Dict.Invariant.{IsDict, InPhase, or_else, empty_table}
use redis_simple.Dict.Rehashing.{IsSame, IsSame-trans, move_chain-Moved}

pub table_size-le : (o : Option ℕ) → table_size o ≤ capacity o
unfolding table_size
table_size-le none = omega arith
table_size-le (some e) = ground arith

pub get_or-total :
    {V : Type 0} (bs : List (List (DictEntry V))) (i : ℕ) → total bs ≡ 0 → get_or bs i [] ≡ []
get_or-total [] i h = refl
get_or-total ([] ∷ bs) zero h = refl
get_or-total ((e ∷ es) ∷ bs) zero h = absurd (omega arith)
get_or-total (b ∷ bs) (suc i) h = get_or-total bs i (omega arith)

-- The rounds do not empty the second table.
abbrev pub Round : {V : Type 0} → (Key → ℕ) → Dict V → Dict V → Type 0
Round hf d d' = IsSame hf d d' × (0 < length d.table1.buckets → 0 < length d'.table1.buckets)

Round-trans :
    {V : Type 0} {hf : Key → ℕ} {a b c : Dict V} → Round hf a b → Round hf b c → Round hf a c
Round-trans p q = (IsSame-trans p.0 q.0, λ h. q.1 (p.1 h))

module _ {V : Type 0} (hf : Key → ℕ) where
  pub same_dict : (d : Dict V) → IsDict hf d → Round hf d d
  same_dict d ok = (record { good = ok; same = λ k. refl; opened = λ h. h }, λ h. h)

  pub with_index :
      (d : Dict V) (r : ℕ)
      → IsDict hf d
      → 0 < length d.table0.buckets
      → 0 < length d.table1.buckets
      → Round hf d (record d { rehash_idx = some r })
  with_index d r ok n0 n1 = (
    record {
      good = record { first = ok.first; second = ok.second; phase = (n0, n1); apart = ok.apart };
      same = λ k. refl;
      opened = λ h. h;
    },
    λ h. h,
  )

  move_bucket-IsSame :
      (d : Dict V) (r : ℕ) (c : List (DictEntry V))
      → IsDict hf d
      → r < length d.table0.buckets
      → 0 < length d.table1.buckets
      → get_or d.table0.buckets r [] ≡ c
      → Round hf d (move_bucket r c d)
  unfolding move_bucket
  move_bucket-IsSame d r c ok n0 n1 at =
      let m =
        move_chain-Moved hf c r d ok n0 n1 (subst (λ c. IsChainHere c) at (ok.first.chains r)) at in
      let d' = move_chain c d in
      let here : r < length d'.table0.buckets = omega (arith, m.length0) in
      let still : set d'.table0.buckets r [] ≡ d'.table0.buckets =
        ap (set d'.table0.buckets r) (sym m.emptied) ∙ set-get_or d'.table0.buckets r [] here in
      Round-trans {a = d} (m.same_values, λ h. subst (λ n. 0 < n) (sym m.length1) h)
        (subst
          (λ bs.
            Round hf d'
              (record d' { table0 = record d'.table0 { buckets = bs }; rehash_idx = some (r + 1) }))
          (sym still)
          (with_index d' (r + 1) m.same_values.good (omega (arith, m.length0))
            (omega (arith, m.length1))))
    where
      IsChainHere : List (DictEntry V) → Type 0
      IsChainHere c = IsChain hf d.table0.size_exp r c

  module _ (fuel n visits : ℕ) (d : Dict V) (ok : IsDict hf d)
      (next : (n visits : ℕ) (d' : Dict V)
        → IsDict hf d'
        → Round hf d' (rehash_loop fuel n visits d')) where
    at_bucket :
        (r : ℕ) (c : List (DictEntry V))
        → d.rehash_idx ≡ some r
        → r < length d.table0.buckets
        → get_or d.table0.buckets r [] ≡ c
        → Round hf d (elim c as (λ c. Dict V) [
          | [] ↦ rehash_loop fuel n (visits - 1) (record d { rehash_idx = some (r + 1) })
          | e ∷ rest ↦ rehash_loop fuel (n - 1) visits (move_bucket r (e ∷ rest) d)
        ])
    at_bucket r [] index within at =
        let phase =
          subst (λ o. InPhase o (length d.table0.buckets) (length d.table1.buckets)) index
            ok.phase in
        let p = with_index d (r + 1) ok phase.0 phase.1 in
        Round-trans p (next n (visits - 1) (record d { rehash_idx = some (r + 1) }) p.0.good)
    at_bucket r (e ∷ rest) index within at =
        let phase =
          subst (λ o. InPhase o (length d.table0.buckets) (length d.table1.buckets)) index
            ok.phase in
        let p = move_bucket-IsSame d r (e ∷ rest) ok within phase.1 at in
        Round-trans p (next (n - 1) visits (move_bucket r (e ∷ rest) d) p.0.good)

    guarded :
        (r : ℕ) (b : Bool)
        → d.rehash_idx ≡ some r
        → (b ≡ true → r < length d.table0.buckets)
        → Round hf d (elim b as (λ b. Dict V) [
          | false ↦ d
          | true ↦ elim (get_or d.table0.buckets r []) as (λ c. Dict V) [
            | [] ↦ rehash_loop fuel n (visits - 1) (record d { rehash_idx = some (r + 1) })
            | e ∷ rest ↦ rehash_loop fuel (n - 1) visits (move_bucket r (e ∷ rest) d)
          ]
        ])
    guarded r false index within = same_dict d ok
    guarded r true index within =
        at_bucket r (get_or d.table0.buckets r []) index (within refl) refl

    rehash_loop-Round_step : Round hf d (rehash_loop (suc fuel) n visits d)
    unfolding rehash_loop
    rehash_loop-Round_step = cases d.rehash_idx refl
      where
        cases :
            (o : Option ℕ)
            → d.rehash_idx ≡ o
            → Round hf d (elim o as (λ o. Dict V) [
              | none ↦ d
              | some r ↦
                  elim (ltb 0 n
                      && (ltb r (table_size d.table0.size_exp)
                          && (ltb 0 d.table0.used && ltb 0 visits)))
                    as (λ b. Dict V) [
                      | false ↦ d
                      | true ↦ elim (get_or d.table0.buckets r []) as (λ c. Dict V) [
                        | [] ↦
                            rehash_loop fuel n (visits - 1) (record d { rehash_idx = some (r + 1) })
                        | e ∷ rest ↦ rehash_loop fuel (n - 1) visits (move_bucket r (e ∷ rest) d)
                      ]
                    ]
            ])
        cases none index = same_dict d ok
        cases (some r) index =
            guarded r
              (ltb 0 n
                && (ltb r (table_size d.table0.size_exp) && (ltb 0 d.table0.used && ltb 0 visits)))
              index
              (λ b.
                let l = table_size-le d.table0.size_exp in let s = ok.first.sized in ground arith)

  rehash_loop-Round :
      (fuel n visits : ℕ) (d : Dict V) → IsDict hf d → Round hf d (rehash_loop fuel n visits d)
  unfolding rehash_loop
  rehash_loop-Round zero n visits d ok = same_dict d ok
  rehash_loop-Round (suc fuel) n visits d ok =
      rehash_loop-Round_step fuel n visits d ok (rehash_loop-Round fuel)

  pub reset-IsTable : IsTable hf (reset {V = V})
  reset-IsTable = record { sized = refl; chains = λ i. tt; counted = refl }

  emptied : (k : Key) (t : HashTable V) → total t.buckets ≡ 0 → table_value hf k t ≡ none
  unfolding chain_at value_in
  emptied k t h = ap (value_in k) (get_or-total t.buckets (hash_index (hf k) t) h)

  migrate-IsSame :
      (d : Dict V)
      → IsDict hf d
      → d.table0.used ≡ 0
      → 0 < length d.table1.buckets
      → IsSame hf d (migrate_rehashed_table d)
  unfolding migrate_rehashed_table
  migrate-IsSame d ok used n1 = record {
    good = record {
      first = ok.second;
      second = reset-IsTable;
      phase = refl;
      apart = λ k. inr (empty_table hf k reset refl);
    };
    same = λ k.
        ap (or_else (table_value hf k d.table1)) (empty_table hf k reset refl)
        ∙ or_none (table_value hf k d.table1)
        ∙ sym (
            ap (λ o. or_else o (table_value hf k d.table1))
              (emptied k d.table0 (sym (ok.first.counted) ∙ used)));
    opened = λ h. n1;
  }
    where
      or_none : (o : Option V) → or_else o none ≡ o
      or_none none = refl
      or_none (some v) = refl

  rehash-IsSame : (n : ℕ) (d : Dict V) → IsDict hf d → IsSame hf d (rehash n d).0
  unfolding rehash
  rehash-IsSame n d ok = cases d.rehash_idx ok.phase
    where
      moved : Dict V
      moved = rehash_loop (n + n * 10) n (n * 10) d

      done :
          (b : Bool)
          → (b ≡ true → moved.table0.used ≡ 0)
          → 0 < length d.table1.buckets
          → IsSame hf d
              (if◌then◌else◌ {A = Dict V × Bool} b
                (migrate_rehashed_table moved, false)
                (moved, true)).0
      done true h n1 =
          let p = rehash_loop-Round (n + n * 10) n (n * 10) d ok in
          IsSame-trans p.0 (migrate-IsSame moved p.0.good (h refl) (p.1 n1))
      done false h n1 = (rehash_loop-Round (n + n * 10) n (n * 10) d ok).0

      cases :
          (o : Option ℕ)
          → InPhase o (length d.table0.buckets) (length d.table1.buckets)
          → IsSame hf d
              (if◌then◌else◌ {A = Dict V × Bool}
                (elim o as (λ r. Bool) [ none ↦ false | some r ↦ true ])
                (if moved.table0.used == 0
                  then (migrate_rehashed_table moved, false)
                  else (moved, true))
                (d, false)).0
      cases none phase = (same_dict d ok).0
      cases (some r) phase = done (moved.table0.used == 0) (λ h. ground arith) phase.1

  pub rehash_step-IsSame : (d : Dict V) → IsDict hf d → IsSame hf d (rehash_step_if_needed d)
  unfolding rehash_step_if_needed
  rehash_step-IsSame d ok = cases (d.pause_rehash == 0)
    where
      cases : (b : Bool) → IsSame hf d (if b then (rehash 1 d).0 else d)
      cases true = rehash-IsSame 1 d ok
      cases false = (same_dict d ok).0

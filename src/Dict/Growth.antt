-- ===== src/Dict/Growth.antt =====
-- memory/dict.h: `Expand` changes no value, and leaves a dictionary with a table.
use redis_simple.Common.{
  ℕ, zero, suc, ◌+◌, ◌-◌, ◌*◌, ◌/◌, ◌^◌, ◌<◌, ◌≡◌, refl, ap, sym, ◌∙◌, subst, arith, Bool, true,
  false, ◌||◌, Option, none, some, List, [], ◌==◌, if◌then◌else◌, length, get_or, replicate,
  length-replicate, eq-nil, ltb, leb, inl, inr,
}
use redis_simple.Common.Keys.{Key}
use redis_simple.Dict.{
  DictEntry, HashTable, Dict, chain_at, hash_index, table_size, next_exp, next_exp_loop,
  initialize_table_with_size, expand_to, expand, expand_if_needed,
}
use redis_simple.Dict.Chain.{value_in, IsChain}
use redis_simple.Dict.Table.{IsTable, table_value, total, capacity, pow_pos}
use redis_simple.Dict.Invariant.{IsDict, InPhase, or_else, empty_table}
use redis_simple.Dict.Rehashing.{IsSame}
use redis_simple.Dict.Rounds.{same_dict}

get_or-replicate :
    {V : Type 0} (n i : ℕ) → ◌≡◌ {A = List (DictEntry V)} (get_or (replicate n []) i []) []
get_or-replicate zero i = refl
get_or-replicate (suc n) zero = refl
get_or-replicate (suc n) (suc i) = get_or-replicate n i

total-replicate : (V : Type 0) (n : ℕ) → total {V = V} (replicate n []) ≡ 0
total-replicate V zero = refl
total-replicate V (suc n) = omega (arith, total-replicate V n)

table_size-some : (e : ℕ) → 0 < table_size (some e) → table_size (some e) ≡ 2 ^ e
unfolding table_size
table_size-some e h = ground arith

length-blank :
    (V : Type 0) (e : ℕ)
    → length (initialize_table_with_size {V = V} e (table_size (some e))).buckets
      ≡ table_size (some e)
unfolding initialize_table_with_size
length-blank V e = length-replicate (table_size (some e)) []

module _ {V : Type 0} (hf : Key → ℕ) where
  abbrev blank : ℕ → HashTable V
  blank e = initialize_table_with_size e (table_size (some e))

  blank-IsTable : (e : ℕ) → 0 < table_size (some e) → IsTable hf (blank e)
  unfolding initialize_table_with_size
  blank-IsTable e h = record {
    sized = length-replicate (table_size (some e)) [] ∙ table_size-some e h;
    chains = λ i. subst (IsChain hf (some e) i) (sym (get_or-replicate (table_size (some e)) i)) tt;
    counted = sym (total-replicate V (table_size (some e)));
  }

  blank-value : (e : ℕ) (k : Key) → table_value hf k (blank e) ≡ none
  unfolding initialize_table_with_size chain_at value_in
  blank-value e k =
      ap (value_in k) (get_or-replicate (table_size (some e)) (hash_index (hf k) (blank e)))

  or_none : (o : Option V) → or_else o none ≡ o
  or_none none = refl
  or_none (some v) = refl

  -- The first table is allocated.
  first_table-IsSame :
      (e : ℕ) (d : Dict V)
      → IsDict hf d
      → 0 < table_size (some e)
      → length d.table0.buckets ≡ 0
      → length d.table1.buckets ≡ 0
      → IsSame hf d (record d { table0 = blank e; rehash_idx = none })
  first_table-IsSame e d ok h n0 n1 = record {
    good = record {
      first = blank-IsTable e h;
      second = ok.second;
      phase = n1;
      apart = λ k. inl (blank-value e k);
    };
    same = λ k.
        ap (λ o. or_else o (table_value hf k d.table1))
          (blank-value e k ∙ sym (empty_table hf k d.table0 n0));
    opened = λ p. absurd (omega arith);
  }

  -- The second table is allocated.
  second_table-IsSame :
      (e : ℕ) (d : Dict V)
      → IsDict hf d
      → 0 < table_size (some e)
      → 0 < length d.table0.buckets
      → length d.table1.buckets ≡ 0
      → IsSame hf d (record d { table1 = blank e; rehash_idx = some 0 })
  second_table-IsSame e d ok h n0 n1 = record {
    good = record {
      first = ok.first;
      second = blank-IsTable e h;
      phase = (n0, subst (λ n. 0 < n) (sym (length-blank V e)) h);
      apart = λ k. inr (blank-value e k);
    };
    same = λ k.
        ap (or_else (table_value hf k d.table0))
          (blank-value e k ∙ sym (empty_table hf k d.table1 n1));
    opened = λ p. p;
  }

  expand_to-IsSame :
      (size e : ℕ) (d : Dict V)
      → IsDict hf d
      → 0 < size
      → d.rehash_idx ≡ none
      → IsSame hf d (expand_to size e d).0
  unfolding expand_to
  expand_to-IsSame size e d ok pos still =
      cases (ltb (table_size (some e)) size || ltb ((2 ^ 64 - 1) / 8) (table_size (some e)))
        (λ b. ground arith) d.table0.size_exp refl
    where
      n1 : length d.table1.buckets ≡ 0
      n1 = subst (λ o. InPhase o (length d.table0.buckets) (length d.table1.buckets)) still ok.phase

      grown :
          (b : Bool) (o : ℕ)
          → 0 < table_size (some e)
          → d.table0.size_exp ≡ some o
          → IsSame hf d
              (if◌then◌else◌ {A = Dict V × Bool} b
                (d, false)
                (record d { table1 = blank e; rehash_idx = some 0 }, true)).0
      grown true o h at = (same_dict hf d ok).0
      grown false o h at =
          second_table-IsSame e d ok h (omega (arith, ok.first.sized, ap capacity at, pow_pos o)) n1

      cases :
          (b : Bool)
          → (b ≡ false → 0 < table_size (some e))
          → (o : Option ℕ) → d.table0.size_exp ≡ o
          → IsSame hf d
              (if◌then◌else◌ {A = Dict V × Bool} b
                (d, false)
                (elim o as (λ o. Dict V × Bool) [
                  | none ↦ (record d { table0 = blank e; rehash_idx = none }, true)
                  | some o ↦
                      if leb e o
                      then (d, false)
                      else (record d { table1 = blank e; rehash_idx = some 0 }, true)
                ])).0
      cases true h o at = (same_dict hf d ok).0
      cases false h none at =
          first_table-IsSame e d ok (h refl) (ok.first.sized ∙ ap capacity at) n1
      cases false h (some o) at = grown (leb e o) o (h refl) at

  pub expand-IsSame :
      (size : ℕ) (d : Dict V) → IsDict hf d → 0 < size → IsSame hf d (expand size d).0
  unfolding expand
  expand-IsSame size d ok pos = cases d.rehash_idx refl
    where
      found :
          (o : Option ℕ)
          → d.rehash_idx ≡ none
          → IsSame hf d
              (elim o as (λ o. Dict V × Bool) [ none ↦ (d, false) | some e ↦ expand_to size e d ]).0
      found none still = (same_dict hf d ok).0
      found (some e) still = expand_to-IsSame size e d ok pos still

      checked :
          (b : Bool)
          → d.rehash_idx ≡ none
          → IsSame hf d
              (if◌then◌else◌ {A = Dict V × Bool} b
                (d, false)
                (elim (next_exp size) as (λ o. Dict V × Bool) [
                  | none ↦ (d, false)
                  | some e ↦ expand_to size e d
                ])).0
      checked true still = (same_dict hf d ok).0
      checked false still = found (next_exp size) still

      cases :
          (o : Option ℕ)
          → d.rehash_idx ≡ o
          → IsSame hf d
              (if◌then◌else◌ {A = Dict V × Bool}
                ((elim o as (λ r. Bool) [ none ↦ false | some r ↦ true ]) || ltb size d.table0.used)
                (d, false)
                (elim (next_exp size) as (λ o. Dict V × Bool) [
                  | none ↦ (d, false)
                  | some e ↦ expand_to size e d
                ])).0
      cases none still = checked (ltb size d.table0.used) still
      cases (some r) still = (same_dict hf d ok).0

  pub expand_if_needed-IsSame : (d : Dict V) → IsDict hf d → IsSame hf d (expand_if_needed d)
  unfolding expand_if_needed
  expand_if_needed-IsSame d ok =
      cases
        (table_size d.table0.size_exp == 0 || leb (2 * table_size d.table0.size_exp) d.table0.used)
    where
      cases : (b : Bool) → IsSame hf d (if b then (expand (d.table0.used + 1) d).0 else d)
      cases true = expand-IsSame (d.table0.used + 1) d ok (omega arith)
      cases false = (same_dict hf d ok).0

  -- The first table of an empty dictionary has two buckets.
  expand_if_needed-empty :
      (d : Dict V) (bs : List (List (DictEntry V)))
      → length
          (expand_if_needed (record d {
            table0 = record { buckets = bs; used = 0; size_exp = none };
            rehash_idx = none;
          })).table0.buckets
        ≡ 2
  unfolding expand_if_needed expand expand_to next_exp next_exp_loop table_size
      initialize_table_with_size
  expand_if_needed-empty d bs = refl

  pub expand_if_needed-length :
      (d : Dict V) → IsDict hf d → 0 < length (expand_if_needed d).table0.buckets
  expand_if_needed-length d ok = cases d.table0.size_exp refl
    where
      cases :
          (o : Option ℕ) → d.table0.size_exp ≡ o → 0 < length (expand_if_needed d).table0.buckets
      cases (some e) at =
          (expand_if_needed-IsSame d ok).opened
            (omega (arith, ok.first.sized, ap capacity at, pow_pos e))
      cases none at =
          let n0 : length d.table0.buckets ≡ 0 = ok.first.sized ∙ ap capacity at in
          let zero_used : d.table0.used ≡ 0 =
            ok.first.counted ∙ ap total (eq-nil d.table0.buckets n0) in
          subst
            (λ o.
              0
              < length
                  (expand_if_needed
                    (record d { table0 = record d.table0 { size_exp = o } })).table0.buckets)
            (sym at)
            (subst
              (λ u.
                0
                < length
                    (expand_if_needed (record d {
                      table0 = record d.table0 { used = u; size_exp = none };
                    })).table0.buckets)
              (sym zero_used) (idle d.rehash_idx n0 ok.phase))
        where
          idle :
              (r : Option ℕ)
              → length d.table0.buckets ≡ 0
              → InPhase r (length d.table0.buckets) (length d.table1.buckets)
              → 0
                < length
                    (expand_if_needed (record d {
                      table0 = record d.table0 { used = 0; size_exp = none };
                      rehash_idx = r;
                    })).table0.buckets
          idle none n0 phase =
              subst (λ n. 0 < n) (sym (expand_if_needed-empty d d.table0.buckets)) (omega arith)
          idle (some r) n0 phase = absurd (omega (arith, phase.0))

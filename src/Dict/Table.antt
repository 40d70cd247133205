-- ===== src/Dict/Table.antt =====
-- memory/dict.h: one table.
use redis_simple.Common.{
  ℕ, zero, suc, ◌+◌, ◌^◌, ◌<◌, ◌≡◌, ap, sym, ◌∙◌, subst, arith, false, Option, none, some, List, [],
  ◌∷◌, ◌==◌, if◌then◌else◌, length, get_or, set, get_or-set_same, get_or-set_other, Bool-cases, inl,
  inr,
}
use redis_simple.Common.Keys.{Key, same_key, same_key-eq}
use redis_simple.Dict.{DictEntry, HashTable, masked, hash_index, chain_at}
use redis_simple.Dict.Chain.{value_in, IsChain}
use native.Mathlib.Nat.{mod-lt, pow-suc}

-- The number of entries.
abbrev pub total : {V : Type 0} → List (List (DictEntry V)) → ℕ
total [] = 0
total (c ∷ cs) = length c + total cs

abbrev pub capacity : Option ℕ → ℕ
capacity none = 0
capacity (some e) = 2 ^ e

pub record IsTable {V : Type 0} (hf : Key → ℕ) (t : HashTable V) : Type 0 where
  pub sized : length t.buckets ≡ capacity t.size_exp
  pub chains : (i : ℕ) → IsChain hf t.size_exp i (get_or t.buckets i [])
  pub counted : t.used ≡ total t.buckets

-- The value of a key in a table.
abbrev pub table_value : {V : Type 0} → (Key → ℕ) → Key → HashTable V → Option V
table_value hf k t = value_in k (chain_at (hf k) t)

total-set :
    {V : Type 0} (bs : List (List (DictEntry V))) (i : ℕ) (c : List (DictEntry V))
    → i < length bs
    → total (set bs i c) + length (get_or bs i []) ≡ total bs + length c
total-set [] i c h = absurd (omega arith)
total-set (b ∷ bs) zero c h = omega arith
total-set (b ∷ bs) (suc i) c h = omega (arith, total-set bs i c (omega arith))

pub pow_pos : (e : ℕ) → 0 < 2 ^ e
pow_pos zero = omega arith
pow_pos (suc e) = omega (arith, pow-suc 2 e, pow_pos e)

pub masked-lt : (h : ℕ) (exp : Option ℕ) → 0 < capacity exp → masked h exp < capacity exp
unfolding masked
masked-lt h none p = absurd (omega arith)
masked-lt h (some e) p = mod-lt h (pow_pos e)

-- A chain written at a hash.
abbrev pub rewritten :
    {V : Type 0} → HashTable V → ℕ → List (DictEntry V) → List (List (DictEntry V))
rewritten t h c = set t.buckets (hash_index h t) c

module _ {V : Type 0} (hf : Key → ℕ) (t : HashTable V) (ok : IsTable hf t) where
  module _ (h : ℕ) (c : List (DictEntry V)) (nonempty : 0 < length t.buckets) where
    within : hash_index h t < length t.buckets
    within = omega (arith, ok.sized, masked-lt h t.size_exp (omega (arith, ok.sized)))

    pub rewritten-total :
        total (rewritten t h c) + length (chain_at h t) ≡ total t.buckets + length c
    unfolding chain_at
    rewritten-total = total-set t.buckets (hash_index h t) c within

    pub rewritten-chains :
        IsChain hf t.size_exp (hash_index h t) c
        → (i : ℕ) → IsChain hf t.size_exp i (get_or (rewritten t h c) i [])
    rewritten-chains good i = elim (Bool-cases (hash_index h t == i)) [
      | inl e ↦
          let q : hash_index h t ≡ i = ground arith in
          subst (λ i. IsChain hf t.size_exp i (get_or (rewritten t h c) i [])) q
            (subst (IsChain hf t.size_exp (hash_index h t))
              (sym (get_or-set_same t.buckets (hash_index h t) c [] within)) good)
      | inr n ↦
          subst (IsChain hf t.size_exp i)
            (sym (get_or-set_other t.buckets (hash_index h t) i c [] (λ q. ground arith)))
            (ok.chains i)
    ]

  pub chain_at-IsChain : (h : ℕ) → IsChain hf t.size_exp (hash_index h t) (chain_at h t)
  unfolding chain_at
  chain_at-IsChain h = ok.chains (hash_index h t)

  -- What is found after a write at the hash of a key that changes only what is found under it.
  pub rewritten-value :
      (k j : Key) (c : List (DictEntry V)) (o : Option V) (used : ℕ)
      → 0 < length t.buckets
      → value_in j c ≡ (if same_key j k then o else value_in j (chain_at (hf k) t))
      → table_value hf j (record t { buckets = rewritten t (hf k) c; used = used })
        ≡ (if same_key j k then o else table_value hf j t)
  unfolding chain_at
  rewritten-value k j c o used nonempty h =
      elim (Bool-cases (hash_index (hf k) t == hash_index (hf j) t)) [
        | inl e ↦
            let q : hash_index (hf k) t ≡ hash_index (hf j) t = ground arith in
            let here =
              get_or-set_same t.buckets (hash_index (hf k) t) c [] (within (hf k) c nonempty) in
            ap (λ i. value_in j (get_or (rewritten t (hf k) c) i [])) (sym q)
            ∙ ap (value_in j) here
            ∙ h
            ∙ ap (λ i. if same_key j k then o else value_in j (get_or t.buckets i [])) q
        | inr n ↦
            let other =
              get_or-set_other t.buckets (hash_index (hf k) t) (hash_index (hf j) t) c []
                (λ q. ground arith) in
            let apart : same_key j k ≡ false = differs n in rw apart (ap (value_in j) other)
      ]
    where
      differs : (hash_index (hf k) t == hash_index (hf j) t) ≡ false → same_key j k ≡ false
      differs n = elim (Bool-cases (same_key j k)) [
        | inl same ↦
            let q : hash_index (hf k) t ≡ hash_index (hf j) t =
              ap (λ k. hash_index (hf k) t) (sym (same_key-eq j k same)) in
            absurd (ground arith)
        | inr apart ↦ apart
      ]

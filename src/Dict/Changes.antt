-- ===== src/Dict/Changes.antt =====
-- memory/dict.h: what the changes of a table do to what is found in it.
use redis_simple.Common.{
  ℕ, ◌+◌, ◌-◌, ◌≤◌, ◌<◌, ◌≡◌, refl, ap, sym, ◌∙◌, subst, arith, Bool, true, false, none, some, List,
  [], ◌∷◌, if◌then◌else◌, length, length-set,
}
use redis_simple.Common.Keys.{Key, same_key, same_key-eq}
use redis_simple.Dict.{
  DictEntry, HashTable, hash_index, chain_at, insert_entry, unlink_head, write_chain, set_found,
  unlink_entry, set_val_chain, unlink_chain,
}
use redis_simple.Dict.Chain.{
  value_in, IsChain, unlink_chain-value, set_val_chain-value, unlink_chain-IsChain,
  set_val_chain-IsChain, length-set_val_chain, length-unlink_chain,
}
use redis_simple.Dict.Table.{
  IsTable, chain_at-IsChain, table_value, rewritten, rewritten-total, rewritten-chains,
  rewritten-value,
}

module _ {V : Type 0} (hf : Key → ℕ) (t : HashTable V) (ok : IsTable hf t)
    (nonempty : 0 < length t.buckets) where
  at_most : (h : ℕ) → length (chain_at h t) ≤ t.used
  at_most h = omega (arith, rewritten-total hf t ok h [] nonempty, ok.counted)

  -- A table whose chain at a hash is written again.
  rewritten-IsTable :
      (h : ℕ) (c : List (DictEntry V)) (used : ℕ)
      → IsChain hf t.size_exp (hash_index h t) c
      → used + length (chain_at h t) ≡ t.used + length c
      → IsTable hf (record t { buckets = rewritten t h c; used = used })
  rewritten-IsTable h c used good count = record {
    sized = length-set t.buckets (hash_index h t) c ∙ ok.sized;
    chains = rewritten-chains hf t ok h c nonempty good;
    counted = omega (arith, rewritten-total hf t ok h c nonempty, ok.counted);
  }

  module _ (e : DictEntry V) (hashed : e.hash ≡ hf e.key) where
    pub insert_entry-IsTable : table_value hf e.key t ≡ none → IsTable hf (insert_entry e t)
    unfolding insert_entry chain_at
    insert_entry-IsTable absent =
        rewritten-IsTable e.hash (e ∷ chain_at e.hash t) (t.used + 1)
          (
            hashed,
            refl,
            subst (λ h. value_in e.key (chain_at h t) ≡ none) (sym hashed) absent,
            chain_at-IsChain hf t ok e.hash,
          )
          (omega arith)

    pub insert_entry-value :
        (j : Key)
        → table_value hf j (insert_entry e t)
          ≡ (if same_key j e.key then some e.val else table_value hf j t)
    unfolding insert_entry chain_at value_in
    insert_entry-value j =
        subst
          (λ h.
            table_value hf j
              (record t { buckets = rewritten t h (e ∷ chain_at h t); used = t.used + 1 })
            ≡ (if same_key j e.key then some e.val else table_value hf j t))
          (sym hashed)
          (rewritten-value hf t ok e.key j (e ∷ chain_at (hf e.key) t) (some e.val) (t.used + 1)
            nonempty refl)

    module _ (rest : List (DictEntry V)) (head : chain_at e.hash t ≡ e ∷ rest) where
      whole : IsChain hf t.size_exp (hash_index e.hash t) (e ∷ rest)
      whole =
          subst (IsChain hf t.size_exp (hash_index e.hash t)) head (chain_at-IsChain hf t ok e.hash)

      pub unlink_head-IsTable : IsTable hf (unlink_head e rest t)
      unfolding unlink_head
      unlink_head-IsTable =
          rewritten-IsTable e.hash rest (t.used - 1) whole.3
            (omega (arith, at_most e.hash, ap length head))

      pub unlink_head-value :
          (j : Key)
          → table_value hf j (unlink_head e rest t)
            ≡ (if same_key j e.key then none else table_value hf j t)
      unfolding unlink_head value_in
      unlink_head-value j =
          subst
            (λ h.
              chain_at h t ≡ e ∷ rest
              → table_value hf j (record t { buckets = rewritten t h rest; used = t.used - 1 })
                ≡ (if same_key j e.key then none else table_value hf j t))
            (sym hashed)
            (λ chain. rewritten-value hf t ok e.key j rest none (t.used - 1) nonempty (
              rw chain (
                rest_value (same_key j e.key)
                  (λ same. ap (λ k. value_in k rest) (same_key-eq j e.key same) ∙ whole.2))))
            head
        where
          rest_value :
              (b : Bool)
              → (b ≡ true → value_in j rest ≡ none)
              → value_in j rest ≡ (if b then none else if b then some e.val else value_in j rest)
          rest_value true n = n refl
          rest_value false n = refl

  module _ (k : Key) (old : V) (found : table_value hf k t ≡ some old) where
    pub set_found-IsTable : (v : V) → IsTable hf (set_found k (hf k) v t)
    unfolding set_found write_chain
    set_found-IsTable v =
        rewritten-IsTable (hf k) (set_val_chain k (hf k) v (chain_at (hf k) t)) t.used
          (set_val_chain-IsChain hf t.size_exp k v (hash_index (hf k) t) (chain_at (hf k) t)
            (chain_at-IsChain hf t ok (hf k)))
          (omega (arith, length-set_val_chain hf k (hf k) v (chain_at (hf k) t)))

    pub set_found-value :
        (v : V) (j : Key)
        → table_value hf j (set_found k (hf k) v t)
          ≡ (if same_key j k then some v else table_value hf j t)
    unfolding set_found write_chain
    set_found-value v j =
        rewritten-value hf t ok k j (set_val_chain k (hf k) v (chain_at (hf k) t)) (some v) t.used
          nonempty
          (set_val_chain-value hf t.size_exp j k v (hash_index (hf k) t) (chain_at (hf k) t) old
            (chain_at-IsChain hf t ok (hf k)) found)

    pub unlink_entry-IsTable : IsTable hf (unlink_entry k (hf k) t)
    unfolding unlink_entry write_chain
    unlink_entry-IsTable =
        rewritten-IsTable (hf k) (unlink_chain k (hf k) (chain_at (hf k) t)) (t.used - 1)
          (unlink_chain-IsChain hf t.size_exp k (hash_index (hf k) t) (chain_at (hf k) t)
            (chain_at-IsChain hf t ok (hf k)))
          (omega (
            arith,
            at_most (hf k),
            length-unlink_chain hf t.size_exp k (hash_index (hf k) t) (chain_at (hf k) t) old
                (chain_at-IsChain hf t ok (hf k)) found,
          ))

    pub unlink_entry-value :
        (j : Key)
        → table_value hf j (unlink_entry k (hf k) t)
          ≡ (if same_key j k then none else table_value hf j t)
    unfolding unlink_entry write_chain
    unlink_entry-value j =
        rewritten-value hf t ok k j (unlink_chain k (hf k) (chain_at (hf k) t)) none (t.used - 1)
          nonempty
          (unlink_chain-value hf t.size_exp j k (hash_index (hf k) t) (chain_at (hf k) t)
            (chain_at-IsChain hf t ok (hf k)))

    -- The entry that is taken out is counted out.
    pub unlink_entry-used : (unlink_entry k (hf k) t).used + 1 ≡ t.used
    unfolding unlink_entry write_chain
    unlink_entry-used = omega (
      arith,
      at_most (hf k),
      length-unlink_chain hf t.size_exp k (hash_index (hf k) t) (chain_at (hf k) t) old
          (chain_at-IsChain hf t ok (hf k)) found,
    )

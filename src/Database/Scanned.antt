-- ===== src/Database/Scanned.antt =====
-- memory/dict.h: what `Scan` visits, against the table that a dictionary stands for.
use redis_simple.Common.{
  ℕ, ◌+◌, ◌<◌, ◌≡◌, refl, ap, sym, ◌∙◌, arith, Bool, true, false, Option, none, some, List, [], ◌∷◌,
  max, if◌then◌else◌, length, get_or, All, All-append, All-map, inl, inr, ◌⊎◌,
}
use redis_simple.Common.Keys.{Key, same_key, same_key-eq, same_key_refl}
use redis_simple.Dict.{Dict, DictEntry, HashTable, masked, chain_at, scan, is_rehashing}
use redis_simple.Dict.Chain.{value_in, IsChain}
use redis_simple.Dict.Table.{IsTable, table_value}
use redis_simple.Dict.Invariant.{or_else}
use redis_simple.Database.Dictionary.{Table, find_value}
use redis_simple.Database.Represents.{Represents, Represents-SameValues}

module _ {V : Type 0} (hf : Key → ℕ) where
  -- Every entry of a chain is found in it, and its key belongs there.
  entries_of :
      (exp : Option ℕ) (i : ℕ) (c : List (DictEntry V))
      → IsChain hf exp i c
      → All (λ e. (value_in e.key c ≡ some e.val) × (masked (hf e.key) exp ≡ i)) c
  unfolding value_in
  entries_of exp i [] h = tt
  entries_of exp i (e ∷ es) h = (
    (rw (same_key_refl e.key) refl, ap (λ n. masked n exp) (sym h.0) ∙ h.1),
    All-map (λ x p. (behind x p.0 (same_key x.key e.key) refl, p.1)) es (entries_of exp i es h.3),
  )
    where
      behind :
          (x : DictEntry V)
          → value_in x.key es ≡ some x.val
          → (b : Bool) → same_key x.key e.key ≡ b
          → (if b then some e.val else value_in x.key es) ≡ some x.val
      behind x p false q = p
      behind x p true q =
          let there : value_in e.key es ≡ some x.val =
            ap (λ k. value_in k es) (sym (same_key-eq x.key e.key q)) ∙ p in
          absurd (clash (value_in e.key es) x.val h.2 there)
        where
          clash : (o : Option V) (v : V) → o ≡ none → o ≡ some v → ⊥
          clash o v p q = ground arith

  bucket_of :
      (t : HashTable V) (i : ℕ)
      → IsTable hf t
      → All (λ e. table_value hf e.key t ≡ some e.val) (get_or t.buckets i [])
  unfolding chain_at
  bucket_of t i ok =
      All-map (λ e p. ap (λ j. value_in e.key (get_or t.buckets j [])) p.1 ∙ p.0)
        (get_or t.buckets i []) (entries_of t.size_exp i (get_or t.buckets i []) (ok.chains i))

  in_second : (o p : Option V) (v : V) → p ≡ some v → (o ≡ none) ⊎ (p ≡ none) → or_else o p ≡ some v
  in_second o p v e (inl n) = ap (λ o. or_else o p) n ∙ e
  in_second o p v e (inr n) = absurd (ground arith)

  pub scan-Represents :
      (cursor : ℕ) (d : Dict V) (t : Table V)
      → Represents hf d t
      → All (λ e. find_value e.key t ≡ some e.val) (scan cursor d).0
        × ((next : ℕ)
            → (scan cursor d).1 ≡ some next
            → (next ≡ cursor + 1)
              × (next < max (length d.table0.buckets) (length d.table1.buckets)))
  unfolding scan
  scan-Represents cursor d t r =
      let p = Represents-SameValues hf d t r in
      let first =
        All-map (λ e q. sym (p.same e.key) ∙ ap (λ o. or_else o (table_value hf e.key d.table1)) q)
          (get_or d.table0.buckets cursor []) (bucket_of d.table0 cursor p.good.first) in
      let second =
        All-map
          (λ e q.
            sym (p.same e.key)
            ∙ in_second (table_value hf e.key d.table0) (table_value hf e.key d.table1) e.val q
                (p.good.apart e.key))
          (get_or d.table1.buckets cursor []) (bucket_of d.table1 cursor p.good.second) in
      (
        All-append (λ e. find_value e.key t ≡ some e.val) (get_or d.table0.buckets cursor [])
            (if is_rehashing d then get_or d.table1.buckets cursor [] else []) first
            (either (is_rehashing d) second),
        λ next e. ground arith,
      )
    where
      either :
          (b : Bool)
          → All (λ e. find_value e.key t ≡ some e.val) (get_or d.table1.buckets cursor [])
          → All
              (λ e. find_value e.key t ≡ some e.val)
              (if b then get_or d.table1.buckets cursor [] else [])
      either true h = h
      either false h = tt

-- ===== src/Dict/Chain.antt =====
-- memory/dict.h: the chain of a bucket.
use redis_simple.Common.{
  ℕ, ◌+◌, ◌≡◌, refl, ap, sym, ◌∙◌, arith, Bool, true, false, ◌&&◌, Option, none, some, List, [],
  ◌∷◌, ◌==◌, if◌then◌else◌, length, Bool-cases, inl, inr,
}
use redis_simple.Common.Keys.{Key, same_key, same_key-eq}
use redis_simple.Dict.{
  DictEntry, is_entry_of, search_chain, unlink_chain, set_val_chain, masked, value_of,
}

-- The value of a key in a chain.
unfoldable pub value_in : {V : Type 0} → Key → List (DictEntry V) → Option V
value_in k [] = none
value_in k (e ∷ es) = let rest = value_in k es in if same_key k e.key then some e.val else rest

-- The entries of bucket `i` have their hash, belong there, and no two have one key.
abbrev pub IsChain : {V : Type 0} → (Key → ℕ) → Option ℕ → ℕ → List (DictEntry V) → Type 0
IsChain hf exp i [] = Unit
IsChain hf exp i (e ∷ es) =
    (e.hash ≡ hf e.key) × (masked e.hash exp ≡ i) × (value_in e.key es ≡ none) × IsChain hf exp i es

module _ {V : Type 0} (hf : Key → ℕ) where
  pub is_entry_lem :
      (k : Key) (e : DictEntry V) → e.hash ≡ hf e.key → is_entry_of k (hf k) e ≡ same_key k e.key
  is_entry_lem k e h = elim (Bool-cases (same_key k e.key)) [
    | inl same ↦
        let eq : e.hash ≡ hf k = h ∙ ap hf (sym (same_key-eq k e.key same)) in
        let t : (e.hash == hf k) ≡ true = ground arith in rw (t, same) refl
    | inr other ↦ rw other (and_false (e.hash == hf k))
  ]
    where
      and_false : (b : Bool) → (b && false) ≡ false
      and_false true = refl
      and_false false = refl

  pub search_chain-value :
      (exp : Option ℕ) (k : Key) (i : ℕ) (c : List (DictEntry V))
      → IsChain hf exp i c
      → value_of (search_chain k (hf k) c) ≡ value_in k c
  unfolding search_chain value_in
  search_chain-value exp k i [] h = refl
  search_chain-value exp k i (e ∷ es) h =
      rw (is_entry_lem k e h.0, search_chain)
        (either (same_key k e.key) (search_chain-value exp k i es h.3))
    where
      either :
          (b : Bool)
          → value_of (search_chain k (hf k) es) ≡ value_in k es
          → value_of (if b then some e else search_chain k (hf k) es)
            ≡ (if b then some e.val else value_in k es)
      either true ih = refl
      either false ih = ih

  pub unlink_chain-value :
      (exp : Option ℕ) (j k : Key) (i : ℕ) (c : List (DictEntry V))
      → IsChain hf exp i c
      → value_in j (unlink_chain k (hf k) c) ≡ (if same_key j k then none else value_in j c)
  unfolding unlink_chain value_in
  unlink_chain-value exp j k i [] h = either (same_key j k)
    where
      either : (b : Bool) → ◌≡◌ {A = Option V} none (if b then none else none)
      either true = refl
      either false = refl
  unlink_chain-value exp j k i (e ∷ es) h = elim (Bool-cases (same_key k e.key)) [
    | inl here ↦
        let ke = same_key-eq k e.key here in
        rw (is_entry_lem k e h.0, unlink_chain, here)
          (first (same_key j k) (same_key j e.key) (ap (same_key j) ke)
            (λ t. ap (λ k. value_in k es) (same_key-eq j k t ∙ ke) ∙ h.2))
    | inr there ↦
        rw (is_entry_lem k e h.0, unlink_chain, there)
          (behind (same_key j k) (same_key j e.key) (unlink_chain-value exp j k i es h.3)
            (λ t. ap (λ j. same_key j e.key) (same_key-eq j k t) ∙ there))
  ]
    where
      first :
          (a b : Bool)
          → a ≡ b
          → (a ≡ true → value_in j es ≡ none)
          → value_in j es ≡ (if a then none else if b then some e.val else value_in j es)
      first true b q n = n refl
      first false true q n = absurd (ground arith)
      first false false q n = refl

      behind :
          (a b : Bool)
          → value_in j (unlink_chain k (hf k) es) ≡ (if a then none else value_in j es)
          → (a ≡ true → b ≡ false)
          → (if b then some e.val else value_in j (unlink_chain k (hf k) es))
            ≡ (if a then none else if b then some e.val else value_in j es)
      behind true b ih q = rw (q refl) ih
      behind false true ih q = refl
      behind false false ih q = ih

  pub set_val_chain-value :
      (exp : Option ℕ) (j k : Key) (v : V) (i : ℕ) (c : List (DictEntry V)) (old : V)
      → IsChain hf exp i c
      → value_in k c ≡ some old
      → value_in j (set_val_chain k (hf k) v c) ≡ (if same_key j k then some v else value_in j c)
  unfolding set_val_chain value_in
  set_val_chain-value exp j k v i [] old h found = absurd (ground arith)
  set_val_chain-value exp j k v i (e ∷ es) old h found = elim (Bool-cases (same_key k e.key)) [
    | inl here ↦
        rw (is_entry_lem k e h.0, set_val_chain, here)
          (first (same_key j k) (same_key j e.key) (ap (same_key j) (same_key-eq k e.key here)))
    | inr there ↦
        let found' : value_in k es ≡ some old =
          ap (λ b. if b then some e.val else value_in k es) (sym there) ∙ found in
        rw (is_entry_lem k e h.0, set_val_chain, there)
          (behind (same_key j k) (same_key j e.key)
            (set_val_chain-value exp j k v i es old h.3 found')
            (λ t. ap (λ j. same_key j e.key) (same_key-eq j k t) ∙ there))
  ]
    where
      first :
          (a b : Bool)
          → a ≡ b
          → (if b then some v else value_in j es)
            ≡ (if a then some v else if b then some e.val else value_in j es)
      first true true q = refl
      first true false q = absurd (ground arith)
      first false true q = absurd (ground arith)
      first false false q = refl

      behind :
          (a b : Bool)
          → value_in j (set_val_chain k (hf k) v es) ≡ (if a then some v else value_in j es)
          → (a ≡ true → b ≡ false)
          → (if b then some e.val else value_in j (set_val_chain k (hf k) v es))
            ≡ (if a then some v else if b then some e.val else value_in j es)
      behind true b ih q = rw (q refl) ih
      behind false true ih q = refl
      behind false false ih q = ih

  pub unlink_chain-IsChain :
      (exp : Option ℕ) (k : Key) (i : ℕ) (c : List (DictEntry V))
      → IsChain hf exp i c
      → IsChain hf exp i (unlink_chain k (hf k) c)
  unfolding unlink_chain
  unlink_chain-IsChain exp k i [] h = tt
  unlink_chain-IsChain exp k i (e ∷ es) h = elim (Bool-cases (is_entry_of k (hf k) e)) [
    | inl here ↦ rw (here, unlink_chain) h.3
    | inr there ↦
        rw (there, unlink_chain)
          (h.0, h.1, absent (same_key e.key k), unlink_chain-IsChain exp k i es h.3)
  ]
    where
      absent : Bool → value_in e.key (unlink_chain k (hf k) es) ≡ none
      absent b =
          unlink_chain-value exp e.key k i es h.3 ∙ still (same_key e.key k) (value_in e.key es) h.2
        where
          still : (b : Bool) (o : Option V) → o ≡ none → (if b then none else o) ≡ none
          still true o q = refl
          still false o q = q

  set_val_chain-absent :
      (j k : Key) (h : ℕ) (v : V) (c : List (DictEntry V))
      → value_in j c ≡ none
      → value_in j (set_val_chain k h v c) ≡ none
  unfolding set_val_chain value_in
  set_val_chain-absent j k h v [] q = refl
  set_val_chain-absent j k h v (e ∷ es) q =
      let (other, rest) = skipped (same_key j e.key) (value_in j es) q in
      let ih = set_val_chain-absent j k h v es rest in
      elim (Bool-cases (is_entry_of k h e)) [
        | inl here ↦ rw (here, set_val_chain, other) rest
        | inr there ↦ rw (there, set_val_chain, other) ih
      ]
    where
      skipped :
          (b : Bool) (o : Option V)
          → (if b then some e.val else o) ≡ none
          → (b ≡ false) × (o ≡ none)
      skipped true o q = absurd (ground arith)
      skipped false o q = (refl, q)

  pub set_val_chain-IsChain :
      (exp : Option ℕ) (k : Key) (v : V) (i : ℕ) (c : List (DictEntry V))
      → IsChain hf exp i c
      → IsChain hf exp i (set_val_chain k (hf k) v c)
  unfolding set_val_chain
  set_val_chain-IsChain exp k v i [] h = tt
  set_val_chain-IsChain exp k v i (e ∷ es) h = elim (Bool-cases (is_entry_of k (hf k) e)) [
    | inl here ↦ rw (here, set_val_chain) h
    | inr there ↦
        rw (there, set_val_chain)
          (
            h.0,
            h.1,
            set_val_chain-absent e.key k (hf k) v es h.2,
            set_val_chain-IsChain exp k v i es h.3,
          )
  ]

  pub length-set_val_chain :
      (k : Key) (h : ℕ) (v : V) (c : List (DictEntry V)) → length (set_val_chain k h v c) ≡ length c
  unfolding set_val_chain
  length-set_val_chain k h v [] = refl
  length-set_val_chain k h v (e ∷ es) = ground (arith, length-set_val_chain k h v es)

  pub length-unlink_chain :
      (exp : Option ℕ) (k : Key) (i : ℕ) (c : List (DictEntry V)) (old : V)
      → IsChain hf exp i c
      → value_in k c ≡ some old
      → length (unlink_chain k (hf k) c) + 1 ≡ length c
  unfolding unlink_chain value_in
  length-unlink_chain exp k i [] old h found = absurd (ground arith)
  length-unlink_chain exp k i (e ∷ es) old h found = elim (Bool-cases (same_key k e.key)) [
    | inl here ↦ rw (is_entry_lem k e h.0, unlink_chain, here) (omega arith)
    | inr there ↦
        let found' : value_in k es ≡ some old =
          ap (λ b. if b then some e.val else value_in k es) (sym there) ∙ found in
        rw (is_entry_lem k e h.0, unlink_chain, there)
          (omega (arith, length-unlink_chain exp k i es old h.3 found'))
  ]

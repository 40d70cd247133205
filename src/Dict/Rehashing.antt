-- ===== src/Dict/Rehashing.antt =====
-- memory/dict.h: `Rehash` moves entries and changes no value.
use redis_simple.Common.{
  ℕ, ◌<◌, ◌≡◌, refl, ap, sym, ◌∙◌, subst, arith, Bool, true, false, Option, none, some, List, [],
  ◌∷◌, if◌then◌else◌, length, get_or, set, length-set, get_or-set_same, Bool-cases, inl, inr, ◌⊎◌,
}
use redis_simple.Common.Keys.{Key, same_key, same_key_refl, same_key-eq}
use redis_simple.Dict.{
  DictEntry, HashTable, Dict, hash_index, chain_at, insert_entry, unlink_head, move_chain,
}
use redis_simple.Dict.Chain.{value_in, IsChain}
use redis_simple.Dict.Table.{table_value}
use redis_simple.Dict.Changes.{
  insert_entry-IsTable, insert_entry-value, unlink_head-IsTable, unlink_head-value,
}
use redis_simple.Dict.Invariant.{IsDict, InPhase, value, or_else}

-- `d'` is a dictionary with the values of `d`.
pub record IsSame {V : Type 0} (hf : Key → ℕ) (d d' : Dict V) : Type 0 where
  pub good : IsDict hf d'
  pub same : (k : Key) → value hf k d' ≡ value hf k d
  pub opened : 0 < length d.table0.buckets → 0 < length d'.table0.buckets

pub IsSame-trans :
    {V : Type 0} {hf : Key → ℕ} {a b c : Dict V} → IsSame hf a b → IsSame hf b c → IsSame hf a c
IsSame-trans p q = record {
  good = q.good;
  same = λ k. q.same k ∙ p.same k;
  opened = λ h. q.opened (p.opened h);
}

module _ {V : Type 0} (hf : Key → ℕ) where
  abbrev move_entry : DictEntry V → List (DictEntry V) → Dict V → Dict V
  move_entry e rest d = record d {
    table0 = unlink_head e rest d.table0;
    table1 = insert_entry e d.table1;
  }

  module _ (e : DictEntry V) (rest : List (DictEntry V)) (d : Dict V) (ok : IsDict hf d)
      (n0 : 0 < length d.table0.buckets) (n1 : 0 < length d.table1.buckets)
      (hashed : e.hash ≡ hf e.key) (head : chain_at e.hash d.table0 ≡ e ∷ rest) where
    here : table_value hf e.key d.table0 ≡ some e.val
    unfolding value_in
    here =
        ap (λ h. value_in e.key (chain_at h d.table0)) (sym hashed)
        ∙ ap (value_in e.key) head
        ∙ ap (λ b. if b then some e.val else value_in e.key rest) (same_key_refl e.key)

    not_there : table_value hf e.key d.table1 ≡ none
    not_there = elim (ok.apart e.key) [
      | inl n ↦ absurd (conflict (table_value hf e.key d.table0) n here)
      | inr n ↦ n
    ]
      where
        conflict : (o : Option V) → o ≡ none → o ≡ some e.val → ⊥
        conflict o p q = ground arith

    taken :
        (j : Key)
        → table_value hf j (unlink_head e rest d.table0)
          ≡ (if same_key j e.key then none else table_value hf j d.table0)
    taken j = unlink_head-value hf d.table0 ok.first n0 e hashed rest head j

    given :
        (j : Key)
        → table_value hf j (insert_entry e d.table1)
          ≡ (if same_key j e.key then some e.val else table_value hf j d.table1)
    given j = insert_entry-value hf d.table1 ok.second n1 e hashed j

    move_entry-value : (j : Key) → value hf j (move_entry e rest d) ≡ value hf j d
    move_entry-value j =
        rw (taken j, given j)
          (moved (same_key j e.key) (table_value hf j d.table0) (table_value hf j d.table1)
            (λ s. ap (λ k. table_value hf k d.table0) (same_key-eq j e.key s) ∙ here))
      where
        moved :
            (b : Bool) (x y : Option V)
            → (b ≡ true → x ≡ some e.val)
            → or_else (if b then none else x) (if b then some e.val else y) ≡ or_else x y
        moved true x y h = rw (h refl) refl
        moved false x y h = refl

    move_entry-apart :
        (j : Key)
        → (table_value hf j (unlink_head e rest d.table0) ≡ none)
          ⊎ (table_value hf j (insert_entry e d.table1) ≡ none)
    move_entry-apart j = elim (Bool-cases (same_key j e.key)) [
      | inl s ↦ inl (taken j ∙ rw s refl)
      | inr s ↦ elim (ok.apart j) [
        | inl n ↦ inl (taken j ∙ rw s n)
        | inr n ↦ inr (given j ∙ rw s n)
      ]
    ]

    move_entry-IsDict : IsDict hf (move_entry e rest d)
    unfolding unlink_head insert_entry
    move_entry-IsDict = record {
      first = unlink_head-IsTable hf d.table0 ok.first n0 e hashed rest head;
      second = insert_entry-IsTable hf d.table1 ok.second n1 e hashed not_there;
      phase =
          subst (λ n. InPhase d.rehash_idx n (length (insert_entry e d.table1).buckets))
            (sym (length-set d.table0.buckets (hash_index e.hash d.table0) rest))
            (subst (λ n. InPhase d.rehash_idx (length d.table0.buckets) n)
              (sym (
                length-set d.table1.buckets (hash_index e.hash d.table1)
                  (e ∷ get_or d.table1.buckets (hash_index e.hash d.table1) [])))
              ok.phase);
      apart = move_entry-apart;
    }

  head_at :
      (e : DictEntry V) (rest : List (DictEntry V)) (r : ℕ) (d : Dict V)
      → IsChain hf d.table0.size_exp r (e ∷ rest)
      → get_or d.table0.buckets r [] ≡ e ∷ rest
      → chain_at e.hash d.table0 ≡ e ∷ rest
  unfolding chain_at
  head_at e rest r d chain at = ap (λ i. get_or d.table0.buckets i []) chain.1 ∙ at

  next_at :
      (e : DictEntry V) (rest : List (DictEntry V)) (r : ℕ) (d : Dict V)
      → r < length d.table0.buckets
      → IsChain hf d.table0.size_exp r (e ∷ rest)
      → get_or (unlink_head e rest d.table0).buckets r [] ≡ rest
  unfolding unlink_head
  next_at e rest r d n0 chain =
      ap (λ i. get_or (set d.table0.buckets i rest) r []) chain.1
      ∙ get_or-set_same d.table0.buckets r rest [] n0

  length_unlinked :
      (e : DictEntry V) (rest : List (DictEntry V)) (t : HashTable V)
      → length (unlink_head e rest t).buckets ≡ length t.buckets
  unfolding unlink_head
  length_unlinked e rest t = length-set t.buckets (hash_index e.hash t) rest

  length_inserted :
      (e : DictEntry V) (t : HashTable V) → length (insert_entry e t).buckets ≡ length t.buckets
  unfolding insert_entry
  length_inserted e t =
      length-set t.buckets (hash_index e.hash t) (e ∷ get_or t.buckets (hash_index e.hash t) [])

  size_unlinked :
      (e : DictEntry V) (rest : List (DictEntry V)) (t : HashTable V)
      → (unlink_head e rest t).size_exp ≡ t.size_exp
  unfolding unlink_head
  size_unlinked e rest t = refl

  IsChain-unlinked :
      (e : DictEntry V) (rest : List (DictEntry V)) (r : ℕ) (d : Dict V)
      → IsChain hf d.table0.size_exp r (e ∷ rest)
      → IsChain hf (unlink_head e rest d.table0).size_exp r rest
  unfolding unlink_head
  IsChain-unlinked e rest r d chain = chain.3

  -- What the loop over a chain keeps: it empties bucket `r`.
  pub record Moved (r : ℕ) (d d' : Dict V) : Type 0 where
    pub same_values : IsSame hf d d'
    pub emptied : get_or d'.table0.buckets r [] ≡ []
    pub index : d'.rehash_idx ≡ d.rehash_idx
    pub paused : d'.pause_rehash ≡ d.pause_rehash
    pub length0 : length d'.table0.buckets ≡ length d.table0.buckets
    pub length1 : length d'.table1.buckets ≡ length d.table1.buckets
    pub size0 : d'.table0.size_exp ≡ d.table0.size_exp

  pub move_chain-Moved :
      (c : List (DictEntry V)) (r : ℕ) (d : Dict V)
      → IsDict hf d
      → r < length d.table0.buckets
      → 0 < length d.table1.buckets
      → IsChain hf d.table0.size_exp r c
      → get_or d.table0.buckets r [] ≡ c
      → Moved r d (move_chain c d)
  unfolding move_chain
  move_chain-Moved [] r d ok n0 n1 chain at = record {
    same_values = record { good = ok; same = λ k. refl; opened = λ h. h };
    emptied = at;
    index = refl;
    paused = refl;
    length0 = refl;
    length1 = refl;
    size0 = refl;
  }
  move_chain-Moved (e ∷ rest) r d ok n0 n1 chain at =
      let head = head_at e rest r d chain at in
      let moved0 = length_unlinked e rest d.table0 in
      let moved1 = length_inserted e d.table1 in
      let next =
        move_chain-Moved rest r (move_entry e rest d)
          (move_entry-IsDict e rest d ok (omega arith) n1 chain.0 head) (omega arith) (omega arith)
          (IsChain-unlinked e rest r d chain) (next_at e rest r d n0 chain) in
      record {
        same_values =
            IsSame-trans
              (record {
                good = move_entry-IsDict e rest d ok (omega arith) n1 chain.0 head;
                same = move_entry-value e rest d ok (omega arith) n1 chain.0 head;
                opened = λ h. subst (λ n. 0 < n) (sym moved0) h;
              })
              next.same_values;
        emptied = next.emptied;
        index = next.index;
        paused = next.paused;
        length0 = next.length0 ∙ moved0;
        length1 = next.length1 ∙ moved1;
        size0 = next.size0 ∙ size_unlinked e rest d.table0;
      }

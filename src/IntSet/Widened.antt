-- ===== src/IntSet/Widened.antt =====
-- memory/intset.cpp: the members after `UpgradeAndAdd`.
use redis_simple.Common.{
  ℕ, ◌+◌, ◌%◌, ◌^◌, ◌≤◌, ◌<◌, ◌≡◌, ap, sym, ◌∙◌, subst, arith, true, false, Bool-cases, inl, inr,
  List, [], ◌∷◌, ◌++◌, map, length, take, drop, take_all, drop_all, length-append, All, set,
}
use redis_simple.Common.Int.{ℤ, pos, ◌<ℤ◌, ltb_ℤ, InRange}
use redis_simple.IntSet.{
  IntSet, Width, magnitude, to_cell, of_cell, store, bytes_of, value_encoding, upgrade_loop,
  upgrade_and_add, slot,
}
use redis_simple.IntSet.Encoding.{
  of_cell-to_cell, of_cell-InRange, slot-below, value_encoding-InRange, value_encoding_below,
  value_encoding_above,
}
use redis_simple.IntSet.Sorted.{member, insert, insert-Between}
use redis_simple.IntSet.Invariant.{values, IsValid, length-values}
use redis_simple.IntSet.Update.{map-append}
use redis_simple.IntSet.Upgrade.{
  copies, fresh, length-copies, cells_below, cells_above, map-widen, upgrade_loop_rest,
}

module _ (v : ℤ) (w : Width) (wide : bytes_of w < bytes_of (value_encoding v)) where
  above_every :
      ltb_ℤ v (pos 0) ≡ true → (cs : List ℕ) → All (λ x. v <ℤ x) (map (of_cell (magnitude w)) cs)
  above_every neg [] = tt
  above_every neg (c ∷ cs) = (
    value_encoding_below w v (of_cell (magnitude w) c) wide (of_cell-InRange w c) neg,
    above_every neg cs,
  )

  below_every :
      ltb_ℤ v (pos 0) ≡ false → (cs : List ℕ) → All (λ x. x <ℤ v) (map (of_cell (magnitude w)) cs)
  below_every nonneg [] = tt
  below_every nonneg (c ∷ cs) = (
    value_encoding_above w v (of_cell (magnitude w) c) wide (of_cell-InRange w c) nonneg,
    below_every nonneg cs,
  )

-- Where a value that needs wider cells stands among the members.
module _ {s : IntSet} (valid : IsValid s) (v : ℤ)
    (wide : bytes_of s.encoding < bytes_of (value_encoding v)) where
  insert_below :
      ltb_ℤ v (pos 0) ≡ true → (member v (values s) ≡ false) × (insert v (values s) ≡ v ∷ values s)
  insert_below neg =
      let above : All (λ x. v <ℤ x) (values s) =
        unfold values in above_every v s.encoding wide neg (take s.length s.contents) in
      let (unseen, placed, _) = insert-Between v (values s) 0 tt above in (unseen, placed)

  insert_above :
      ltb_ℤ v (pos 0) ≡ false
      → (member v (values s) ≡ false) × (insert v (values s) ≡ values s ++ v ∷ [])
  insert_above nonneg =
      let n = s.length in
      let below : All (λ x. x <ℤ v) (values s) =
        unfold values in below_every v s.encoding wide nonneg (take n s.contents) in
      let width = length-values valid in
      let all : take n (values s) ≡ values s = take_all n (values s) (omega arith) in
      let rest : drop n (values s) ≡ [] = drop_all n (values s) (omega arith) in
      let (unseen, placed, _) =
        insert-Between v (values s) n (subst (All (λ x. x <ℤ v)) (sym all) below)
          (subst (All (λ x. v <ℤ x)) (sym rest) tt) in
      (
        unseen,
        placed ∙ (ap (λ t. t ++ v ∷ drop n (values s)) all ∙ ap (λ t. values s ++ v ∷ t) rest),
      )

  -- It is not a member.
  pub wide_value : member v (values s) ≡ false
  wide_value = elim (Bool-cases (ltb_ℤ v (pos 0))) [
    | inl neg ↦ (insert_below neg).0
    | inr nonneg ↦ (insert_above nonneg).0
  ]

-- A write into a set whose width is known.
stored_cells :
    (r : IntSet) (i m : ℕ) (v : ℤ) (e : Width) (cs : List ℕ)
    → r.encoding ≡ e
    → slot e i ≡ i
    → set r.contents i (to_cell (magnitude e) v) ≡ cs
    → record (store i v r) { length = m } ≡ record { contents = cs; length = m; encoding = e }
unfolding store
stored_cells r i m v e cs p here q = λ j. record {
  contents =
      (ap (λ w. set r.contents (slot w i) (to_cell (magnitude w) v)) p
          ∙ ap (λ k. set r.contents k (to_cell (magnitude e) v)) here
          ∙ q)
        j;
  length = m;
  encoding = p j;
}

-- What an upgrade promises.
pub record Upgraded (v : ℤ) (s : IntSet) (r : IntSet) : Type 0 where
  pub room : r.length ≤ length r.contents
  pub small : r.length < 2 ^ 29
  pub members : values r ≡ insert v (values s)

module _ {s : IntSet} (valid : IsValid s) (v : ℤ) (range : InRange 63 v)
    (wide : bytes_of s.encoding < bytes_of (value_encoding v)) (few : s.length + 1 < 2 ^ 29) where
  -- The new value in its cell, and the others in theirs.
  stored : of_cell (magnitude (value_encoding v)) (to_cell (magnitude (value_encoding v)) v) ≡ v
  stored =
      of_cell-to_cell (value_encoding v) v
        (value_encoding-InRange (value_encoding v) v range (omega arith))

  copied : map (of_cell (magnitude (value_encoding v))) (copies valid v few) ≡ values s
  unfolding values
  copied = map-widen s.encoding (value_encoding v) (take s.length s.contents) wide

  abbrev upgraded : List ℕ → IntSet
  upgraded cs = record { contents = cs; length = s.length + 1; encoding = value_encoding v }

  -- The members of such a set, where every cell is used.
  values-upgraded :
      (cs : List ℕ)
      → length cs ≡ s.length + 1
      → values (upgraded cs) ≡ map (of_cell (magnitude (value_encoding v))) cs
  unfolding values
  values-upgraded cs e =
      ap (map (of_cell (magnitude (value_encoding v)))) (take_all (s.length + 1) cs (omega arith))

  cell : ℕ
  cell = to_cell (magnitude (value_encoding v)) v

  upgrade_below : ltb_ℤ v (pos 0) ≡ true → Upgraded v s (upgrade_and_add v s)
  unfolding cell
  upgrade_below neg =
      let n = s.length in
      let e = value_encoding v in
      let f = of_cell (magnitude e) in
      let cs = cell ∷ copies valid v few in
      let moved = upgrade_loop s.contents s.encoding 1 n (fresh valid v few) in
      let (encoding, _, _) = upgrade_loop_rest s.contents s.encoding 1 n (fresh valid v few) in
      let grown : (n + 1) % 2 ^ 32 ≡ n + 1 = omega arith in
      let built : upgrade_and_add v s ≡ upgraded cs =
        unfold upgrade_and_add in
        rw (neg, grown)
          (stored_cells moved 0 (n + 1) v e cs encoding (slot-below e 0 (omega arith))
            (cells_below valid v few cell)) in
      let long : length cs ≡ n + 1 = omega (arith, length-copies valid v few) in
      subst (Upgraded v s) (sym built) (record {
        room = omega arith;
        small = omega arith;
        members =
            values-upgraded cs long
            ∙ ap (λ x. x ∷ map f (copies valid v few)) stored
            ∙ ap (◌∷◌ v) copied
            ∙ sym (insert_below valid v wide neg).1;
      })

  upgrade_above : ltb_ℤ v (pos 0) ≡ false → Upgraded v s (upgrade_and_add v s)
  unfolding cell
  upgrade_above nonneg =
      let n = s.length in
      let e = value_encoding v in
      let f = of_cell (magnitude e) in
      let cs = copies valid v few ++ cell ∷ [] in
      let moved = upgrade_loop s.contents s.encoding 0 n (fresh valid v few) in
      let (encoding, _, _) = upgrade_loop_rest s.contents s.encoding 0 n (fresh valid v few) in
      let grown : (n + 1) % 2 ^ 32 ≡ n + 1 = omega arith in
      let built : upgrade_and_add v s ≡ upgraded cs =
        unfold upgrade_and_add in
        rw (nonneg, grown)
          (stored_cells moved n (n + 1) v e cs encoding (slot-below e n (omega arith))
            (cells_above valid v few cell)) in
      let long : length cs ≡ n + 1 =
        length-append (copies valid v few) (cell ∷ []) ∙ omega (arith, length-copies valid v few) in
      subst (Upgraded v s) (sym built) (record {
        room = omega arith;
        small = omega arith;
        members =
            values-upgraded cs long
            ∙ map-append f (copies valid v few) (cell ∷ [])
            ∙ (ap (λ xs. xs ++ f cell ∷ []) copied ∙ ap (λ x. values s ++ x ∷ []) stored)
            ∙ sym (insert_above valid v wide nonneg).1;
      })

  -- `UpgradeAndAdd` widens every cell and inserts the value at one end.
  pub upgrade_and_add-Upgraded : Upgraded v s (upgrade_and_add v s)
  upgrade_and_add-Upgraded = elim (Bool-cases (ltb_ℤ v (pos 0))) [
    | inl neg ↦ upgrade_below neg
    | inr nonneg ↦ upgrade_above nonneg
  ]

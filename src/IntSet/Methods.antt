-- ===== src/IntSet/Methods.antt =====
-- memory/intset.cpp: the methods as operations on an ascending list of integers.
use redis_simple.Common.{
  ℕ, zero, suc, ◌+◌, ◌^◌, ◌⊎◌, ◌≤◌, ◌<◌, ◌≡◌, refl, sym, ◌∙◌, subst, arith, true, false, not,
  Bool-cases, inl, inr, none, some, List, [], ◌∷◌, ◌++◌, length, take, drop, get_elem?, ltb, leb,
}
use redis_simple.Common.Int.{ℤ, InRange}
use redis_simple.IntSet.{
  IntSet, Found, bytes_of, value_encoding, encoded_value, get, add, find, remove, upgrade_and_add,
}
use redis_simple.IntSet.Encoding.{value_encoding-InRange}
use redis_simple.IntSet.Sorted.{
  IsSorted, member, insert, erase, insert-Between, insert-at, insert-IsSorted, erase-IsSorted,
}
use redis_simple.IntSet.Invariant.{values, IsValid, length-values, encoded_value_lem}
use redis_simple.IntSet.Search.{Finds, search-Finds}
use redis_simple.IntSet.Update.{inserted, erased, values-inserted, values-erased}
use redis_simple.IntSet.Widened.{wide_value, upgrade_and_add-Upgraded}

get_elem?_inside : (xs : List ℤ) (i : ℕ) (x : ℤ) → get_elem? xs i ≡ some x → i < length xs
get_elem?_inside [] i x e = cc
get_elem?_inside (y ∷ xs) zero x e = omega arith
get_elem?_inside (y ∷ xs) (suc i) x e = omega (arith, get_elem?_inside xs i x e)

get_elem?_outside : (xs : List ℤ) (i : ℕ) → length xs ≤ i → get_elem? xs i ≡ none
get_elem?_outside [] i h = refl
get_elem?_outside (x ∷ xs) zero h = absurd (omega arith)
get_elem?_outside (x ∷ xs) (suc i) h = get_elem?_outside xs i (omega arith)

module _ {s : IntSet} (w : IsValid s) where
  -- `Get` of a well-formed set, which has fewer than 2 ^ 29 members, returns the members in ascending
  -- order by their index, and throws from the number of members on.
  pub get_lem : (i : ℕ) → get s i ≡ get_elem? (values s) i
  get_lem i = elim (Bool-cases (leb s.length i)) [
    | inl out ↦
        unfold get encoded_value in
        rw out (sym (get_elem?_outside (values s) i (ground (arith, length-values w))))
    | inr inside ↦ let (x, e, at) = encoded_value_lem w i (ground arith) in unfold get in e ∙ sym at
  ]

  -- What a search says of membership, insertion and removal.
  found_lem :
      {v : ℤ} {f : Found}
      → Finds (values s) v f
      → ((f.exists ≡ true)
          × (f.index < s.length)
          × (member v (values s) ≡ true)
          × (insert v (values s) ≡ values s)
          × (erase v (values s) ≡ take f.index (values s) ++ drop (suc f.index) (values s)))
        ⊎ ((f.exists ≡ false)
            × (f.index ≤ s.length)
            × (member v (values s) ≡ false)
            × (insert v (values s) ≡ take f.index (values s) ++ v ∷ drop f.index (values s))
            × (erase v (values s) ≡ values s))
  found_lem {v} {f} (inl (e, at)) =
      let (m, i, r) = insert-at v (values s) f.index w.sorted at in
      inl (e, omega (arith, get_elem?_inside (values s) f.index v at, length-values w), m, i, r)
  found_lem {v} {f} (inr (e, bound, below, above)) =
      let (m, i, r) = insert-Between v (values s) f.index below above in
      inr (e, omega (arith, length-values w), m, i, r)

  -- `Find` of a well-formed set, which has fewer than 2 ^ 29 members, decides membership of every
  -- 64-bit integer.
  pub find_lem : (v : ℤ) → InRange 63 v → find v s ≡ some (member v (values s))
  unfolding find
  find_lem v range = elim (Bool-cases (leb (bytes_of (value_encoding v)) (bytes_of s.encoding))) [
    | inr wide ↦ let unseen = wide_value w v (ground arith) in rw (wide, find, unseen)
    | inl narrow ↦
        let (f, e, p) = search-Finds v w in
        elim (found_lem p) [
          | inl (there, inside, m, i, r) ↦ rw (narrow, find, e, there, m)
          | inr (absent, inside, m, i, r) ↦ rw (narrow, find, e, absent, m)
        ]
  ]

  -- `Add` of a 64-bit integer to a well-formed set of fewer than 2 ^ 29 - 1 members throws nothing,
  -- tells whether the integer is new, and gives a well-formed set whose members are those before and
  -- the integer.
  pub add_lem :
      (v : ℤ)
      → InRange 63 v
      → s.length + 1 < 2 ^ 29
      → (r : IntSet) × (add v s ≡ some (r, not (member v (values s))))
        × IsValid r
        × (values r ≡ insert v (values s))
  unfolding add
  add_lem v range few =
      elim (Bool-cases (ltb (bytes_of s.encoding) (bytes_of (value_encoding v)))) [
        | inl wide ↦
            let u = upgrade_and_add-Upgraded w v range (ground arith) few in
            let unseen = wide_value w v (ground arith) in
            (
              upgrade_and_add v s,
              rw (wide, add, unseen),
              record {
                room = u.room;
                small = u.small;
                sorted = subst IsSorted (sym u.members) (insert-IsSorted v (values s) w.sorted);
              },
              u.members,
            )
        | inr narrow ↦
            let (f, e, p) = search-Finds v w in
            elim (found_lem p) [
              | inl (there, inside, m, i, r) ↦ (s, rw (narrow, add, e, there, m), w, sym i)
              | inr (absent, inside, m, i, r) ↦
                  let (vals, room, small) =
                    values-inserted w f.index v
                      (value_encoding-InRange s.encoding v range (ground arith)) few inside in
                  (
                    inserted f.index v s,
                    rw (narrow, add, e, absent, m),
                    record {
                      room = room;
                      small = small;
                      sorted =
                          subst IsSorted (sym (vals ∙ sym i))
                            (insert-IsSorted v (values s) w.sorted);
                    },
                    vals ∙ sym i,
                  )
            ]
      ]

  -- `Remove` from a well-formed set, which has fewer than 2 ^ 29 members, throws nothing, tells
  -- whether the integer was a member, and gives a well-formed set whose members are those before
  -- without the integer.
  pub remove_lem :
      (v : ℤ)
      → (r : IntSet) × (remove v s ≡ some (r, member v (values s)))
        × IsValid r
        × (values r ≡ erase v (values s))
  unfolding remove
  remove_lem v =
      let (f, e, p) = search-Finds v w in
      elim (found_lem p) [
        | inl (there, inside, m, i, r) ↦
            let (vals, room, small) = values-erased w f.index inside in
            (
              erased f.index s,
              rw (e, remove, there, m),
              record {
                room = room;
                small = small;
                sorted = subst IsSorted (sym (vals ∙ sym r)) (erase-IsSorted v (values s) w.sorted);
              },
              vals ∙ sym r,
            )
        | inr (absent, inside, m, i, r) ↦ (s, rw (e, remove, absent, m), w, sym r)
      ]

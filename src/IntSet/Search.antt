-- ===== src/IntSet/Search.antt =====
-- memory/intset.cpp: the binary search.
use redis_simple.Common.{
  ℕ, zero, suc, ◌+◌, ◌-◌, ◌/◌, ◌≤◌, ◌<◌, ◌≡◌, refl, ap, ◌∙◌, sym, subst, arith, true, false,
  Bool-cases, inl, inr, ◌⊎◌, List, some, length, take, drop, get_elem?, All, ltb, ◌==◌, drop_all,
}
use redis_simple.Common.Int.{ℤ, ◌<ℤ◌, ltb_ℤ, eqb_ℤ, eq_of_parts}
use redis_simple.IntSet.{IntSet, Found, search_loop, search}
use redis_simple.IntSet.Sorted.{take-below, drop-above}
use redis_simple.IntSet.Invariant.{values, IsValid, length-values, encoded_value_lem}

-- What a search returns: the index of the value, or where it is to be inserted.
abbrev pub Finds : List ℤ → ℤ → Found → Type 0
Finds xs v f =
    ((f.exists ≡ true) × (get_elem? xs f.index ≡ some v))
    ⊎ ((f.exists ≡ false)
        × (f.index ≤ length xs)
        × All (λ x. x <ℤ v) (take f.index xs)
        × All (λ x. v <ℤ x) (drop f.index xs))

search_loop-Finds :
    (fuel : ℕ) {s : IntSet} (v : ℤ) (lo hi : ℕ)
    → IsValid s
    → lo ≤ hi
    → hi ≤ s.length
    → hi - lo < fuel
    → All (λ x. x <ℤ v) (take lo (values s))
    → All (λ x. v <ℤ x) (drop hi (values s))
    → (f : Found) × (search_loop fuel s v lo hi ≡ some f) × Finds (values s) v f
unfolding search_loop
search_loop-Finds zero v lo hi w order bound enough below above = absurd (omega arith)
search_loop-Finds (suc fuel) {s} v lo hi w order bound enough below above =
    elim (Bool-cases (ltb lo hi)) [
      | inr done ↦ (
        record { exists = false; index = lo },
        rw (done, search_loop),
        inr (
          refl,
          omega (arith, length-values w),
          below,
          subst (λ k. All (λ x. v <ℤ x) (drop k (values s))) (ground arith) above,
        ),
      )
      | inl more ↦
          let mid = lo + (hi - lo) / 2 in
          let (x, e, at) = encoded_value_lem w mid (ground arith) in
          elim (Bool-cases (eqb_ℤ x v)) [
            | inl same ↦ (
              record { exists = true; index = mid },
              rw (more, search_loop, e, same),
              inl (refl, at ∙ ap some (eq_of_parts x v (ground arith))),
            )
            | inr other ↦ elim (Bool-cases (ltb_ℤ x v)) [
              | inl less ↦
                  let (f, r, p) =
                    search_loop-Finds fuel v (mid + 1) hi w (ground arith) bound (ground arith)
                      (subst (λ k. All (λ y. y <ℤ v) (take k (values s))) {x = suc mid}
                        (omega arith) (take-below v x (values s) mid w.sorted at (ground arith)))
                      above in
                  (f, rw (more, search_loop, e, other, less) r, p)
              | inr greater ↦
                  let (f, r, p) =
                    search_loop-Finds fuel v lo mid w (omega arith) (ground arith) (ground arith)
                      below (drop-above v x (values s) mid w.sorted at (ground arith)) in
                  (f, rw (more, search_loop, e, other, greater) r, p)
            ]
          ]
    ]

Finds-search :
    {s : IntSet} (v : ℤ) (w : IsValid s) (greatest : ℤ)
    → 0 < s.length
    → get_elem? (values s) (s.length - 1) ≡ some greatest
    → greatest <ℤ v
    → Finds (values s) v (record { exists = false; index = s.length })
Finds-search {s} v w greatest pos at less =
    let long = length-values w in
    inr (
      refl,
      omega arith,
      subst (λ k. All (λ y. y <ℤ v) (take k (values s))) {x = suc (s.length - 1)} (omega arith)
          (take-below v greatest (values s) (s.length - 1) w.sorted at less),
      subst (All (λ y. v <ℤ y)) (sym (drop_all s.length (values s) (omega arith))) tt,
    )

-- `Search` throws nothing on a well-formed set, and finds the value or where it is to be inserted.
pub search-Finds :
    {s : IntSet} (v : ℤ) → IsValid s → (f : Found) × (search s v ≡ some f) × Finds (values s) v f
unfolding search
search-Finds {s} v w =
    let loop =
      search_loop-Finds (s.length + 1) v 0 s.length w (omega arith) (omega arith) (omega arith) tt (
        subst (All (λ y. v <ℤ y))
          (sym (drop_all s.length (values s) (omega (arith, length-values w)))) tt) in
    elim (Bool-cases (s.length == 0)) [
      | inl nothing ↦ (loop.0, rw (nothing, search) loop.1, loop.2)
      | inr something ↦
          let (least, e, at) = encoded_value_lem w 0 (ground arith) in
          let (greatest, e', at') = encoded_value_lem w (s.length - 1) (ground arith) in
          elim (Bool-cases (ltb_ℤ v least)) [
            | inl less ↦ (
              record { exists = false; index = 0 },
              rw (something, search, e, less),
              inr (
                refl,
                omega arith,
                tt,
                drop-above v least (values s) 0 w.sorted at (ground arith),
              ),
            )
            | inr not_less ↦ elim (Bool-cases (ltb_ℤ greatest v)) [
              | inl greater ↦ (
                record { exists = false; index = s.length },
                rw (something, search, e, not_less, e', greater),
                Finds-search v w greatest (ground arith) at' (ground arith),
              )
              | inr not_greater ↦
                  (loop.0, rw (something, search, e, not_less, e', not_greater) loop.1, loop.2)
            ]
          ]
    ]

-- ===== src/IntSet/Update.antt =====
-- memory/intset.cpp: `Add` without an upgrade, and `Remove`.
use redis_simple.Common.{
  ℕ, zero, suc, ◌+◌, ◌-◌, ◌%◌, ◌^◌, ◌≤◌, ◌<◌, ◌≡◌, refl, ap, sym, ◌∙◌, subst, arith, Bool-cases,
  inl, inr, List, [], ◌∷◌, ◌++◌, map, min, length, take, drop, set, write_at, ltb, if◌then◌else◌,
  drop_all, take_all, length-append, length-take, length-drop, length-write_at,
}
use redis_simple.Common.Int.{ℤ, InRange}
use redis_simple.IntSet.{IntSet, Width, magnitude, to_cell, of_cell, store, resize, move_tail}
use redis_simple.IntSet.Encoding.{of_cell-to_cell, slot-below}
use redis_simple.IntSet.Invariant.{values, IsValid, map-take}
use redis_simple.IntSet.Cells.{
  resized, length-resized, take-resized, insert_cell, append_cell, erase_cell,
}

module _ {ℓ κ} {A : Type ℓ} {B : Type κ} (f : A → B) where
  pub map-drop : (n : ℕ) (xs : List A) → map f (drop n xs) ≡ drop n (map f xs)
  map-drop zero xs = refl
  map-drop (suc n) [] = refl
  map-drop (suc n) (x ∷ xs) = map-drop n xs

  pub map-append : (xs ys : List A) → map f (xs ++ ys) ≡ map f xs ++ map f ys
  map-append [] ys = refl
  map-append (x ∷ xs) ys = ap (◌∷◌ (f x)) (map-append xs ys)

-- The state that the branch of `Add` without an upgrade builds.
abbrev pub inserted : ℕ → ℤ → IntSet → IntSet
inserted i v s =
    let s₁ = resize ((s.length + 1) % 2 ^ 32) s in
    let s₂ = if ltb i s₁.length then move_tail i (i + 1) s₁ else s₁ in
    let s₃ = store i v s₂ in record s₃ { length = (s₃.length + 1) % 2 ^ 32 }

-- The state that `Remove` builds.
abbrev pub erased : ℕ → IntSet → IntSet
erased i s =
    let s₁ = resize (s.length - 1) (move_tail (i + 1) i s) in record s₁ { length = s₁.length - 1 }

pub values_of :
    (r : IntSet) (cells : List ℕ) {e : Width} {n : ℕ}
    → r.encoding ≡ e
    → r.length ≡ n
    → take n r.contents ≡ cells
    → values r ≡ map (of_cell (magnitude e)) cells
unfolding values
values_of r cells {e} {n} p q t =
    ap (λ e. map (of_cell (magnitude e)) (take r.length r.contents)) p
    ∙ ap (λ k. map (of_cell (magnitude e)) (take k r.contents)) q
    ∙ ap (map (of_cell (magnitude e))) t

inserted_rest :
    (i : ℕ) (v : ℤ) (s : IntSet)
    → s.length + 1 < 2 ^ 29
    → ((inserted i v s).encoding ≡ s.encoding) × ((inserted i v s).length ≡ s.length + 1)
unfolding resize move_tail store
inserted_rest i v s small = ground arith

erased_rest :
    (i : ℕ) (s : IntSet)
    → ((erased i s).encoding ≡ s.encoding) × ((erased i s).length ≡ s.length - 1)
unfolding resize move_tail
erased_rest i s = (refl, refl)

module _ {s : IntSet} (w : IsValid s) (i : ℕ) where
  inserted_cells :
      (v : ℤ)
      → s.length + 1 < 2 ^ 29
      → i ≤ s.length
      → (inserted i v s).contents
        ≡ take i (take s.length s.contents)
          ++ to_cell (magnitude s.encoding) v ∷ drop i (take s.length s.contents)
  unfolding resize move_tail store
  inserted_cells v small h =
      let n = s.length in
      let here = slot-below s.encoding i (omega arith) in
      let behind = slot-below s.encoding (i + 1) (omega arith) in
      let grown : (n + 1) % 2 ^ 32 ≡ n + 1 = omega arith in
      let left : (n + 2 ^ 32 - i) % 2 ^ 32 ≡ n - i = omega arith in
      let c = to_cell (magnitude s.encoding) v in
      let r = resized n (n + 1) 0 s.contents in
      let long : length r ≡ suc n = length-resized n (n + 1) 0 s.contents ∙ omega arith in
      let least : min n (n + 1) ≡ n = omega arith in
      let same : take n r ≡ take n s.contents =
        subst (λ k. take k r ≡ take k s.contents) least
          (take-resized n (n + 1) 0 s.contents (omega (arith, w.room))) in
      let src = take (n - i) (drop i r) in
      let after : suc i ≡ i + 1 = omega arith in
      let built : take i (take n r) ++ c ∷ drop i (take n r)
          ≡ take i (take n s.contents) ++ c ∷ drop i (take n s.contents) =
        ap (λ t. take i t ++ c ∷ drop i t) same in
      elim (Bool-cases (ltb i n)) [
        | inl inner ↦
            rw (grown, inner, here, behind, left)
              (ap (λ k. set (write_at k src r) i c) (sym after)
                ∙ insert_cell r n i c long (ground arith)
                ∙ built)
        | inr last ↦
            let at_end : i ≡ n = ground arith in
            let full : length (take n r) ≡ n = omega (arith, length-take n r) in
            rw (grown, last, here)
              (ap (λ k. set r k c) at_end
                ∙ append_cell r n c long
                ∙ (ap (λ t. t ++ c ∷ []) (sym (take_all i (take n r) (omega arith)))
                    ∙ ap (λ t. take i (take n r) ++ c ∷ t)
                        (sym (drop_all i (take n r) (omega arith))))
                ∙ built)
      ]

  erased_cells :
      i < s.length
      → take (s.length - 1) (erased i s).contents
        ≡ take i (take s.length s.contents) ++ drop (suc i) (take s.length s.contents)
  unfolding resize move_tail
  erased_cells h =
      let n = s.length in
      let here = slot-below s.encoding i (omega (arith, w.small)) in
      let behind = slot-below s.encoding (i + 1) (omega (arith, w.small)) in
      let left : (n + 2 ^ 32 - (i + 1)) % 2 ^ 32 ≡ n - (i + 1) = omega (arith, w.small) in
      let after : suc i ≡ i + 1 = omega arith in
      let moved = write_at i (take (n - (i + 1)) (drop (i + 1) s.contents)) s.contents in
      let least : min n (n - 1) ≡ n - 1 = omega arith in
      let long : length moved ≡ length s.contents =
        length-write_at i (take (n - (i + 1)) (drop (i + 1) s.contents)) s.contents
          (omega (arith, w.room, length-take (n - (i + 1)) (drop (i + 1) s.contents))) in
      rw (here, behind, left)
        (subst (λ k. take k (resized n (n - 1) 0 moved) ≡ take k moved) least
            (take-resized n (n - 1) 0 moved (omega (arith, w.room)))
          ∙ ap (λ k. take (n - 1) (write_at i (take (n - k) (drop k s.contents)) s.contents))
              (sym after)
          ∙ erase_cell s.contents n i w.room h)

  values_split :
      (k : ℕ) (c : List ℕ)
      → map (of_cell (magnitude s.encoding)) (take k (take s.length s.contents) ++ c)
        ≡ take k (values s) ++ map (of_cell (magnitude s.encoding)) c
  unfolding values
  values_split k c =
      let f = of_cell (magnitude s.encoding) in
      map-append f (take k (take s.length s.contents)) c
      ∙ ap (λ t. t ++ map f c) (map-take f k (take s.length s.contents))

  -- The new members: the value stands between those below and those above the index.
  pub values-inserted :
      (v : ℤ)
      → InRange (magnitude s.encoding) v
      → s.length + 1 < 2 ^ 29
      → i ≤ s.length
      → (values (inserted i v s) ≡ take i (values s) ++ v ∷ drop i (values s))
        × ((inserted i v s).length ≤ length (inserted i v s).contents)
        × ((inserted i v s).length < 2 ^ 29)
  values-inserted v fits small h =
      let f = of_cell (magnitude s.encoding) in
      let c = to_cell (magnitude s.encoding) v in
      let cells = inserted_cells v small h in
      let n = s.length in
      let old = take n s.contents in
      let whole : length (inserted i v s).contents ≡ n + 1 =
        ap length cells
        ∙ length-append (take i old) (c ∷ drop i old)
        ∙ omega (arith, length-take i old, length-drop i old, length-take n s.contents, w.room) in
      let (encoding, size) = inserted_rest i v s small in
      let tail : map f (c ∷ drop i old) ≡ v ∷ drop i (values s) =
        unfold values in
        ap (λ x. x ∷ map f (drop i old)) (of_cell-to_cell s.encoding v fits)
        ∙ ap (◌∷◌ v) (map-drop f i old) in
      (
        values_of (inserted i v s) (take i old ++ c ∷ drop i old) encoding size
              (take_all (n + 1) (inserted i v s).contents (omega arith) ∙ cells)
            ∙ values_split i (c ∷ drop i old)
            ∙ ap (λ t. take i (values s) ++ t) tail,
        omega arith,
        omega arith,
      )

  pub values-erased :
      i < s.length
      → (values (erased i s) ≡ take i (values s) ++ drop (suc i) (values s))
        × ((erased i s).length ≤ length (erased i s).contents)
        × ((erased i s).length < 2 ^ 29)
  values-erased h =
      let n = s.length in
      let f = of_cell (magnitude s.encoding) in
      let old = take n s.contents in
      let cells = erased_cells h in
      let whole : length (take (n - 1) (erased i s).contents) ≡ n - 1 =
        ap length cells
        ∙ length-append (take i old) (drop (suc i) old)
        ∙ omega
            (arith, length-take i old, length-drop (suc i) old, length-take n s.contents, w.room) in
      let (encoding, size) = erased_rest i s in
      (
        values_of (erased i s) (take i old ++ drop (suc i) old) encoding size cells
            ∙ values_split i (drop (suc i) old)
            ∙ ap (λ t. take i (values s) ++ t) (unfold values in map-drop f (suc i) old),
        omega (arith, whole, size, length-take (n - 1) (erased i s).contents),
        omega (arith, size, w.small),
      )

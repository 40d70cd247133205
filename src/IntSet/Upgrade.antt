-- ===== src/IntSet/Upgrade.antt =====
-- memory/intset.cpp: `UpgradeAndAdd` copies the members into wider cells.
use redis_simple.Common.{
  ℕ, zero, suc, ◌+◌, ◌^◌, ◌≤◌, ◌<◌, ◌≡◌, refl, ap, sym, ◌∙◌, arith, List, [], ◌∷◌, ◌++◌, map,
  length, take, drop, set, get_or, replicate, drop_all, append-nil, append_assoc, take_exact,
  take-append-drop, length-take, length-set, length-replicate,
}
use redis_simple.Common.Int.{ℤ, InRange}
use redis_simple.IntSet.{
  IntSet, Width, int16, int32, int64, magnitude, to_cell, of_cell, store, bytes_of, value_encoding,
  upgrade_loop, slot,
}
use redis_simple.IntSet.Encoding.{of_cell-to_cell, of_cell-InRange, slot-below}
use redis_simple.IntSet.Invariant.{IsValid, length-map}
use redis_simple.IntSet.Update.{map-append}
use redis_simple.IntSet.Cells.{set-take, append_cell}

module _ {ℓ} {A : Type ℓ} where
  take-set : (xs : List A) (n i : ℕ) (c : A) → n ≤ i → take n (set xs i c) ≡ take n xs
  take-set [] n i c h = refl
  take-set (x ∷ xs) zero i c h = refl
  take-set (x ∷ xs) (suc n) zero c h = absurd (omega arith)
  take-set (x ∷ xs) (suc n) (suc i) c h = ap (◌∷◌ x) (take-set xs n i c (omega arith))

  drop-set :
      (xs : List A) (i : ℕ) (c : A) → i < length xs → drop i (set xs i c) ≡ c ∷ drop (suc i) xs
  drop-set [] i c h = absurd (omega arith)
  drop-set (x ∷ xs) zero c h = refl
  drop-set (x ∷ xs) (suc i) c h = drop-set xs i c (omega arith)

  take-suc :
      (xs : List A) (i : ℕ) (d : A)
      → i < length xs
      → take (suc i) xs ≡ take i xs ++ get_or xs i d ∷ []
  take-suc [] i d h = absurd (omega arith)
  take-suc (x ∷ xs) zero d h = refl
  take-suc (x ∷ xs) (suc i) d h = ap (◌∷◌ x) (take-suc xs i d (omega arith))

-- A cell of width `w` copied into one of width `e`.
abbrev pub widen : Width → Width → ℕ → ℕ
widen w e c = to_cell (magnitude e) (of_cell (magnitude w) c)

InRange-bytes_of :
    (w e : Width) (x : ℤ)
    → bytes_of w < bytes_of e
    → InRange (magnitude w) x
    → InRange (magnitude e) x
unfolding bytes_of
InRange-bytes_of int16 int16 x h r = absurd (omega arith)
InRange-bytes_of int16 int32 x h r = omega arith
InRange-bytes_of int16 int64 x h r = omega arith
InRange-bytes_of int32 int16 x h r = absurd (omega arith)
InRange-bytes_of int32 int32 x h r = absurd (omega arith)
InRange-bytes_of int32 int64 x h r = omega arith
InRange-bytes_of int64 int16 x h r = absurd (omega arith)
InRange-bytes_of int64 int32 x h r = absurd (omega arith)
InRange-bytes_of int64 int64 x h r = absurd (omega arith)

of_cell-widen :
    (w e : Width) (c : ℕ)
    → bytes_of w < bytes_of e
    → of_cell (magnitude e) (widen w e c) ≡ of_cell (magnitude w) c
of_cell-widen w e c h =
    let x = of_cell (magnitude w) c in
    of_cell-to_cell e x (InRange-bytes_of w e x h (of_cell-InRange w c))

pub map-widen :
    (w e : Width) (cs : List ℕ)
    → bytes_of w < bytes_of e
    → map (of_cell (magnitude e)) (map (widen w e) cs) ≡ map (of_cell (magnitude w)) cs
map-widen w e [] h = refl
map-widen w e (c ∷ cs) h =
    ap (λ x. x ∷ map (of_cell (magnitude e)) (map (widen w e) cs)) (of_cell-widen w e c h)
    ∙ ap (◌∷◌ (of_cell (magnitude w) c)) (map-widen w e cs h)

pub upgrade_loop_rest :
    (old : List ℕ) (w : Width) (p n : ℕ) (s : IntSet)
    → ((upgrade_loop old w p n s).encoding ≡ s.encoding)
      × ((upgrade_loop old w p n s).length ≡ s.length)
      × (length (upgrade_loop old w p n s).contents ≡ length s.contents)
unfolding upgrade_loop store
upgrade_loop_rest old w p zero s = (refl, refl, refl)
upgrade_loop_rest old w p (suc i) s =
    let x = of_cell (magnitude w) (get_or old (slot w i) 0) in
    let (e, l, c) = upgrade_loop_rest old w p i (store (i + p) x s) in
    (e, l, c ∙ length-set s.contents (slot s.encoding (i + p)) (to_cell (magnitude s.encoding) x))

-- The loop copies the first `n` cells to the place that begins at `p`.
upgrade_loop_cells :
    (old : List ℕ) (w : Width) (p n : ℕ) (s : IntSet)
    → n + p < 2 ^ 29
    → n ≤ length old
    → n + p ≤ length s.contents
    → (upgrade_loop old w p n s).contents
      ≡ take p s.contents ++ (map (widen w s.encoding) (take n old) ++ drop (n + p) s.contents)
unfolding upgrade_loop store
upgrade_loop_cells old w p zero s small h k =
    let e : p ≡ 0 + p = omega arith in
    sym (take-append-drop p s.contents) ∙ ap (λ j. take p s.contents ++ drop j s.contents) e
upgrade_loop_cells old w p (suc i) s small h k =
    let from = slot-below w i (omega arith) in
    let to = slot-below s.encoding (i + p) (omega arith) in
    let x = of_cell (magnitude w) (get_or old i 0) in
    let c = to_cell (magnitude s.encoding) x in
    let m = map (widen w s.encoding) (take i old) in
    let rest = drop (suc i + p) s.contents in
    let after : suc (i + p) ≡ suc i + p = omega arith in
    rw (from, to, upgrade_loop, store)
      (upgrade_loop_cells old w p i (record s { contents = set s.contents (i + p) c }) (omega arith)
          (omega arith) (omega (arith, length-set s.contents (i + p) c))
        ∙ ap (λ t. t ++ (m ++ drop (i + p) (set s.contents (i + p) c)))
            (take-set s.contents p (i + p) c (omega arith))
        ∙ ap (λ t. take p s.contents ++ (m ++ t))
            (drop-set s.contents (i + p) c (omega arith) ∙ ap (λ j. c ∷ drop j s.contents) after)
        ∙ ap (λ t. take p s.contents ++ t)
            (sym (append_assoc m (c ∷ []) rest)
              ∙ ap (λ t. t ++ rest)
                  (sym (map-append (widen w s.encoding) (take i old) (get_or old i 0 ∷ []))
                    ∙ ap (map (widen w s.encoding)) (sym (take-suc old i 0 (omega arith))))))

module _ {s : IntSet} (valid : IsValid s) (v : ℤ) (small : s.length + 1 < 2 ^ 29) where
  abbrev pub fresh : IntSet
  fresh = record {
    contents = replicate (s.length + 1) 0;
    length = s.length;
    encoding = value_encoding v;
  }

  abbrev pub copies : List ℕ
  copies = map (widen s.encoding (value_encoding v)) (take s.length s.contents)

  pub length-copies : length copies ≡ s.length
  length-copies =
      length-map (widen s.encoding (value_encoding v)) (take s.length s.contents)
      ∙ omega (arith, length-take s.length s.contents, valid.room)

  -- Copied one cell up, with the new value in front.
  pub cells_below :
      (c : ℕ) → set (upgrade_loop s.contents s.encoding 1 s.length fresh).contents 0 c ≡ c ∷ copies
  cells_below c =
      let n = s.length in
      let zeros : List ℕ = replicate (n + 1) 0 in
      let long : length zeros ≡ n + 1 = length-replicate (n + 1) 0 in
      ap (λ t. set t 0 c)
        (upgrade_loop_cells s.contents s.encoding 1 n fresh (omega arith) valid.room (omega arith))
      ∙ set-take zeros (copies ++ drop (n + 1) zeros) 0 c (omega arith)
      ∙ ap (λ t. c ∷ (copies ++ t)) (drop_all (n + 1) zeros (omega arith))
      ∙ ap (◌∷◌ c) (append-nil copies)

  -- Copied in place, with the new value behind.
  pub cells_above :
      (c : ℕ)
      → set (upgrade_loop s.contents s.encoding 0 s.length fresh).contents s.length c
        ≡ copies ++ c ∷ []
  cells_above c =
      let n = s.length in
      let zeros : List ℕ = replicate (n + 1) 0 in
      let long : length zeros ≡ n + 1 = length-replicate (n + 1) 0 in
      let moved = (upgrade_loop s.contents s.encoding 0 n fresh).contents in
      let (_, _, same) = upgrade_loop_rest s.contents s.encoding 0 n fresh in
      let e : moved ≡ copies ++ drop (n + 0) zeros =
        upgrade_loop_cells s.contents s.encoding 0 n fresh (omega arith) valid.room (omega arith) in
      append_cell moved n c (omega arith)
      ∙ ap (λ t. t ++ c ∷ [])
          (ap (take n) e
            ∙ ap (λ k. take k (copies ++ drop (n + 0) zeros)) (sym length-copies)
            ∙ take_exact copies (drop (n + 0) zeros))

-- ===== src/IntSet/Cells.antt =====
-- memory/intset.cpp: what `Resize`, `MoveTail` and `Set` do to the cells, as lists.
use redis_simple.Common.{
  ℕ, zero, suc, ◌+◌, ◌-◌, ◌≤◌, ◌<◌, ◌≡◌, refl, ap, sym, ◌∙◌, arith, List, [], ◌∷◌, ◌++◌, min,
  length, take, drop, set, replicate, write_at, append-nil, take_all, take-take, drop-take,
  take-write_at, take-write_front, length-take, length-drop, length-write_at, length-replicate,
}

module _ {ℓ} {A : Type ℓ} where
  -- A write into the last kept cell.
  pub set-take :
      (xs ys : List A) (i : ℕ) (c : A)
      → i < length xs
      → set (take (suc i) xs ++ ys) i c ≡ take i xs ++ c ∷ ys
  set-take [] ys i c h = absurd (omega arith)
  set-take (x ∷ xs) ys zero c h = refl
  set-take (x ∷ xs) ys (suc i) c h = ap (◌∷◌ x) (set-take xs ys i c (omega arith))

  -- The array that `Resize` allocates, with the kept cells copied.
  abbrev pub resized : ℕ → ℕ → A → List A → List A
  resized n m z xs = write_at 0 (take (min n m) xs) (replicate m z)

  pub length-resized : (n m : ℕ) (z : A) (xs : List A) → length (resized n m z xs) ≡ m
  length-resized n m z xs =
      length-write_at 0 (take (min n m) xs) (replicate m z)
        (omega (arith, length-take (min n m) xs, length-replicate m z))
      ∙ length-replicate m z

  pub take-resized :
      (n m : ℕ) (z : A) (xs : List A)
      → min n m ≤ length xs
      → take (min n m) (resized n m z xs) ≡ take (min n m) xs
  take-resized n m z xs h =
      take-write_front (min n m) (take (min n m) xs) (replicate m z)
        (omega (arith, length-take (min n m) xs))

  -- Making room at `i` in an array of `n + 1` cells, and writing there.
  pub insert_cell :
      (r : List A) (n i : ℕ) (c : A)
      → length r ≡ suc n
      → i < n
      → set (write_at (suc i) (take (n - i) (drop i r)) r) i c
        ≡ take i (take n r) ++ c ∷ drop i (take n r)
  insert_cell r n i c e h =
      let src = take (n - i) (drop i r) in
      let long : length src ≡ n - i =
        omega (arith, length-take (n - i) (drop i r), length-drop i r) in
      let whole : write_at (suc i) src r ≡ take (suc i) r ++ src =
        sym (
          take_all (suc i + length src) (write_at (suc i) src r)
            (omega (arith, length-write_at (suc i) src r (omega arith))))
        ∙ take-write_at (suc i) src r (omega arith) in
      ap (λ t. set t i c) whole
      ∙ set-take r src i c (omega arith)
      ∙ ap (λ t. t ++ c ∷ src) (sym (take-take i n r (omega arith)))
      ∙ ap (λ t. take i (take n r) ++ c ∷ t) (sym (drop-take i n r))

  pub append_cell : (r : List A) (n : ℕ) (c : A) → length r ≡ suc n → set r n c ≡ take n r ++ c ∷ []
  append_cell r n c e =
      ap (λ t. set t n c) (sym (append-nil _ ∙ take_all (suc n) r (omega arith)))
      ∙ set-take r [] n c (omega arith)

  -- Closing the gap at `i` among the first `n` cells.
  pub erase_cell :
      (xs : List A) (n i : ℕ)
      → n ≤ length xs
      → i < n
      → take (n - 1) (write_at i (take (n - suc i) (drop (suc i) xs)) xs)
        ≡ take i (take n xs) ++ drop (suc i) (take n xs)
  erase_cell xs n i h k =
      let src = take (n - suc i) (drop (suc i) xs) in
      let long : i + length src ≡ n - 1 =
        omega (arith, length-take (n - suc i) (drop (suc i) xs), length-drop (suc i) xs) in
      ap (λ m. take m (write_at i src xs)) (sym long)
      ∙ take-write_at i src xs (omega arith)
      ∙ ap (λ t. t ++ src) (sym (take-take i n xs (omega arith)))
      ∙ ap (λ t. take i (take n xs) ++ t) (sym (drop-take (suc i) n xs))

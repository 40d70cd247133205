-- ===== src/ListPack/Insert.antt =====
-- memory/listpack.cpp: `Insert` on a listpack whose header is right.
use redis_simple.Common.{
  ℕ, ◌+◌, ◌-◌, ◌^◌, ◌<◌, ◌≡◌, refl, ap, sym, ◌∙◌, arith, Bool, true, false, ◌||◌, List, [], ◌++◌,
  length, length-append, append_assoc, append-nil, ltb, leb, ◌==◌, if◌then◌else◌, take, drop,
  replicate, length-replicate, write_at, take_exact, drop_exact, take-append-drop, length-take,
  length-drop, min, take_all,
}
use redis_simple.ListPack.{
  big_endian, read_big, backlen_bytes, encode_element, total_bytes, element_count, set_total_bytes,
  set_num_of_elements, realloc, insert_bytes, insert, out_of_range, returned, header_size,
}
use redis_simple.ListPack.Bytes.{length-big_endian, read_big-big_endian}
use redis_simple.ListPack.Walk.{stored, length-stored}

-- A listpack of `n` elements whose entries, and the mark of the end, are `body`.
abbrev pub packed : ℕ → List ℕ → List ℕ
packed n body = big_endian 4 (6 + length body) ++ (big_endian 2 n ++ body)

-- Bytes written over as many bytes.
write_over :
    (pre src mid post : List ℕ) (k : ℕ)
    → k ≡ length pre
    → length mid ≡ length src
    → write_at k src (pre ++ (mid ++ post)) ≡ pre ++ (src ++ post)
unfolding write_at
write_over pre src mid post k at same =
    let behind : k + length src ≡ length (pre ++ mid) = omega (arith, length-append pre mid) in
    ap (λ k. take k (pre ++ (mid ++ post)) ++ (src ++ drop (k + length src) (pre ++ (mid ++ post))))
      at
    ∙ ap (λ t. t ++ (src ++ drop (length pre + length src) (pre ++ (mid ++ post))))
        (take_exact pre (mid ++ post))
    ∙ ap (λ t. pre ++ (src ++ t))
        (ap (λ k. drop k (pre ++ (mid ++ post))) (ap (λ k. k + length src) (sym at) ∙ behind)
          ∙ ap (drop (length (pre ++ mid))) (sym (append_assoc pre mid post))
          ∙ drop_exact (pre ++ mid) post)

total_bytes-packed :
    (n : ℕ) (body : List ℕ)
    → 6 + length body < 2 ^ 32
    → total_bytes (packed n body) ≡ 6 + length body
unfolding total_bytes
total_bytes-packed n body h =
    read_big-big_endian [] (big_endian 2 n ++ body) 4 (6 + length body) (omega arith)

element_count_at :
    (t body : List ℕ) (n : ℕ)
    → length t ≡ 4
    → n < 2 ^ 16
    → element_count (t ++ (big_endian 2 n ++ body)) ≡ n
unfolding element_count
element_count_at t body n four h =
    ap (λ k. read_big (t ++ (big_endian 2 n ++ body)) k 2) (sym four)
    ∙ read_big-big_endian t body 2 n (omega arith)

length-packed : (n : ℕ) (body : List ℕ) → length (packed n body) ≡ 6 + length body
length-packed n body = omega (
  arith,
  length-append (big_endian 4 (6 + length body)) (big_endian 2 n ++ body),
  length-append (big_endian 2 n) body,
  length-big_endian 4 (6 + length body),
  length-big_endian 2 n,
)

realloc-packed :
    (n : ℕ) (body : List ℕ) (extra : ℕ)
    → 6 + length body < 2 ^ 32
    → realloc (6 + length body + extra) (packed n body) ≡ packed n body ++ replicate extra 0
unfolding realloc
realloc-packed n body extra small =
    let lp = packed n body in
    let size = 6 + length body + extra in
    let kept : min (total_bytes lp) size ≡ 6 + length body =
      omega (arith, total_bytes-packed n body small) in
    let left : size - (6 + length body) ≡ extra = omega arith in
    ap (λ k. take k lp ++ replicate (size - k) 0) kept
    ∙ ap (λ t. t ++ replicate (size - (6 + length body)) 0)
        (take_all (6 + length body) lp (omega (arith, length-packed n body)))
    ∙ ap (λ k. lp ++ replicate k 0) left

-- Three parts in front of a fourth, put together.
front : (h c f x : List ℕ) → h ++ (c ++ (f ++ x)) ≡ (h ++ (c ++ f)) ++ x
front h c f x = ap (λ t. h ++ t) (sym (append_assoc c f x)) ∙ sym (append_assoc h (c ++ f) x)

-- Bytes behind `p` are moved up by the length of `z`, and leave a gap `j`.
moved_up :
    (p b z : List ℕ) (idx size : ℕ)
    → idx ≡ length p
    → size ≡ length b
    → write_at (idx + length z) (take size (drop idx (p ++ (b ++ z)))) (p ++ (b ++ z))
      ≡ p ++ (take (length z) (b ++ z) ++ b)
moved_up p b z idx size at sized =
    let j = take (length z) (b ++ z) in
    let k = drop (length z) (b ++ z) in
    let chunk : take size (drop idx (p ++ (b ++ z))) ≡ b =
      ap (λ i. take size (drop i (p ++ (b ++ z)))) at
      ∙ ap (take size) (drop_exact p (b ++ z))
      ∙ ap (λ n. take n (b ++ z)) sized
      ∙ take_exact b z in
    let split : p ++ (b ++ z) ≡ (p ++ j) ++ (k ++ []) =
      ap (λ t. p ++ t) (sym (take-append-drop (length z) (b ++ z)))
      ∙ sym (append_assoc p j k)
      ∙ ap (λ t. (p ++ j) ++ t) (sym (append-nil k)) in
    let size_j : length j ≡ length z =
      omega (arith, length-take (length z) (b ++ z), length-append b z) in
    let size_k : length k ≡ length b =
      omega (arith, length-drop (length z) (b ++ z), length-append b z) in
    ap (λ t. write_at (idx + length z) t (p ++ (b ++ z))) chunk
    ∙ ap (write_at (idx + length z) b) split
    ∙ write_over (p ++ j) b k [] (idx + length z) (omega (arith, length-append p j)) size_k
    ∙ append_assoc p j (b ++ [])
    ∙ ap (λ t. p ++ (j ++ t)) (append-nil b)

module _ (n : ℕ) (f b : List ℕ) (e : ℕ × List ℕ) (sized : length e.1 ≡ e.0 + backlen_bytes e.0)
    (known : n < 2 ^ 16 - 1) (small : 6 + length (f ++ b) < 2 ^ 32) where
  abbrev total : ℕ
  total = 6 + length (f ++ b)

  abbrev extra : ℕ
  extra = e.0 + backlen_bytes e.0

  abbrev zeros : List ℕ
  zeros = replicate extra 0

  abbrev gap : List ℕ
  gap = take (length zeros) (b ++ zeros)

  -- The steps of `Insert` one after another.
  grown_packed :
      realloc (total + extra) (packed n (f ++ b))
      ≡ (big_endian 4 total ++ (big_endian 2 n ++ f)) ++ (b ++ zeros)
  grown_packed =
      realloc-packed n (f ++ b) extra small
      ∙ append_assoc (big_endian 4 total) (big_endian 2 n ++ (f ++ b)) zeros
      ∙ ap (λ t. big_endian 4 total ++ t)
          (append_assoc (big_endian 2 n) (f ++ b) zeros
            ∙ ap (λ t. big_endian 2 n ++ t) (append_assoc f b zeros))
      ∙ front (big_endian 4 total) (big_endian 2 n) f (b ++ zeros)

  front_length : (t k : ℕ) → 6 + length f ≡ length (big_endian 4 t ++ (big_endian 2 k ++ f))
  front_length t k = omega (
    arith,
    length-append (big_endian 4 t) (big_endian 2 k ++ f),
    length-append (big_endian 2 k) f,
    length-big_endian 4 t,
    length-big_endian 2 k,
  )

  abbrev moved : List ℕ
  moved = big_endian 4 total ++ (big_endian 2 n ++ (f ++ (gap ++ b)))

  moved_packed :
      (grown : List ℕ)
      → grown ≡ (big_endian 4 total ++ (big_endian 2 n ++ f)) ++ (b ++ zeros)
      → write_at
          (6 + length f + extra)
          (take (total - (6 + length f)) (drop (6 + length f) grown))
          grown
        ≡ moved
  moved_packed grown q =
      let sized_zeros : extra ≡ length zeros = sym (length-replicate extra 0) in
      ap
        (λ g.
          write_at (6 + length f + extra) (take (total - (6 + length f)) (drop (6 + length f) g)) g)
        q
      ∙ ap
          (λ x.
            write_at (6 + length f + x)
              (take (total - (6 + length f)) (
                drop (6 + length f)
                  ((big_endian 4 total ++ (big_endian 2 n ++ f)) ++ (b ++ zeros))))
              ((big_endian 4 total ++ (big_endian 2 n ++ f)) ++ (b ++ zeros)))
          sized_zeros
      ∙ moved_up (big_endian 4 total ++ (big_endian 2 n ++ f)) b zeros (6 + length f)
          (total - (6 + length f)) (front_length total n) (omega (arith, length-append f b))
      ∙ sym (front (big_endian 4 total) (big_endian 2 n) f (gap ++ b))

  counted_packed :
      (if element_count moved == 2 ^ 16 - 1
        then moved
        else set_num_of_elements (element_count moved + 1) moved)
      ≡ big_endian 4 total ++ (big_endian 2 (n + 1) ++ (f ++ (gap ++ b)))
  unfolding set_num_of_elements
  counted_packed =
      let count =
        element_count_at (big_endian 4 total) (f ++ (gap ++ b)) n (length-big_endian 4 total)
          (omega arith) in
      let known_count : (n == 2 ^ 16 - 1) ≡ false = ground arith in
      ap (λ k. if k == 2 ^ 16 - 1 then moved else set_num_of_elements (k + 1) moved) count
      ∙ ap (λ b. if b then moved else set_num_of_elements (n + 1) moved) known_count
      ∙ write_over (big_endian 4 total) (big_endian 2 (n + 1)) (big_endian 2 n) (f ++ (gap ++ b)) 4
          (sym (length-big_endian 4 total))
          (length-big_endian 2 n ∙ sym (length-big_endian 2 (n + 1)))

  insert_bytes-packed :
      insert_bytes (packed n (f ++ b)) (6 + length f) total e ≡ packed (n + 1) (f ++ (e.1 ++ b))
  unfolding insert_bytes set_total_bytes
  insert_bytes-packed =
      let m = moved_packed (realloc (total + extra) (packed n (f ++ b))) grown_packed in
      let count = λ (g : List ℕ).
        if element_count g == 2 ^ 16 - 1 then g else set_num_of_elements (element_count g + 1) g in
      let sum : total + extra ≡ 6 + length (f ++ (e.1 ++ b)) =
        omega (arith, length-append f b, length-append f (e.1 ++ b), length-append e.1 b) in
      let size_zeros : length zeros ≡ extra = length-replicate extra 0 in
      let gap_size : length gap ≡ length e.1 =
        omega (arith, length-take (length zeros) (b ++ zeros), length-append b zeros, size_zeros) in
      ap (λ g. write_at (6 + length f) e.1 (write_at 0 (big_endian 4 (total + extra)) (count g))) m
      ∙ ap (λ g. write_at (6 + length f) e.1 (write_at 0 (big_endian 4 (total + extra)) g))
          counted_packed
      ∙ ap (write_at (6 + length f) e.1) (
          write_over [] (big_endian 4 (total + extra)) (big_endian 4 total)
            (big_endian 2 (n + 1) ++ (f ++ (gap ++ b))) 0 refl
            (length-big_endian 4 total ∙ sym (length-big_endian 4 (total + extra))))
      ∙ ap (write_at (6 + length f) e.1)
          (front (big_endian 4 (total + extra)) (big_endian 2 (n + 1)) f (gap ++ b))
      ∙ write_over (big_endian 4 (total + extra) ++ (big_endian 2 (n + 1) ++ f)) e.1 gap b
          (6 + length f) (front_length (total + extra) (n + 1)) gap_size
      ∙ sym (front (big_endian 4 (total + extra)) (big_endian 2 (n + 1)) f (e.1 ++ b))
      ∙ ap (λ t. big_endian 4 t ++ (big_endian 2 (n + 1) ++ (f ++ (e.1 ++ b)))) sum

all_false :
    {A : Type 0} (a b c : Bool) (x y z w : A)
    → a ≡ false
    → b ≡ false
    → c ≡ false
    → (if a then x else if b then y else if c then z else w) ≡ w
all_false a b c x y z w p q r = rw (p, q, r) refl

-- `Insert` of an element at the entries `b` of a listpack, or at the mark of its end, puts the bytes of
-- the element between those before and `b`, and counts it in the header. The listpack has fewer than
-- 65,535 elements, the element is shorter than 2^31 bytes, and they fit in 2^32 - 1 bytes together.
pub insert-packed :
    (n : ℕ) (f b s : List ℕ)
    → n < 2 ^ 16 - 1
    → length s < 2 ^ 31
    → 0 < length b
    → 6 + length (f ++ b) + length (stored s) < 2 ^ 32
    → insert (packed n (f ++ b)) (6 + length f) s
      ≡ returned (packed (n + 1) (f ++ (stored s ++ b)), true)
unfolding insert
insert-packed n f b s known short more fits =
    let lp = packed n (f ++ b) in
    let idx = 6 + length f in
    let e = encode_element s in
    let total = 6 + length (f ++ b) in
    let sized = length-stored s short in
    let parts = length-append f b in
    ap
      (λ size.
        if ltb idx header_size || leb size idx
        then out_of_range
        else if ltb (2 ^ 32 - 1 - 10) (length s)
        then returned (lp, false)
        else if ltb (2 ^ 32 - 1 - size) (e.0 + backlen_bytes e.0)
        then returned (lp, false)
        else returned (insert_bytes lp idx size e, true))
      (total_bytes-packed n (f ++ b) (omega arith))
    ∙ all_false (ltb idx header_size || leb total idx) (ltb (2 ^ 32 - 1 - 10) (length s))
        (ltb (2 ^ 32 - 1 - total) (e.0 + backlen_bytes e.0)) out_of_range (returned (lp, false))
        (returned (lp, false)) (returned (insert_bytes lp idx total e, true)) (ground arith)
        (ground arith) (ground arith)
    ∙ ap (λ t. returned (t, true)) (insert_bytes-packed n f b e sized known (omega arith))

-- ===== src/ListPack/Integers.antt =====
-- memory/listpack.cpp: `IntegerAt` reads what `EncodeInteger` writes, at any place of the buffer.
use redis_simple.Common.{
  ℕ, ◌+◌, ◌-◌, ◌*◌, ◌/◌, ◌%◌, ◌^◌, ◌≤◌, ◌<◌, ◌≡◌, refl, ap, ◌∙◌, arith, Bool, true, false, some,
  List, [], ◌∷◌, ◌++◌, length, leb, if◌then◌else◌,
}
use redis_simple.Common.Int.{ℤ, pos, negsuc, InRange}
use redis_simple.ListPack.{
  at, big_endian, read_big, encode_backlen, encode_integer, with_backlen, encode_wide,
  encode_13_bit, type_of, encoding_at, integer_at, signed, backlen_of, backlen_at, EncodingType,
  unsigned_7_bit, integer_13_bit, integer_16_bit, integer_24_bit, integer_32_bit, integer_64_bit,
}
use redis_simple.ListPack.Bytes.{at-append, at_front, read_big_behind}
use redis_simple.ListPack.Placed.{placed, placed_at, type_at}

-- The entry `e` reads as the integer `v` wherever it stands: its type, its value and its back length.
pub record IsInteger (v : ℤ) (e : ℕ × List ℕ) : Type 0 where
  pub value :
      (pre rest : List ℕ)
      → integer_at
          (pre ++ (e.1 ++ rest))
          (length pre)
          (encoding_at (pre ++ (e.1 ++ rest)) (length pre))
        ≡ some v
  pub backlen : (pre rest : List ℕ) → backlen_at (pre ++ (e.1 ++ rest)) (length pre) ≡ e.0

module _ (v : ℤ) (T : EncodingType) (bytes : List ℕ) (size : ℕ) (first : ℕ) (others : List ℕ)
    (shape : bytes ≡ first ∷ others) (typed : type_of first ≡ T) where
  -- An entry whose value and back length are read so at its type.
  typed-IsInteger :
      ((pre rest : List ℕ) → integer_at (pre ++ (first ∷ (others ++ rest))) (length pre) T ≡ some v)
      → ((lp : List ℕ) (idx : ℕ) → backlen_of lp idx T ≡ size)
      → IsInteger v (with_backlen bytes size)
  unfolding backlen_at
  typed-IsInteger value backlen = record {
    value = λ pre rest.
        ap (integer_at (placed bytes size pre rest) (length pre))
          (type_at T bytes size first others shape typed pre rest)
        ∙ ap (λ lp. integer_at lp (length pre) T) (placed_at bytes size first others shape pre rest)
        ∙ value pre (encode_backlen size ++ rest);
    backlen = λ pre rest.
        ap (backlen_of (placed bytes size pre rest) (length pre))
          (type_at T bytes size first others shape typed pre rest)
        ∙ backlen (placed bytes size pre rest) (length pre);
  }

seven_bits-IsInteger : (n : ℕ) → n ≤ 127 → IsInteger (pos n) (with_backlen (n ∷ []) 1)
unfolding integer_at type_of backlen_of
seven_bits-IsInteger n h =
    typed-IsInteger (pos n) unsigned_7_bit (n ∷ []) 1 n [] refl (ground arith)
      (λ pre rest.
        ap (λ b. some (signed (2 ^ 64 - 1) 0 (b % 128))) (at_front pre (n ∷ rest))
        ∙ ap some (small (n % 128) (omega arith)))
      (λ lp idx. refl)
  where
    small : (m : ℕ) → m ≡ n → signed (2 ^ 64 - 1) 0 m ≡ pos n
    small m e = let b : leb (2 ^ 64 - 1) m ≡ false = ground arith in rw (b, e) refl

thirteen_bits-IsInteger :
    (v : ℤ) (u : ℕ)
    → u < 2 ^ 13
    → signed (2 ^ 12) (2 ^ 13 - 1) u ≡ v
    → IsInteger v (encode_13_bit u)
unfolding integer_at type_of backlen_of
thirteen_bits-IsInteger v u h e =
    typed-IsInteger v integer_13_bit ((0xc0 + u / 256) ∷ (u % 256) ∷ []) 2 (0xc0 + u / 256)
      ((u % 256) ∷ []) refl (ground arith)
      (λ pre rest.
        ap
          (λ b.
            some
              (signed (2 ^ 12) (2 ^ 13 - 1) (b % 32 * 256 + at (here pre rest) (length pre + 1))))
          (at_front pre (ys rest))
        ∙ ap (λ b. some (signed (2 ^ 12) (2 ^ 13 - 1) ((0xc0 + u / 256) % 32 * 256 + b)))
            (at-append pre (ys rest) 1)
        ∙ ap (λ n. some (signed (2 ^ 12) (2 ^ 13 - 1) n)) (joined (0xc0 + u / 256) refl)
        ∙ ap some e)
      (λ lp idx. refl)
  where
    ys : List ℕ → List ℕ
    ys rest = (0xc0 + u / 256) ∷ (u % 256) ∷ rest

    here : List ℕ → List ℕ → List ℕ
    here pre rest = pre ++ ys rest

    joined : (b : ℕ) → b ≡ 0xc0 + u / 256 → b % 32 * 256 + u % 256 ≡ u
    joined b e = omega arith

wide-IsInteger :
    (v : ℤ) (T : EncodingType) (type k u negstart negmax : ℕ)
    → type_of type ≡ T
    → ((lp : List ℕ) (idx : ℕ)
        → integer_at lp idx T ≡ some (signed negstart negmax (read_big lp (idx + 1) k)))
    → ((lp : List ℕ) (idx : ℕ) → backlen_of lp idx T ≡ k + 1)
    → u < 256 ^ k
    → signed negstart negmax u ≡ v
    → IsInteger v (encode_wide type k u)
wide-IsInteger v T type k u negstart negmax typed read backlen h e =
    typed-IsInteger v T (type ∷ big_endian k u) (k + 1) type (big_endian k u) refl typed
      (λ pre rest.
        read (pre ++ (type ∷ (big_endian k u ++ rest))) (length pre)
        ∙ ap (λ n. some (signed negstart negmax n)) (read_big_behind pre rest type k u h)
        ∙ ap some e)
      backlen

either-IsInteger :
    (v : ℤ) (b : Bool) (x y : ℕ × List ℕ)
    → (b ≡ true → IsInteger v x)
    → (b ≡ false → IsInteger v y)
    → IsInteger v (if b then x else y)
either-IsInteger v true x y h k = h refl
either-IsInteger v false x y h k = k refl

positive : (negstart negmax u : ℕ) → u < negstart → signed negstart negmax u ≡ pos u
positive negstart negmax u h = let b : leb negstart u ≡ false = ground arith in rw b refl

negative :
    (negstart negmax u m : ℕ) → negstart ≤ u → negmax - u ≡ m → signed negstart negmax u ≡ negsuc m
negative negstart negmax u m h e = let b : leb negstart u ≡ true = ground arith in rw (b, e) refl

module _ (v : ℤ) (u : ℕ) where
  two_bytes : u < 2 ^ 16 → signed (2 ^ 15) (2 ^ 16 - 1) u ≡ v → IsInteger v (encode_wide 0xf1 2 u)
  unfolding integer_at type_of backlen_of
  two_bytes h e =
      wide-IsInteger v integer_16_bit 0xf1 2 u (2 ^ 15) (2 ^ 16 - 1) refl (λ lp idx. refl)
        (λ lp idx. refl) h e

  three_bytes : u < 2 ^ 24 → signed (2 ^ 23) (2 ^ 24 - 1) u ≡ v → IsInteger v (encode_wide 0xf2 3 u)
  unfolding integer_at type_of backlen_of
  three_bytes h e =
      wide-IsInteger v integer_24_bit 0xf2 3 u (2 ^ 23) (2 ^ 24 - 1) refl (λ lp idx. refl)
        (λ lp idx. refl) h e

  four_bytes : u < 2 ^ 32 → signed (2 ^ 31) (2 ^ 32 - 1) u ≡ v → IsInteger v (encode_wide 0xf3 4 u)
  unfolding integer_at type_of backlen_of
  four_bytes h e =
      wide-IsInteger v integer_32_bit 0xf3 4 u (2 ^ 31) (2 ^ 32 - 1) refl (λ lp idx. refl)
        (λ lp idx. refl) h e

  eight_bytes : u < 2 ^ 64 → signed (2 ^ 63) (2 ^ 64 - 1) u ≡ v → IsInteger v (encode_wide 0xf4 8 u)
  unfolding integer_at type_of backlen_of
  eight_bytes h e =
      wide-IsInteger v integer_64_bit 0xf4 8 u (2 ^ 63) (2 ^ 64 - 1) refl (λ lp idx. refl)
        (λ lp idx. refl) h e

-- Every 64-bit integer that is encoded reads back, wherever its entry stands, with the back length
-- that `EncodeInteger` returns.
pub encode_integer-IsInteger : (v : ℤ) → InRange 63 v → IsInteger v (encode_integer v)
unfolding encode_integer
encode_integer-IsInteger (pos n) h =
    either-IsInteger (pos n) (leb n 127) _ _ (λ b. seven_bits-IsInteger n (ground arith))
      (λ b0.
        either-IsInteger (pos n) (leb n 4095) _ _
          (λ b.
            thirteen_bits-IsInteger (pos n) n (ground arith)
              (positive (2 ^ 12) (2 ^ 13 - 1) n (ground arith)))
          (λ b1.
            either-IsInteger (pos n) (leb n (2 ^ 15 - 1)) _ _
              (λ b.
                two_bytes (pos n) n (ground arith)
                  (positive (2 ^ 15) (2 ^ 16 - 1) n (ground arith)))
              (λ b2.
                either-IsInteger (pos n) (leb n (2 ^ 23 - 1)) _ _
                  (λ b.
                    three_bytes (pos n) n (ground arith)
                      (positive (2 ^ 23) (2 ^ 24 - 1) n (ground arith)))
                  (λ b3.
                    either-IsInteger (pos n) (leb n (2 ^ 31 - 1)) _ _
                      (λ b.
                        four_bytes (pos n) n (ground arith)
                          (positive (2 ^ 31) (2 ^ 32 - 1) n (ground arith)))
                      (λ b4.
                        eight_bytes (pos n) n (omega arith)
                          (positive (2 ^ 63) (2 ^ 64 - 1) n (omega arith)))))))
encode_integer-IsInteger (negsuc m) h =
    either-IsInteger (negsuc m) (leb (m + 1) 4096) _ _
      (λ b.
        thirteen_bits-IsInteger (negsuc m) (2 ^ 13 - (m + 1)) (omega arith)
          (negative (2 ^ 12) (2 ^ 13 - 1) (2 ^ 13 - (m + 1)) m (ground arith) (ground arith)))
      (λ b1.
        either-IsInteger (negsuc m) (leb (m + 1) (2 ^ 15)) _ _
          (λ b.
            two_bytes (negsuc m) (2 ^ 16 - (m + 1)) (omega arith)
              (negative (2 ^ 15) (2 ^ 16 - 1) (2 ^ 16 - (m + 1)) m (ground arith) (ground arith)))
          (λ b2.
            either-IsInteger (negsuc m) (leb (m + 1) (2 ^ 23)) _ _
              (λ b.
                three_bytes (negsuc m) (2 ^ 24 - (m + 1)) (omega arith) (
                  negative (2 ^ 23) (2 ^ 24 - 1) (2 ^ 24 - (m + 1)) m (ground arith)
                    (ground arith)))
              (λ b3.
                either-IsInteger (negsuc m) (leb (m + 1) (2 ^ 31)) _ _
                  (λ b. four_bytes (negsuc m) (2 ^ 32 - (m + 1)) (omega arith) (
                    negative (2 ^ 31) (2 ^ 32 - 1) (2 ^ 32 - (m + 1)) m (ground arith)
                      (ground arith)))
                  (λ b4. eight_bytes (negsuc m) (2 ^ 64 - (m + 1)) (omega arith) (
                    negative (2 ^ 63) (2 ^ 64 - 1) (2 ^ 64 - (m + 1)) m (omega arith)
                      (omega arith))))))

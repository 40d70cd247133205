-- ===== src/ListPack/Strings.antt =====
-- memory/listpack.cpp: `StringAt` reads what `EncodeString` writes, at any place of the buffer.
use redis_simple.Common.{
  ℕ, suc, ◌+◌, ◌*◌, ◌/◌, ◌%◌, ◌^◌, ◌≤◌, ◌<◌, ◌≡◌, refl, ap, ◌∙◌, arith, Bool, true, false, some,
  List, [], ◌∷◌, ◌++◌, length, append_assoc, ltb, leb, if◌then◌else◌, take, drop, take_exact,
}
use redis_simple.ListPack.{
  at, big_endian, read_big, encode_backlen, encode_string, with_backlen, type_of, encoding_at,
  string_at, string_length, decode_string_length, sign_extended, backlen_of, backlen_at,
  EncodingType, string_6_bit, string_12_bit, string_32_bit,
}
use redis_simple.ListPack.Bytes.{at-append, at_front, length-big_endian, read_big_behind}
use redis_simple.ListPack.Placed.{placed, placed_at, type_at}
use redis_simple.RequestParser.Size.{drop_past}

-- The entry `e` reads as the string `s` wherever it stands, with its back length.
pub record IsText (s : List ℕ) (e : ℕ × List ℕ) : Type 0 where
  pub value :
      (pre rest : List ℕ)
      → string_at
          (pre ++ (e.1 ++ rest))
          (length pre)
          (encoding_at (pre ++ (e.1 ++ rest)) (length pre))
        ≡ some s
  pub backlen : (pre rest : List ℕ) → backlen_at (pre ++ (e.1 ++ rest)) (length pre) ≡ e.0

-- An entry of `n + 1` bytes and then those of the string, whose length is read from the first ones.
module _ (s : List ℕ) (T : EncodingType) (first n : ℕ) (header : List ℕ) (long : length header ≡ n)
    (typed : type_of first ≡ T)
    (sized : (pre rest : List ℕ)
      → string_length (pre ++ (first ∷ ((header ++ s) ++ rest))) (length pre) T ≡ length s)
    (reads : (lp : List ℕ) (idx : ℕ)
      → string_at lp idx T ≡ some (take (decode_string_length lp idx) (drop (idx + (1 + n)) lp)))
    (counts : (lp : List ℕ) (idx : ℕ)
      → backlen_of lp idx T ≡ 1 + n + decode_string_length lp idx) where
  abbrev entry : List ℕ
  entry = first ∷ (header ++ s)

  decoded :
      (pre rest : List ℕ)
      → decode_string_length (placed entry (1 + n + length s) pre rest) (length pre) ≡ length s
  unfolding decode_string_length
  decoded pre rest =
      ap (string_length (placed entry (1 + n + length s) pre rest) (length pre))
        (type_at T entry (1 + n + length s) first (header ++ s) refl typed pre rest)
      ∙ ap (λ lp. string_length lp (length pre) T)
          (placed_at entry (1 + n + length s) first (header ++ s) refl pre rest)
      ∙ sized pre (encode_backlen (1 + n + length s) ++ rest)

  content :
      (pre rest : List ℕ)
      → drop (length pre + (1 + n)) (placed entry (1 + n + length s) pre rest)
        ≡ s ++ (encode_backlen (1 + n + length s) ++ rest)
  content pre rest =
      let tail = encode_backlen (1 + n + length s) ++ rest in
      let e : 1 + n ≡ suc (length header + 0) = omega arith in
      ap (drop (length pre + (1 + n)))
        (placed_at entry (1 + n + length s) first (header ++ s) refl pre rest)
      ∙ drop_past pre (first ∷ ((header ++ s) ++ tail)) (1 + n)
      ∙ ap (λ k. drop k (first ∷ ((header ++ s) ++ tail))) e
      ∙ ap (drop (length header + 0)) (append_assoc header s tail)
      ∙ drop_past header (s ++ tail) 0

  entry-IsText : IsText s (with_backlen entry (1 + n + length s))
  unfolding backlen_at
  entry-IsText = record {
    value = λ pre rest.
        let lp = placed entry (1 + n + length s) pre rest in
        ap (string_at lp (length pre))
          (type_at T entry (1 + n + length s) first (header ++ s) refl typed pre rest)
        ∙ reads lp (length pre)
        ∙ ap (λ k. some (take k (drop (length pre + (1 + n)) lp))) (decoded pre rest)
        ∙ ap (λ t. some (take (length s) t)) (content pre rest)
        ∙ ap some (take_exact s (encode_backlen (1 + n + length s) ++ rest));
    backlen = λ pre rest.
        let lp = placed entry (1 + n + length s) pre rest in
        ap (backlen_of lp (length pre))
          (type_at T entry (1 + n + length s) first (header ++ s) refl typed pre rest)
        ∙ counts lp (length pre)
        ∙ ap (λ k. 1 + n + k) (decoded pre rest);
  }

short-IsText :
    (s : List ℕ) → length s ≤ 63 → IsText s (with_backlen ((0x80 + length s) ∷ s) (1 + length s))
unfolding string_at string_length type_of backlen_of
short-IsText s h =
    entry-IsText s string_6_bit (0x80 + length s) 0 [] refl (ground arith)
      (λ pre rest.
        ap (λ b. b % 64) (at_front pre ((0x80 + length s) ∷ (s ++ rest)))
        ∙ low (0x80 + length s) refl)
      (λ lp idx. refl) (λ lp idx. refl)
  where
    low : (b : ℕ) → b ≡ 0x80 + length s → b % 64 ≡ length s
    low b e = omega arith

middle-IsText :
    (s : List ℕ)
    → length s ≤ 4095
    → IsText s (with_backlen ((0xe0 + length s / 256) ∷ (length s % 256) ∷ s) (2 + length s))
unfolding string_at string_length type_of backlen_of
middle-IsText s h =
    entry-IsText s string_12_bit (0xe0 + length s / 256) 1 ((length s % 256) ∷ []) refl
      (ground arith)
      (λ pre rest.
        ap (λ b. b % 16 * 256 + at (pre ++ ys rest) (length pre + 1)) (at_front pre (ys rest))
        ∙ ap (λ b. (0xe0 + length s / 256) % 16 * 256 + b) (at-append pre (ys rest) 1)
        ∙ joined (0xe0 + length s / 256) refl)
      (λ lp idx. refl) (λ lp idx. refl)
  where
    ys : List ℕ → List ℕ
    ys rest = (0xe0 + length s / 256) ∷ (length s % 256) ∷ (s ++ rest)

    joined : (b : ℕ) → b ≡ 0xe0 + length s / 256 → b % 16 * 256 + length s % 256 ≡ length s
    joined b e = omega arith

long-IsText :
    (s : List ℕ)
    → length s < 2 ^ 31
    → IsText s (with_backlen (0xf0 ∷ (big_endian 4 (length s) ++ s)) (5 + length s))
unfolding string_at string_length type_of backlen_of
long-IsText s h =
    entry-IsText s string_32_bit 0xf0 4 (big_endian 4 (length s)) (length-big_endian 4 (length s))
      refl
      (λ pre rest.
        ap (λ lp. sign_extended (read_big lp (length pre + 1) 4))
          (ap (λ t. pre ++ (0xf0 ∷ t)) (append_assoc (big_endian 4 (length s)) s rest))
        ∙ ap sign_extended (read_big_behind pre (s ++ rest) 0xf0 4 (length s) (omega arith))
        ∙ plain (length s) h)
      (λ lp idx. refl) (λ lp idx. refl)
  where
    plain : (n : ℕ) → n < 2 ^ 31 → sign_extended n ≡ n
    plain n h = let b : ltb n (2 ^ 31) ≡ true = ground arith in rw b refl

either-IsText :
    (s : List ℕ) (b : Bool) (x y : ℕ × List ℕ)
    → (b ≡ true → IsText s x)
    → (b ≡ false → IsText s y)
    → IsText s (if b then x else y)
either-IsText s true x y h k = h refl
either-IsText s false x y h k = k refl

-- Every string shorter than 2^31 bytes that is encoded reads back, wherever its entry stands, with the
-- back length that `EncodeString` returns.
pub encode_string-IsText : (s : List ℕ) → length s < 2 ^ 31 → IsText s (encode_string s)
unfolding encode_string
encode_string-IsText s h =
    either-IsText s (leb (length s) 63) _ _ (λ b. short-IsText s (ground arith))
      (λ b0.
        either-IsText s (leb (length s) 4095) _ _ (λ b. middle-IsText s (ground arith))
          (λ b. long-IsText s h))

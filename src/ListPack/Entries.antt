-- ===== src/ListPack/Entries.antt =====
-- memory/listpack.cpp: the entries that are written, their sizes and their texts.
use redis_simple.Common.{
  ℕ, zero, suc, ◌+◌, ◌-◌, ◌/◌, ◌%◌, ◌^◌, ◌<◌, ◌≡◌, refl, ap, sym, ◌∙◌, arith, Bool, true, false,
  Option, none, some, List, [], ◌∷◌, ◌++◌, length, length-append, leb, if◌then◌else◌,
}
use redis_simple.Common.Int.{ℤ, pos, negsuc, InRange}
use redis_simple.Decimal.{to_canonical_int64}
use redis_simple.Decimal.Spec.{text}
use redis_simple.Decimal.RoundTrip.{to_canonical_int64-some}
use redis_simple.ListPack.{
  at, big_endian, backlen_bytes, encode_backlen, encode_backlen_loop, with_backlen, encode_wide,
  encode_13_bit, encode_integer, encode_string, encode_element, encoding_at, backlen_at, text_at,
  string_at, integer_at, EncodingType, unsigned_7_bit, string_6_bit, integer_13_bit, string_12_bit,
  string_32_bit, integer_16_bit, integer_24_bit, integer_32_bit, integer_64_bit,
}
use redis_simple.ListPack.Bytes.{length-big_endian}
use redis_simple.ListPack.Integers.{encode_integer-IsInteger}
use redis_simple.ListPack.Strings.{encode_string-IsText}

-- The shape of an entry: as many bytes as its back length says, the first of which does not mark the
-- end of the listpack, and the back length behind them.
pub record IsEntry (e : ℕ × List ℕ) : Type 0 where
  pub bytes : List ℕ
  pub shape : e.1 ≡ bytes ++ encode_backlen e.0
  pub sized : length bytes ≡ e.0
  pub bounded : (0 < e.0) × (e.0 < 2 ^ 35)
  pub marked : at bytes 0 < 255

length-encode_backlen_loop : (n q : ℕ) → length (encode_backlen_loop n q) ≡ n
unfolding encode_backlen_loop
length-encode_backlen_loop zero q = refl
length-encode_backlen_loop (suc n) q = omega (arith, length-encode_backlen_loop n (q / 128))

backlen_bytes_pos : (b : ℕ) → 0 < backlen_bytes b
unfolding backlen_bytes
backlen_bytes_pos b = ground arith

pub length-encode_backlen : (b : ℕ) → length (encode_backlen b) ≡ backlen_bytes b
unfolding encode_backlen
length-encode_backlen b =
    omega (arith, length-encode_backlen_loop (backlen_bytes b - 1) (b / 128), backlen_bytes_pos b)

entry :
    (bytes : List ℕ) (size : ℕ)
    → length bytes ≡ size
    → 0 < size
    → size < 2 ^ 35
    → at bytes 0 < 255
    → IsEntry (with_backlen bytes size)
entry bytes size sized some_bytes below marked = record {
  bytes = bytes;
  shape = refl;
  sized = sized;
  bounded = (some_bytes, below);
  marked = marked;
}

either-IsEntry :
    (b : Bool) (x y : ℕ × List ℕ)
    → (b ≡ true → IsEntry x)
    → (b ≡ false → IsEntry y)
    → IsEntry (if b then x else y)
either-IsEntry true x y h k = h refl
either-IsEntry false x y h k = k refl

thirteen-IsEntry : (u : ℕ) → u < 2 ^ 13 → IsEntry (encode_13_bit u)
thirteen-IsEntry u h =
    entry ((0xc0 + u / 256) ∷ (u % 256) ∷ []) 2 refl (omega arith) (omega arith) (omega arith)

wide-IsEntry : (type k u : ℕ) → type < 255 → k < 2 ^ 34 → IsEntry (encode_wide type k u)
wide-IsEntry type k u h small =
    entry (type ∷ big_endian k u) (k + 1) (omega (arith, length-big_endian k u)) (omega arith)
      (omega arith) h

encode_integer-IsEntry : (v : ℤ) → InRange 63 v → IsEntry (encode_integer v)
unfolding encode_integer
encode_integer-IsEntry (pos n) h =
    either-IsEntry (leb n 127) _ _
      (λ b. entry (n ∷ []) 1 refl (omega arith) (omega arith) (ground arith))
      (λ b0.
        either-IsEntry (leb n 4095) _ _ (λ b. thirteen-IsEntry n (ground arith))
          (λ b1.
            either-IsEntry (leb n (2 ^ 15 - 1)) _ _
              (λ b. wide-IsEntry 0xf1 2 n (omega arith) (omega arith))
              (λ b2.
                either-IsEntry (leb n (2 ^ 23 - 1)) _ _
                  (λ b. wide-IsEntry 0xf2 3 n (omega arith) (omega arith))
                  (λ b3.
                    either-IsEntry (leb n (2 ^ 31 - 1)) _ _
                      (λ b. wide-IsEntry 0xf3 4 n (omega arith) (omega arith))
                      (λ b4. wide-IsEntry 0xf4 8 n (omega arith) (omega arith))))))
encode_integer-IsEntry (negsuc m) h =
    either-IsEntry (leb (m + 1) 4096) _ _ (λ b. thirteen-IsEntry (2 ^ 13 - (m + 1)) (omega arith))
      (λ b1.
        either-IsEntry (leb (m + 1) (2 ^ 15)) _ _
          (λ b. wide-IsEntry 0xf1 2 (2 ^ 16 - (m + 1)) (omega arith) (omega arith))
          (λ b2.
            either-IsEntry (leb (m + 1) (2 ^ 23)) _ _
              (λ b. wide-IsEntry 0xf2 3 (2 ^ 24 - (m + 1)) (omega arith) (omega arith))
              (λ b3.
                either-IsEntry (leb (m + 1) (2 ^ 31)) _ _
                  (λ b. wide-IsEntry 0xf3 4 (2 ^ 32 - (m + 1)) (omega arith) (omega arith))
                  (λ b4. wide-IsEntry 0xf4 8 (2 ^ 64 - (m + 1)) (omega arith) (omega arith)))))

encode_string-IsEntry : (s : List ℕ) → length s < 2 ^ 31 → IsEntry (encode_string s)
unfolding encode_string
encode_string-IsEntry s h =
    either-IsEntry (leb (length s) 63) _ _
      (λ b.
        entry ((0x80 + length s) ∷ s) (1 + length s) (omega arith) (omega arith) (omega arith)
          (ground arith))
      (λ b0.
        either-IsEntry (leb (length s) 4095) _ _
          (λ b.
            entry ((0xe0 + length s / 256) ∷ (length s % 256) ∷ s) (2 + length s) (omega arith)
              (omega arith) (omega arith) (ground arith))
          (λ b1.
            entry (0xf0 ∷ (big_endian 4 (length s) ++ s)) (5 + length s)
              (omega
                (arith, length-append (big_endian 4 (length s)) s, length-big_endian 4 (length s)))
              (omega arith) (omega arith) (omega arith)))

pub encode_element-IsEntry : (s : List ℕ) → length s < 2 ^ 31 → IsEntry (encode_element s)
unfolding encode_element
encode_element-IsEntry s h = cases (to_canonical_int64 s) (λ v e. (to_canonical_int64-some s v e).1)
  where
    cases :
        (o : Option ℤ)
        → ((v : ℤ) → o ≡ some v → InRange 63 v)
        → IsEntry
            (elim o as (λ o. ℕ × List ℕ) [ some v ↦ encode_integer v | none ↦ encode_string s ])
    cases none r = encode_string-IsEntry s h
    cases (some v) r = encode_integer-IsEntry v (r v refl)

-- What is read of the entry of a string, wherever it stands: the string, and its back length.
pub record IsElement (s : List ℕ) (e : ℕ × List ℕ) : Type 0 where
  pub value :
      (pre rest : List ℕ)
      → text_at
          (pre ++ (e.1 ++ rest))
          (length pre)
          (encoding_at (pre ++ (e.1 ++ rest)) (length pre))
        ≡ some s
  pub backlen : (pre rest : List ℕ) → backlen_at (pre ++ (e.1 ++ rest)) (length pre) ≡ e.0

abbrev text_of : Option ℤ → Option (List ℕ)
text_of none = none
text_of (some v) = some (text v)

-- A type is that of a string or of an integer.
text_at-integer_at :
    (lp : List ℕ) (idx : ℕ) (T : EncodingType) (v : ℤ)
    → integer_at lp idx T ≡ some v
    → text_at lp idx T ≡ some (text v)
unfolding text_at string_at integer_at
text_at-integer_at lp idx unsigned_7_bit v h = ap text_of h
text_at-integer_at lp idx integer_13_bit v h = ap text_of h
text_at-integer_at lp idx integer_16_bit v h = ap text_of h
text_at-integer_at lp idx integer_24_bit v h = ap text_of h
text_at-integer_at lp idx integer_32_bit v h = ap text_of h
text_at-integer_at lp idx integer_64_bit v h = ap text_of h
text_at-integer_at lp idx string_6_bit v h = absurd (ground arith)
text_at-integer_at lp idx string_12_bit v h = absurd (ground arith)
text_at-integer_at lp idx string_32_bit v h = absurd (ground arith)

text_at-string_at :
    (lp : List ℕ) (idx : ℕ) (T : EncodingType) (s : List ℕ)
    → string_at lp idx T ≡ some s
    → text_at lp idx T ≡ some s
unfolding text_at
text_at-string_at lp idx T s h =
    ap
      (λ o. elim o as (λ o. Option (List ℕ)) [
        | some s ↦ some s
        | none ↦ elim (integer_at lp idx T) as (λ o. Option (List ℕ)) [
          | none ↦ none
          | some val ↦ some (text val)
        ]
      ])
      h

pub encode_element-IsElement : (s : List ℕ) → length s < 2 ^ 31 → IsElement s (encode_element s)
unfolding encode_element
encode_element-IsElement s h = cases (to_canonical_int64 s) (λ v e. to_canonical_int64-some s v e)
  where
    cases :
        (o : Option ℤ)
        → ((v : ℤ) → o ≡ some v → (s ≡ text v) × InRange 63 v)
        → IsElement s
            (elim o as (λ o. ℕ × List ℕ) [ some v ↦ encode_integer v | none ↦ encode_string s ])
    cases none r =
        let t = encode_string-IsText s h in
        record {
          value = λ pre rest.
              let lp = pre ++ ((encode_string s).1 ++ rest) in
              text_at-string_at lp (length pre) (encoding_at lp (length pre)) s (t.value pre rest);
          backlen = t.backlen;
        }
    cases (some v) r =
        let i = encode_integer-IsInteger v (r v refl).1 in
        record {
          value = λ pre rest.
              let lp = pre ++ ((encode_integer v).1 ++ rest) in
              text_at-integer_at lp (length pre) (encoding_at lp (length pre)) v (i.value pre rest)
              ∙ ap some (sym (r v refl).0);
          backlen = i.backlen;
        }

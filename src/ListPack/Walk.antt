-- ===== src/ListPack/Walk.antt =====
-- memory/listpack.cpp: `Get`, `Next` and `Prev` on the entries of a listpack.
use redis_simple.Common.{
  ℕ, ◌+◌, ◌-◌, ◌^◌, ◌≤◌, ◌<◌, ◌≡◌, refl, ap, sym, ◌∙◌, arith, Bool, true, false, ◌||◌, none, some,
  List, [], ◌∷◌, ◌++◌, length, length-append, append_assoc, ltb, leb, ◌==◌, if◌then◌else◌,
}
use redis_simple.ListPack.{
  at, backlen_bytes, encode_backlen, encode_element, encoding_at, text_at, total_bytes,
  decode_backlen, get, skip, next, prev, out_of_range, returned, header_size, eof,
}
use redis_simple.ListPack.Bytes.{at-append, at_front}
use redis_simple.ListPack.Backlen.{decode_backlen-encode_backlen}
use redis_simple.ListPack.Entries.{
  length-encode_backlen, encode_element-IsEntry, encode_element-IsElement,
}

-- The bytes that an element is stored as.
abbrev pub stored : List ℕ → List ℕ
stored s = (encode_element s).1

pub length-stored :
    (s : List ℕ)
    → length s < 2 ^ 31
    → length (stored s) ≡ (encode_element s).0 + backlen_bytes (encode_element s).0
length-stored s h =
    let e = encode_element-IsEntry s h in
    ap length e.shape
    ∙ length-append e.bytes (encode_backlen (encode_element s).0)
    ∙ omega (arith, e.sized, length-encode_backlen (encode_element s).0)

at-front_append : (xs ys : List ℕ) → 0 < length xs → at (xs ++ ys) 0 ≡ at xs 0
at-front_append [] ys h = absurd (omega arith)
at-front_append (x ∷ xs) ys h = refl

both_false :
    {A : Type 0} (a b : Bool) (x y z : A)
    → a ≡ false
    → b ≡ false
    → (if a then x else if b then y else z) ≡ z
both_false a b x y z p q = rw (p, q) refl

-- A buffer with the entry of an element behind `pre`.
abbrev pub buffer_of : List ℕ → List ℕ → List ℕ → List ℕ
buffer_of pre s rest = pre ++ (stored s ++ rest)

module _ (pre s rest : List ℕ) (short : length s < 2 ^ 31) where
  abbrev buffer : List ℕ
  buffer = buffer_of pre s rest

  buffer_length : length buffer ≡ length pre + (length (stored s) + length rest)
  buffer_length = omega (arith, length-append pre (stored s ++ rest), length-append (stored s) rest)

  stored_pos : 0 < length (stored s)
  stored_pos =
      let e = encode_element-IsEntry s short in
      let p = e.bounded.0 in omega (arith, length-stored s short)

  not_eof : (at buffer (length pre) == eof) ≡ false
  not_eof =
      let e = encode_element-IsEntry s short in
      let p = e.bounded.0 in
      let q = e.sized in
      let m = e.marked in
      let here : at buffer (length pre) ≡ at e.bytes 0 =
        at_front pre (stored s ++ rest)
        ∙ at-front_append (stored s) rest stored_pos
        ∙ ap (λ b. at b 0) e.shape
        ∙ at-front_append e.bytes (encode_backlen (encode_element s).0) (omega arith) in
      ground arith

  skip-stored : skip buffer (length pre) ≡ length pre + length (stored s)
  unfolding skip
  skip-stored =
      let e = encode_element-IsElement s short in
      rw (not_eof, e.backlen pre rest) (omega (arith, length-stored s short))

  after : at buffer (length pre + length (stored s)) ≡ at rest 0
  after = at-append pre (stored s ++ rest) (length (stored s)) ∙ at_front (stored s) rest

  decode_backlen-stored :
      decode_backlen buffer (length pre + length (stored s) - 1) 0 ≡ (encode_element s).0
  decode_backlen-stored =
      let e = encode_element-IsEntry s short in
      let b = (encode_element s).0 in
      let split : buffer ≡ (pre ++ e.bytes) ++ (encode_backlen b ++ rest) =
        ap (λ t. pre ++ (t ++ rest)) e.shape
        ∙ ap (λ t. pre ++ t) (append_assoc e.bytes (encode_backlen b) rest)
        ∙ sym (append_assoc pre e.bytes (encode_backlen b ++ rest)) in
      let start : length pre + length (stored s) - 1
          ≡ length (pre ++ e.bytes) + backlen_bytes b - 1 =
        omega (arith, length-append pre e.bytes, length-stored s short, e.sized) in
      ap (λ i. decode_backlen buffer i 0) start
      ∙ ap (λ lp. decode_backlen lp (length (pre ++ e.bytes) + backlen_bytes b - 1) 0) split
      ∙ decode_backlen-encode_backlen (pre ++ e.bytes) rest b e.bounded.1

  module _ (behind : 6 ≤ length pre) (more : 0 < length rest)
      (whole : total_bytes buffer ≡ length buffer) where
    -- `Get` of the entry of an element, wherever it stands in a listpack, returns its text, also where it
    -- is stored as an integer. The element is shorter than 2^31 bytes.
    pub get-stored : get buffer (length pre) ≡ returned (some s)
    unfolding get
    get-stored =
        let size = buffer_length in
        let full = stored_pos in
        both_false (ltb (length pre) header_size || leb (total_bytes buffer) (length pre))
          (length pre == total_bytes buffer - 1) out_of_range (returned none)
          (returned (text_at buffer (length pre) (encoding_at buffer (length pre)))) (ground arith)
          (ground arith)
        ∙ ap returned ((encode_element-IsElement s short).value pre rest)

    -- `Next` goes from the entry of an element to the byte behind it, unless that marks the end. The
    -- element is shorter than 2^31 bytes.
    pub next-stored :
        next buffer (length pre)
        ≡ returned (if at rest 0 == eof then none else some (length pre + length (stored s)))
    unfolding next
    next-stored =
        let size = buffer_length in
        let full = stored_pos in
        both_false (ltb (length pre) header_size || leb (total_bytes buffer) (length pre))
          (at buffer (length pre) == eof) out_of_range (returned none)
          (if at buffer (skip buffer (length pre)) == eof
            then returned none
            else returned (some (skip buffer (length pre))))
          (ground arith) not_eof
        ∙ ap (λ i. if at buffer i == eof then returned none else returned (some i)) skip-stored
        ∙ ap
            (λ b.
              if b == eof then returned none else returned (some (length pre + length (stored s))))
            after
        ∙ inside (at rest 0 == eof)
      where
        inside :
            (b : Bool)
            → (if b then returned none else returned (some (length pre + length (stored s))))
              ≡ returned (if b then none else some (length pre + length (stored s)))
        inside true = refl
        inside false = refl

    -- `Prev` goes from the byte behind the entry of an element back to the entry. The element is shorter
    -- than 2^31 bytes.
    pub prev-stored : prev buffer (length pre + length (stored s)) ≡ returned (some (length pre))
    unfolding prev
    prev-stored =
        let size = buffer_length in
        let full = stored_pos in
        let idx = length pre + length (stored s) in
        both_false (ltb idx header_size || leb (total_bytes buffer) idx)
          (leb (total_bytes buffer) (header_size + 1) || idx == header_size) out_of_range
          (returned none)
          (returned (
            some (
              idx
              - 1
              - decode_backlen buffer (idx - 1) 0
              - backlen_bytes (decode_backlen buffer (idx - 1) 0)
              + 1)))
          (ground arith) (ground arith)
        ∙ ap (λ b. returned (some (idx - 1 - b - backlen_bytes b + 1))) decode_backlen-stored
        ∙ ap (λ n. returned (some n)) (omega (arith, length-stored s short))

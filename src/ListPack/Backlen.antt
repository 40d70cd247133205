-- ===== src/ListPack/Backlen.antt =====
-- memory/listpack.cpp: `DecodeBacklen` reads what `EncodeBacklen` writes.
use redis_simple.Common.{
  ℕ, zero, suc, ◌+◌, ◌-◌, ◌*◌, ◌/◌, ◌%◌, ◌^◌, ◌<◌, ◌≡◌, refl, ap, sym, ◌∙◌, arith, true, false,
  List, ◌∷◌, ◌++◌, length, ltb, leb, if◌then◌else◌, Bool-cases, inl, inr,
}
use redis_simple.ListPack.{at, backlen_bytes, encode_backlen, encode_backlen_loop, decode_backlen}
use redis_simple.ListPack.Bytes.{at-append, at_front}

decode_backlen_first :
    (lp : List ℕ) (idx acc : ℕ)
    → at lp idx < 128
    → decode_backlen lp idx acc ≡ acc * 128 + at lp idx
unfolding decode_backlen
decode_backlen_first lp zero acc h = omega arith
decode_backlen_first lp (suc idx) acc h =
    let b : ltb (at lp (suc idx)) 128 ≡ true = ground arith in rw b (omega arith)

decode_backlen_next :
    (lp : List ℕ) (idx i acc x : ℕ)
    → i ≡ suc idx
    → at lp i ≡ x + 128
    → x < 128
    → decode_backlen lp i acc ≡ decode_backlen lp idx (acc * 128 + x)
unfolding decode_backlen
decode_backlen_next lp idx i acc x e here h =
    ap (λ i. decode_backlen lp i acc) e ∙ cases (at lp (suc idx)) (ap (at lp) (sym e) ∙ here)
  where
    cases :
        (y : ℕ)
        → y ≡ x + 128
        → (if ltb y 128 then acc * 128 + y % 128 else decode_backlen lp idx (acc * 128 + y % 128))
          ≡ decode_backlen lp idx (acc * 128 + x)
    cases y q =
        let b : ltb y 128 ≡ false = ground arith in
        let low : y % 128 ≡ x = omega arith in rw (b, low) refl

module _ (pre rest : List ℕ) (b : ℕ) where
  abbrev d : ℕ → ℕ
  d q = q % 128 + 128

  one_byte : b < 2 ^ 7 → decode_backlen (pre ++ ((b % 128) ∷ rest)) (length pre) 0 ≡ b
  one_byte h =
      let x = at_front pre ((b % 128) ∷ rest) in
      decode_backlen_first (pre ++ ((b % 128) ∷ rest)) (length pre) 0 (omega arith) ∙ omega arith

  module _ (ys : List ℕ) where
    abbrev lp : List ℕ
    lp = pre ++ ((b % 128) ∷ ys)

    last_step : (acc : ℕ) → decode_backlen lp (length pre) acc ≡ acc * 128 + b % 128
    last_step acc =
        let x = at_front pre ((b % 128) ∷ ys) in
        decode_backlen_first lp (length pre) acc (omega arith) ∙ omega arith

    step :
        (k q acc : ℕ)
        → at ((b % 128) ∷ ys) (k + 1) ≡ d q
        → decode_backlen lp (length pre + (k + 1)) acc
          ≡ decode_backlen lp (length pre + k) (acc * 128 + q % 128)
    step k q acc here =
        decode_backlen_next lp (length pre + k) (length pre + (k + 1)) acc (q % 128) (omega arith)
          (at-append pre ((b % 128) ∷ ys) (k + 1) ∙ here) (omega arith)

    finish : (acc : ℕ) → decode_backlen lp (length pre + 0) acc ≡ acc * 128 + b % 128
    finish acc = ap (λ i. decode_backlen lp i acc) (omega arith) ∙ last_step acc

  two_bytes :
      b < 2 ^ 14 → decode_backlen (pre ++ ((b % 128) ∷ d (b / 128) ∷ rest)) (length pre + 1) 0 ≡ b
  two_bytes h =
      let ys = d (b / 128) ∷ rest in
      step ys 0 (b / 128) 0 refl ∙ finish ys (0 * 128 + b / 128 % 128) ∙ omega arith

  three_bytes :
      b < 2 ^ 21
      → decode_backlen
          (pre ++ ((b % 128) ∷ d (b / 128) ∷ d (b / 128 / 128) ∷ rest))
          (length pre + 2)
          0
        ≡ b
  three_bytes h =
      let ys = d (b / 128) ∷ d (b / 128 / 128) ∷ rest in
      step ys 1 (b / 128 / 128) 0 refl
      ∙ step ys 0 (b / 128) (0 * 128 + b / 128 / 128 % 128) refl
      ∙ finish ys ((0 * 128 + b / 128 / 128 % 128) * 128 + b / 128 % 128)
      ∙ omega arith

  four_bytes :
      b < 2 ^ 28
      → decode_backlen
          (pre ++ ((b % 128) ∷ d (b / 128) ∷ d (b / 128 / 128) ∷ d (b / 128 / 128 / 128) ∷ rest))
          (length pre + 3)
          0
        ≡ b
  four_bytes h =
      let ys = d (b / 128) ∷ d (b / 128 / 128) ∷ d (b / 128 / 128 / 128) ∷ rest in
      let a3 = 0 * 128 + b / 128 / 128 / 128 % 128 in
      let a2 = a3 * 128 + b / 128 / 128 % 128 in
      step ys 2 (b / 128 / 128 / 128) 0 refl
      ∙ step ys 1 (b / 128 / 128) a3 refl
      ∙ step ys 0 (b / 128) a2 refl
      ∙ finish ys (a2 * 128 + b / 128 % 128)
      ∙ omega arith

  five_bytes :
      b < 2 ^ 35
      → decode_backlen
          (pre
            ++ ((b % 128)
                ∷ d (b / 128)
                ∷ d (b / 128 / 128)
                ∷ d (b / 128 / 128 / 128)
                ∷ d (b / 128 / 128 / 128 / 128)
                ∷ rest))
          (length pre + 4)
          0
        ≡ b
  five_bytes h =
      let ys =
        d (b / 128)
        ∷ d (b / 128 / 128)
        ∷ d (b / 128 / 128 / 128)
        ∷ d (b / 128 / 128 / 128 / 128)
        ∷ rest in
      let a4 = 0 * 128 + b / 128 / 128 / 128 / 128 % 128 in
      let a3 = a4 * 128 + b / 128 / 128 / 128 % 128 in
      let a2 = a3 * 128 + b / 128 / 128 % 128 in
      step ys 3 (b / 128 / 128 / 128 / 128) 0 refl
      ∙ step ys 2 (b / 128 / 128 / 128) a4 refl
      ∙ step ys 1 (b / 128 / 128) a3 refl
      ∙ step ys 0 (b / 128) a2 refl
      ∙ finish ys (a2 * 128 + b / 128 % 128)
      ∙ omega arith

-- `DecodeBacklen` from the last byte of a back length, wherever it stands, gives the back length that
-- was encoded, which is below 2^35.
pub decode_backlen-encode_backlen :
    (pre rest : List ℕ) (b : ℕ)
    → b < 2 ^ 35
    → decode_backlen (pre ++ (encode_backlen b ++ rest)) (length pre + backlen_bytes b - 1) 0 ≡ b
unfolding encode_backlen encode_backlen_loop backlen_bytes
decode_backlen-encode_backlen pre rest b h = elim (Bool-cases (leb b (2 ^ 7 - 1))) [
  | inl e1 ↦
      let i : length pre + 1 - 1 ≡ length pre = omega arith in
      rw (e1, i) (one_byte pre rest b (ground arith))
  | inr n1 ↦ elim (Bool-cases (leb b (2 ^ 14 - 1))) [
    | inl e2 ↦
        let i : length pre + 2 - 1 ≡ length pre + 1 = omega arith in
        rw (n1, e2, i) (two_bytes pre rest b (ground arith))
    | inr n2 ↦ elim (Bool-cases (leb b (2 ^ 21 - 1))) [
      | inl e3 ↦
          let i : length pre + 3 - 1 ≡ length pre + 2 = omega arith in
          rw (n1, n2, e3, i) (three_bytes pre rest b (ground arith))
      | inr n3 ↦ elim (Bool-cases (leb b (2 ^ 28 - 1))) [
        | inl e4 ↦
            let i : length pre + 4 - 1 ≡ length pre + 3 = omega arith in
            rw (n1, n2, n3, e4, i) (four_bytes pre rest b (ground arith))
        | inr n4 ↦
            let i : length pre + 5 - 1 ≡ length pre + 4 = omega arith in
            rw (n1, n2, n3, n4, i) (five_bytes pre rest b h)
      ]
    ]
  ]
]

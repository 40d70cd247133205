-- ===== src/ListPack/Bytes.antt =====
-- memory/listpack.cpp: bytes read at any place of a buffer.
use redis_simple.Common.{
  ℕ, zero, suc, ◌+◌, ◌*◌, ◌/◌, ◌%◌, ◌^◌, ◌<◌, ◌≡◌, refl, ap, sym, ◌∙◌, arith, List, [], ◌∷◌, ◌++◌,
  length, length-append, append_assoc,
}
use redis_simple.ListPack.{at, big_endian, read_big}
use native.Mathlib.Nat.{pow-suc}

pub at-append : (pre xs : List ℕ) (k : ℕ) → at (pre ++ xs) (length pre + k) ≡ at xs k
at-append [] xs k = let e : 0 + k ≡ k = omega arith in rw e refl
at-append (p ∷ pre) xs k =
    let e : suc (length pre) + k ≡ suc (length pre + k) = omega arith in rw e (at-append pre xs k)

pub at_front : (pre xs : List ℕ) → at (pre ++ xs) (length pre) ≡ at xs 0
at_front pre xs = ap (at (pre ++ xs)) (omega arith) ∙ at-append pre xs 0

pub length-big_endian : (k u : ℕ) → length (big_endian k u) ≡ k
unfolding big_endian
length-big_endian zero u = refl
length-big_endian (suc k) u =
    length-append (big_endian k (u / 256)) ((u % 256) ∷ [])
    ∙ omega (arith, length-big_endian k (u / 256))

-- The bytes of a number are read back.
pub read_big-big_endian :
    (pre rest : List ℕ) (k u : ℕ)
    → u < 256 ^ k
    → read_big (pre ++ (big_endian k u ++ rest)) (length pre) k ≡ u
unfolding big_endian read_big
read_big-big_endian pre rest zero u h = omega arith
read_big-big_endian pre rest (suc k) u h =
    let high = big_endian k (u / 256) in
    let here = length-big_endian k (u / 256) in
    let split : pre ++ ((high ++ (u % 256) ∷ []) ++ rest) ≡ pre ++ (high ++ ((u % 256) ∷ rest)) =
      ap (λ t. pre ++ t) (append_assoc high ((u % 256) ∷ []) rest) in
    let last : at (pre ++ (high ++ ((u % 256) ∷ rest))) (length pre + k) ≡ u % 256 =
      at-append pre (high ++ ((u % 256) ∷ rest)) k
      ∙ ap (at (high ++ ((u % 256) ∷ rest))) (sym here)
      ∙ at_front high ((u % 256) ∷ rest) in
    let first =
      read_big-big_endian pre ((u % 256) ∷ rest) k (u / 256) (omega (arith, pow-suc 256 k)) in
    ap (λ lp. read_big lp (length pre) k * 256 + at lp (length pre + k)) split
    ∙ ap (λ n. n * 256 + at (pre ++ (high ++ ((u % 256) ∷ rest))) (length pre + k)) first
    ∙ ap (λ n. u / 256 * 256 + n) last
    ∙ omega arith

-- Behind a byte.
pub read_big_behind :
    (pre rest : List ℕ) (c k u : ℕ)
    → u < 256 ^ k
    → read_big (pre ++ (c ∷ (big_endian k u ++ rest))) (length pre + 1) k ≡ u
read_big_behind pre rest c k u h =
    let start : length (pre ++ c ∷ []) ≡ length pre + 1 = length-append pre (c ∷ []) in
    ap (λ lp. read_big lp (length pre + 1) k)
      (sym (append_assoc pre (c ∷ []) (big_endian k u ++ rest)))
    ∙ ap (λ n. read_big ((pre ++ c ∷ []) ++ (big_endian k u ++ rest)) n k) (sym start)
    ∙ read_big-big_endian (pre ++ c ∷ []) rest k u h

-- ===== src/ListPack/Placed.antt =====
-- memory/listpack.cpp: an entry with its back length at any place of a buffer, and its type there.
use redis_simple.Common.{ℕ, ◌≡◌, ap, ◌∙◌, List, ◌∷◌, ◌++◌, length, append_assoc}
use redis_simple.ListPack.{EncodingType, encode_backlen, encoding_at, type_of}
use redis_simple.ListPack.Bytes.{at_front}

-- The bytes of an entry, between others.
abbrev pub placed : List ℕ → ℕ → List ℕ → List ℕ → List ℕ
placed bytes size pre rest = pre ++ ((bytes ++ encode_backlen size) ++ rest)

module _ (bytes : List ℕ) (size : ℕ) (first : ℕ) (others : List ℕ)
    (shape : bytes ≡ first ∷ others) where
  pub placed_at :
      (pre rest : List ℕ)
      → placed bytes size pre rest ≡ pre ++ (first ∷ (others ++ (encode_backlen size ++ rest)))
  placed_at pre rest =
      ap (λ t. pre ++ t)
        (append_assoc bytes (encode_backlen size) rest
          ∙ ap (λ b. b ++ (encode_backlen size ++ rest)) shape)

pub type_at :
    (T : EncodingType) (bytes : List ℕ) (size : ℕ) (first : ℕ) (others : List ℕ)
    (shape : bytes ≡ first ∷ others)
    → type_of first ≡ T
    → (pre rest : List ℕ) → encoding_at (placed bytes size pre rest) (length pre) ≡ T
type_at T bytes size first others shape typed pre rest =
    ap (λ lp. encoding_at lp (length pre)) (placed_at bytes size first others shape pre rest)
    ∙ ap type_of (at_front pre (first ∷ (others ++ (encode_backlen size ++ rest))))
    ∙ typed

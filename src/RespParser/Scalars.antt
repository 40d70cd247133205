-- ===== src/RespParser/Scalars.antt =====
-- cli/resp_parser.cpp: the responses that are not aggregates, at any place of the input.
use redis_simple.Common.{
  ℕ, suc, ◌+◌, ◌-◌, ◌^◌, ◌<◌, ◌≡◌, refl, ap, sym, ◌∙◌, arith, true, false, none, some, List, [],
  ◌∷◌, ◌++◌, ltb, leb, ◌==◌, if◌then◌else◌, length, length-append, take, drop, take_exact,
  drop_exact, drop-drop,
}
use redis_simple.Common.Keys.{same_key}
use redis_simple.Common.Int.{ℤ, pos, InRange}
use redis_simple.Decimal.{codes, to_int64}
use redis_simple.Decimal.Spec.{text}
use redis_simple.Replies.{crlf}
use redis_simple.RespParser.Texts.{parse_float_text}
use redis_simple.RespParser.{
  Parsed, done, invalid_result, nil_reply, parse_line, parse_size, bulk_content, bulk_length,
  parse_bulk_string, parse_integer, parse_null, parse_float, parse_at, out_of_depth, parse_kind,
  kind_of, parse_aggregate, aggregate_content,
}
use redis_simple.RespParser.Line.{
  IsLine, text-IsLine, with_line-at, parse_size-text, text_is_not_null, to_int64-text,
}
use redis_simple.RequestParser.Size.{drop_past}

-- A line behind its type, and `rest` behind the line.
abbrev pub at_type : List ℕ → ℕ → List ℕ → List ℕ → List ℕ
at_type pre c ds rest = pre ++ c ∷ (ds ++ (crlf ++ rest))

taken : (p n : ℕ) → p + 1 + n - p + 2 ≡ n + 3
taken p n = omega arith

module _ (pre : List ℕ) (c : ℕ) (ds rest : List ℕ) (good : IsLine ds) (reply : List (List ℕ)) where
  pub parse_line-at :
      parse_line (at_type pre c ds rest) (length pre) reply
      ≡ (done (length ds + 3), reply ++ ds ∷ [])
  unfolding parse_line
  parse_line-at =
      with_line-at pre c ds rest good reply
        (λ end text. (done (end - length pre + 2), reply ++ text ∷ []))
      ∙ ap (λ n. (done n, reply ++ ds ∷ [])) (taken (length pre) (length ds))

  pub parse_float-at :
      parse_float_text ds ≡ some ds
      → parse_float (at_type pre c ds rest) (length pre) reply
        ≡ (done (length ds + 3), reply ++ ds ∷ [])
  unfolding parse_float
  parse_float-at same =
      with_line-at pre c ds rest good reply (λ end text. elim (parse_float_text text) [
        | none ↦ (invalid_result, reply)
        | some rendered ↦ (done (end - length pre + 2), reply ++ rendered ∷ [])
      ])
      ∙ rw (same, taken (length pre) (length ds)) refl

  pub parse_aggregate-at :
      (element : ℕ → List (List ℕ) → Parsed) (multiplier : ℕ)
      → parse_aggregate element (at_type pre c ds rest) (length pre) multiplier reply
        ≡ aggregate_content element
            (length pre)
            (length pre + 1 + length ds)
            multiplier
            reply
            (parse_size ds)
  unfolding parse_aggregate
  parse_aggregate-at element multiplier =
      with_line-at pre c ds rest good reply
        (λ end text. aggregate_content element (length pre) end multiplier reply (parse_size text))

  pub parse_bulk_string-at :
      parse_bulk_string (at_type pre c ds rest) (length pre) reply
      ≡ bulk_length (at_type pre c ds rest) (length pre) (length pre + 1 + length ds) reply ds
  unfolding parse_bulk_string
  parse_bulk_string-at =
      with_line-at pre c ds rest good reply
        (λ end text. bulk_length (at_type pre c ds rest) (length pre) end reply text)

module _ (pre : List ℕ) (c : ℕ) (rest : List ℕ) (reply : List (List ℕ)) where
  pub parse_integer-at :
      (v : ℤ)
      → InRange 63 v
      → parse_integer (at_type pre c (text v) rest) (length pre) reply
        ≡ (done (length (text v) + 3), reply ++ text v ∷ [])
  unfolding parse_integer
  parse_integer-at v h =
      with_line-at pre c (text v) rest (text-IsLine v) reply (λ end text_read.
        elim (to_int64 text_read) [
          | none ↦ (invalid_result, reply)
          | some value ↦ (done (end - length pre + 2), reply ++ text value ∷ [])
        ])
      ∙ rw (to_int64-text v h, taken (length pre) (length (text v))) refl

  pub parse_null-at :
      parse_null (at_type pre c [] rest) (length pre) reply ≡ (done 3, reply ++ nil_reply ∷ [])
  unfolding parse_null
  parse_null-at =
      let e : (length pre + 1 + 0 == length pre + 1) ≡ true = ground arith in
      with_line-at pre c [] rest tt reply (λ end text.
        if end == length pre + 1
        then (done 3, reply ++ nil_reply ∷ [])
        else (invalid_result, reply))
      ∙ rw e refl

  pub parse_bulk_string-null :
      parse_bulk_string (at_type pre c (codes "-1") rest) (length pre) reply
      ≡ (done 5, reply ++ nil_reply ∷ [])
  unfolding bulk_length same_key
  parse_bulk_string-null =
      parse_bulk_string-at pre c (codes "-1") rest (refl, (refl, tt)) reply
      ∙ ap (λ n. (done n, reply ++ nil_reply ∷ [])) (taken (length pre) 2)

  -- A bulk string: the header, the bytes and a line end.
  pub parse_bulk_string-value :
      (s : List ℕ)
      → length (at_type pre c (text (pos (length s))) (s ++ (crlf ++ rest))) < 2 ^ 63
      → parse_bulk_string
          (at_type pre c (text (pos (length s))) (s ++ (crlf ++ rest)))
          (length pre)
          reply
        ≡ (done (length (text (pos (length s))) + 3 + length s + 2), reply ++ s ∷ [])
  unfolding bulk_length bulk_content
  parse_bulk_string-value s h =
      let ds = text (pos (length s)) in
      let p = length pre in
      let ys = c ∷ (ds ++ (crlf ++ (s ++ (crlf ++ rest)))) in
      let input = pre ++ ys in
      let total = length-append pre ys in
      let inner = length-append ds (crlf ++ (s ++ (crlf ++ rest))) in
      let last = length-append s (crlf ++ rest) in
      let size = parse_size-text (length s) (omega arith) in
      let header = p + 1 + length ds in
      let start : header + 2 ≡ p + suc (length ds + 2) = omega arith in
      let behind : drop (header + 2) input ≡ s ++ (crlf ++ rest) =
        ap (λ n. drop n input) start
        ∙ drop_past pre ys (suc (length ds + 2))
        ∙ drop_past ds (crlf ++ (s ++ (crlf ++ rest))) 2 in
      let tail : drop (header + 2 + length s) input ≡ crlf ++ rest =
        sym (drop-drop (length s) (header + 2) input)
        ∙ ap (drop (length s)) behind
        ∙ drop_exact s (crlf ++ rest) in
      let value : take (length s) (drop (header + 2) input) ≡ s =
        ap (take (length s)) behind ∙ take_exact s (crlf ++ rest) in
      let no_overflow : ltb (2 ^ 64 - 1 - (header + 2) - 2) (length s) ≡ false = ground arith in
      let whole : ltb (length input) (header + 2 + length s + 2) ≡ false = ground arith in
      let consumed : header + 2 + length s + 2 - p ≡ length ds + 3 + length s + 2 = omega arith in
      parse_bulk_string-at pre c ds (s ++ (crlf ++ rest)) (text-IsLine (pos (length s))) reply
      ∙ rw
          (
            text_is_not_null (length s),
            size,
            bulk_content,
            no_overflow,
            whole,
            tail,
            value,
            consumed,
          )
          refl

-- `ParseAt` looks at the byte at its start.
pub parse_at-kind :
    (depth : ℕ) (pre : List ℕ) (c : ℕ) (ys : List ℕ) (reply : List (List ℕ))
    → parse_at out_of_depth (suc depth) (pre ++ c ∷ ys) (length pre) reply
      ≡ parse_kind
          (parse_at out_of_depth depth (pre ++ c ∷ ys))
          (kind_of c)
          (pre ++ c ∷ ys)
          (length pre)
          reply
unfolding parse_at
parse_at-kind depth pre c ys reply =
    let inside : leb (length (pre ++ c ∷ ys)) (length pre) ≡ false =
      ground (arith, length-append pre (c ∷ ys)) in
    rw (inside, parse_at, out_of_depth, drop_exact pre (c ∷ ys)) refl

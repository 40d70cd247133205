-- ===== src/RespParser/Aggregates.antt =====
-- cli/resp_parser.cpp: the client reads the aggregates of server/reply.cpp, wherever they stand.
use redis_simple.Common.{
  ℕ, suc, ◌+◌, ◌-◌, ◌*◌, ◌/◌, ◌^◌, ◌<◌, ◌≡◌, refl, ap, sym, ◌∙◌, subst, arith, Bool, true, false,
  if◌then◌else◌, none, some, List, [], ◌∷◌, ◌++◌, length, length-append, append_assoc, ltb,
}
use redis_simple.Common.Int.{pos}
use redis_simple.Decimal.Spec.{text}
use redis_simple.Replies.{
  ProtocolVersion, resp2, resp3, from_array_header, append_array_header, from_set_header,
  from_map_header, crlf,
}
use redis_simple.RespParser.{
  Parsed, complete, incomplete, invalid, invalid_result, done, parse_at, out_of_depth, parse_kind,
  kind_of, parse_aggregate, aggregate_content, parse_elements,
}
use redis_simple.RespParser.Line.{parse_size-text, text-IsLine}
use redis_simple.RespParser.Scalars.{parse_aggregate-at}
use redis_simple.RespParser.Response.{header_or_nothing}
use redis_simple.RespParser.Reads.{Reads, ReadsAll, end_mark, Reads-type, line_shape}

-- No element.
pub ReadsAll-none : ReadsAll [] [] 0
unfolding parse_elements
ReadsAll-none input pre rest start consumed depth reply eq st le lt =
    ap (λ n. (done n, reply ++ end_mark)) (omega arith)

one_more :
    (element : ℕ → List (List ℕ) → Parsed) (start left consumed : ℕ) (reply : List (List ℕ))
    (size : ℕ) (longer : List (List ℕ))
    → element (start + consumed) reply ≡ (done size, longer)
    → ltb (2 ^ 64 - 1 - consumed) size ≡ false
    → parse_elements element start (suc left) consumed reply
      ≡ parse_elements element start left (consumed + size) longer
unfolding parse_elements
one_more element start left consumed reply size longer one fits = ap next one ∙ ap checked fits
  where
    checked : Bool → Parsed
    checked b = elim b as (λ b. Parsed) [
      | true ↦ (invalid_result, longer)
      | false ↦ parse_elements element start left (consumed + size) longer
    ]

    next : Parsed → Parsed
    next r = elim r.0.status as (λ s. Parsed) [
      | complete ↦ elim (ltb (2 ^ 64 - 1 - consumed) r.0.consumed) as (λ b. Parsed) [
        | true ↦ (invalid_result, r.1)
        | false ↦ parse_elements element start left (consumed + r.0.consumed) r.1
      ]
      | incomplete ↦ r
      | invalid ↦ r
    ]

-- An element, and those behind it.
pub ReadsAll-next :
    (e es : List ℕ) (out outs : List (List ℕ)) (n : ℕ)
    → Reads e out
    → ReadsAll es outs n
    → ReadsAll (e ++ es) (out ++ outs) (suc n)
ReadsAll-next e es out outs n first others input pre rest start consumed depth reply eq st le lt =
    let whole : input ≡ pre ++ (e ++ (es ++ rest)) =
      eq ∙ ap (λ t. pre ++ t) (append_assoc e es rest) in
    let moved : input ≡ (pre ++ e) ++ (es ++ rest) =
      whole ∙ sym (append_assoc pre e (es ++ rest)) in
    let size = length-append e es in
    let sized : length input ≡ length pre + (length e + length (es ++ rest)) =
      ap length whole
      ∙ length-append pre (e ++ (es ++ rest))
      ∙ ap (λ n. length pre + n) (length-append e (es ++ rest)) in
    let one =
      first input pre (es ++ rest) (start + consumed) depth reply whole st (omega arith) lt in
    let fits : ltb (2 ^ 64 - 1 - consumed) (length e) ≡ false = ground arith in
    let tail =
      others input (pre ++ e) rest start (consumed + length e) depth (reply ++ out) moved
        (omega (arith, length-append pre e)) (omega arith) lt in
    let sum : consumed + length e + length es ≡ consumed + length (e ++ es) = omega arith in
    one_more (parse_at out_of_depth depth input) start n consumed reply (length e) (reply ++ out)
      one fits
    ∙ (tail
        ∙ ap (λ n. (done n, (reply ++ out) ++ (outs ++ end_mark))) sum
        ∙ ap (λ o. (done (consumed + length (e ++ es)), o))
            (append_assoc reply out (outs ++ end_mark)
              ∙ ap (λ o. reply ++ o) (sym (append_assoc out outs end_mark))))

content_some :
    (element : ℕ → List (List ℕ) → Parsed) (start end multiplier : ℕ) (reply : List (List ℕ))
    (size : ℕ)
    → ltb ((2 ^ 64 - 1) / multiplier) size ≡ false
    → aggregate_content element start end multiplier reply (some size)
      ≡ parse_elements element start (size * multiplier) (end - start + 2) reply
unfolding aggregate_content
content_some element start end multiplier reply size fits =
    ap
      (λ b. elim b as (λ b. Parsed) [
        | true ↦ (invalid_result, reply)
        | false ↦ parse_elements element start (size * multiplier) (end - start + 2) reply
      ])
      fits

module _ (c m n : ℕ) (es : List ℕ) (outs : List (List ℕ)) where
  abbrev pub aggregate : List ℕ
  aggregate = (c ∷ (text (pos n) ++ crlf)) ++ es

  shape : (rest : List ℕ) → aggregate ++ rest ≡ c ∷ (text (pos n) ++ (crlf ++ (es ++ rest)))
  shape rest =
      append_assoc (c ∷ (text (pos n) ++ crlf)) es rest ∙ line_shape c (text (pos n)) (es ++ rest)

  aggregate-Reads :
      ((element : ℕ → List (List ℕ) → Parsed) (resp : List ℕ) (start : ℕ) (reply : List (List ℕ))
        → parse_kind element (kind_of c) resp start reply
          ≡ parse_aggregate element resp start m reply)
      → n < 2 ^ 63
      → ltb ((2 ^ 64 - 1) / m) n ≡ false
      → ReadsAll es outs (n * m)
      → Reads aggregate (outs ++ end_mark)
  aggregate-Reads switch small fits all =
      Reads-type aggregate (outs ++ end_mark) c (λ rest. text (pos n) ++ (crlf ++ (es ++ rest)))
        shape
        (omega
          (arith, length-append (text (pos n)) crlf, length-append (c ∷ (text (pos n) ++ crlf)) es))
        (λ depth pre rest reply le lt.
          let ds = text (pos n) in
          let input = pre ++ c ∷ (ds ++ (crlf ++ (es ++ rest))) in
          let size = length-append (c ∷ (ds ++ crlf)) es in
          let header = length-append ds crlf in
          let moved : input ≡ (pre ++ (c ∷ (ds ++ crlf))) ++ (es ++ rest) =
            ap (λ t. pre ++ t) (sym (line_shape c ds (es ++ rest)))
            ∙ sym (append_assoc pre (c ∷ (ds ++ crlf)) (es ++ rest)) in
          let start : length pre + 1 + length ds - length pre + 2 ≡ length ds + 3 = omega arith in
          let inner =
            all input (pre ++ (c ∷ (ds ++ crlf))) rest (length pre) (length ds + 3) depth reply
              moved (omega (arith, length-append pre (c ∷ (ds ++ crlf)))) (omega arith) lt in
          let sum : length ds + 3 + length es ≡ length aggregate = omega arith in
          switch (parse_at out_of_depth depth input) input (length pre) reply
          ∙ parse_aggregate-at pre c ds (es ++ rest) (text-IsLine (pos n)) reply
              (parse_at out_of_depth depth input) m
          ∙ ap
              (aggregate_content (parse_at out_of_depth depth input) (length pre)
                (length pre + 1 + length ds) m reply)
              (parse_size-text n (omega arith))
          ∙ content_some (parse_at out_of_depth depth input) (length pre)
              (length pre + 1 + length ds) m reply n fits
          ∙ ap
              (λ k. parse_elements (parse_at out_of_depth depth input) (length pre) (n * m) k reply)
              start
          ∙ inner
          ∙ ap (λ n. (done n, reply ++ (outs ++ end_mark))) sum)

pub from_array_header-Reads :
    (n : ℕ) (es : List ℕ) (outs : List (List ℕ))
    → n < 2 ^ 63
    → ReadsAll es outs n
    → Reads (from_array_header n ++ es) (outs ++ end_mark)
unfolding from_array_header append_array_header kind_of parse_kind
from_array_header-Reads n es outs small all =
    aggregate-Reads b'*' 1 n es outs (λ element resp start reply. refl) small (ground arith)
      (subst (ReadsAll es outs) (omega arith) all)

pub from_set_header-Reads :
    (p : ProtocolVersion) (n : ℕ) (es : List ℕ) (outs : List (List ℕ))
    → n < 2 ^ 63
    → ReadsAll es outs n
    → Reads (from_set_header n p ++ es) (outs ++ end_mark)
unfolding from_set_header kind_of parse_kind
from_set_header-Reads resp2 n es outs small all = from_array_header-Reads n es outs small all
from_set_header-Reads resp3 n es outs small all =
    aggregate-Reads b'~' 1 n es outs (λ element resp start reply. refl) small (ground arith)
      (subst (ReadsAll es outs) (omega arith) all)

pub from_map_header-Reads :
    (p : ProtocolVersion) (n : ℕ) (es : List ℕ) (outs : List (List ℕ))
    → n * 2 < 2 ^ 63
    → ReadsAll es outs (n * 2)
    → Reads (header_or_nothing (from_map_header n p) ++ es) (outs ++ end_mark)
unfolding from_map_header kind_of parse_kind
from_map_header-Reads resp2 n es outs small all =
    let fits : ltb ((2 ^ 64 - 1) / 2) n ≡ false = ground arith in
    subst (λ o. Reads (header_or_nothing o ++ es) (outs ++ end_mark))
      (sym (ap (λ b. if b then none else some (from_array_header (n * 2))) fits))
      (from_array_header-Reads (n * 2) es outs small all)
from_map_header-Reads resp3 n es outs small all =
    aggregate-Reads b'%' 2 n es outs (λ element resp start reply. refl) (omega arith) (ground arith)
      all

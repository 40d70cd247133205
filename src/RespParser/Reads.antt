-- ===== src/RespParser/Reads.antt =====
-- cli/resp_parser.cpp: the client reads each encoding of server/reply.cpp, wherever it stands.
use redis_simple.Common.{
  ℕ, zero, suc, ◌+◌, ◌^◌, ◌≤◌, ◌<◌, ◌≡◌, refl, ap, ◌∙◌, subst, arith, some, List, [], ◌∷◌, ◌++◌,
  length, length-append, append_assoc,
}
use redis_simple.Common.Int.{ℤ, pos, InRange}
use redis_simple.Decimal.{codes}
use redis_simple.Decimal.Spec.{text}
use redis_simple.Replies.{
  ProtocolVersion, resp2, resp3, from_string, from_error, from_bulk_string, append_bulk_string,
  from_int64, from_float_text, null, crlf,
}
use redis_simple.RespParser.{
  done, nil_reply, parse_at, out_of_depth, parse_kind, kind_of, parse_elements,
}
use redis_simple.RespParser.Texts.{parse_float_text}
use redis_simple.RespParser.Line.{IsLine}
use redis_simple.RespParser.Scalars.{
  parse_line-at, parse_float-at, parse_integer-at, parse_null-at, parse_bulk_string-null,
  parse_bulk_string-value, parse_at-kind,
}

abbrev pub end_mark : List (List ℕ)
end_mark = (b'\n' ∷ []) ∷ []

-- `ParseAt` reads the text `e`, wherever it stands, as `out`.
abbrev pub Reads : List ℕ → List (List ℕ) → Type 0
Reads e out =
    (input pre rest : List ℕ) (start depth : ℕ) (reply : List (List ℕ))
    → input ≡ pre ++ (e ++ rest)
    → start ≡ length pre
    → length e ≤ depth
    → length input < 2 ^ 63
    → parse_at out_of_depth depth input start reply ≡ (done (length e), reply ++ out)

-- The loop of `ParseAggregate` reads `es` as `n` elements.
abbrev pub ReadsAll : List ℕ → List (List ℕ) → ℕ → Type 0
ReadsAll es outs n =
    (input pre rest : List ℕ) (start consumed depth : ℕ) (reply : List (List ℕ))
    → input ≡ pre ++ (es ++ rest)
    → start + consumed ≡ length pre
    → length es ≤ depth
    → length input < 2 ^ 63
    → parse_elements (parse_at out_of_depth depth input) start n consumed reply
      ≡ (done (consumed + length es), reply ++ (outs ++ end_mark))

module _ (e : List ℕ) (out : List (List ℕ)) (c : ℕ) (behind : List ℕ → List ℕ)
    (shape : (rest : List ℕ) → e ++ rest ≡ c ∷ behind rest) (nonempty : 0 < length e) where
  pub Reads-type :
      ((depth : ℕ) (pre rest : List ℕ) (reply : List (List ℕ))
        → length e ≤ suc depth
        → length (pre ++ c ∷ behind rest) < 2 ^ 63
        → parse_kind
            (parse_at out_of_depth depth (pre ++ c ∷ behind rest))
            (kind_of c)
            (pre ++ c ∷ behind rest)
            (length pre)
            reply
          ≡ (done (length e), reply ++ out))
      → Reads e out
  Reads-type body input pre rest start zero reply eq st le lt = absurd (omega arith)
  Reads-type body input pre rest start (suc d) reply eq st le lt =
      let q : input ≡ pre ++ c ∷ behind rest = eq ∙ ap (λ t. pre ++ t) (shape rest) in
      ap (λ i. parse_at out_of_depth (suc d) i start reply) q
      ∙ ap (λ s. parse_at out_of_depth (suc d) (pre ++ c ∷ behind rest) s reply) st
      ∙ parse_at-kind d pre c (behind rest) reply
      ∙ body d pre rest reply le (subst (λ i. length i < 2 ^ 63) q lt)

-- A line behind its type.
pub line_shape : (c : ℕ) (s rest : List ℕ) → (c ∷ (s ++ crlf)) ++ rest ≡ c ∷ (s ++ (crlf ++ rest))
line_shape c s rest = ap (◌∷◌ c) (append_assoc s crlf rest)

length_line : (c : ℕ) (s : List ℕ) → length s + 3 ≡ length (c ∷ (s ++ crlf))
length_line c s = omega (arith, length-append s crlf)

pub from_string-Reads : (s : List ℕ) → IsLine s → Reads (from_string s) (s ∷ [])
unfolding from_string kind_of parse_kind
from_string-Reads s h =
    Reads-type (from_string s) (s ∷ []) b'+' (λ rest. s ++ (crlf ++ rest)) (line_shape b'+' s)
      (omega arith)
      (λ depth pre rest reply le lt.
        parse_line-at pre b'+' s rest h reply
        ∙ ap (λ n. (done n, reply ++ s ∷ [])) (length_line b'+' s))

pub from_error-Reads : (s : List ℕ) → IsLine s → Reads (from_error s) (s ∷ [])
unfolding from_error kind_of parse_kind
from_error-Reads s h =
    Reads-type (from_error s) (s ∷ []) b'-' (λ rest. s ++ (crlf ++ rest)) (line_shape b'-' s)
      (omega arith)
      (λ depth pre rest reply le lt.
        parse_line-at pre b'-' s rest h reply
        ∙ ap (λ n. (done n, reply ++ s ∷ [])) (length_line b'-' s))

from_float_text-Reads_resp3 :
    (t : List ℕ) → IsLine t → parse_float_text t ≡ some t → Reads (from_float_text t resp3) (t ∷ [])
unfolding from_float_text kind_of parse_kind
from_float_text-Reads_resp3 t h same =
    Reads-type (b',' ∷ (t ++ crlf)) (t ∷ []) b',' (λ rest. t ++ (crlf ++ rest)) (line_shape b',' t)
      (omega arith)
      (λ depth pre rest reply le lt.
        parse_float-at pre b',' t rest h reply same
        ∙ ap (λ n. (done n, reply ++ t ∷ [])) (length_line b',' t))

pub from_int64-Reads : (v : ℤ) → InRange 63 v → Reads (from_int64 v) (text v ∷ [])
unfolding from_int64 kind_of parse_kind
from_int64-Reads v h =
    Reads-type (b':' ∷ (text v ++ crlf)) (text v ∷ []) b':' (λ rest. text v ++ (crlf ++ rest))
      (line_shape b':' (text v)) (omega arith)
      (λ depth pre rest reply le lt.
        parse_integer-at pre b':' rest reply v h
        ∙ ap (λ n. (done n, reply ++ text v ∷ [])) (length_line b':' (text v)))

pub null-Reads : (p : ProtocolVersion) → Reads (null p) (nil_reply ∷ [])
unfolding null kind_of parse_kind
null-Reads resp2 =
    Reads-type (null resp2) (nil_reply ∷ []) b'$' (λ rest. codes "-1" ++ (crlf ++ rest))
      (λ rest. refl) (omega arith)
      (λ depth pre rest reply le lt. parse_bulk_string-null pre b'$' rest reply)
null-Reads resp3 =
    Reads-type (null resp3) (nil_reply ∷ []) b'_' (λ rest. crlf ++ rest) (λ rest. refl)
      (omega arith) (λ depth pre rest reply le lt. parse_null-at pre b'_' rest reply)

pub from_bulk_string-Reads : (s : List ℕ) → Reads (from_bulk_string s) (s ∷ [])
unfolding from_bulk_string append_bulk_string kind_of parse_kind
from_bulk_string-Reads s =
    let ds = text (pos (length s)) in
    Reads-type (b'$' ∷ (ds ++ (crlf ++ (s ++ crlf)))) (s ∷ []) b'$'
      (λ rest. ds ++ (crlf ++ (s ++ (crlf ++ rest))))
      (λ rest. ap (◌∷◌ b'$') (
        append_assoc ds (crlf ++ (s ++ crlf)) rest
        ∙ ap (λ t. ds ++ (crlf ++ t)) (append_assoc s crlf rest)))
      (omega arith)
      (λ depth pre rest reply le lt.
        parse_bulk_string-value pre b'$' rest reply s lt
        ∙ ap (λ n. (done n, reply ++ s ∷ []))
            (omega (
              arith,
              length-append (text (pos (length s))) (crlf ++ (s ++ crlf)),
              length-append s crlf,
            )))

pub from_float_text-Reads :
    (p : ProtocolVersion) (t : List ℕ)
    → IsLine t
    → parse_float_text t ≡ some t
    → Reads (from_float_text t p) (t ∷ [])
unfolding from_float_text
from_float_text-Reads resp2 t h same = from_bulk_string-Reads t
from_float_text-Reads resp3 t h same = from_float_text-Reads_resp3 t h same

-- ===== src/RespParser/Outcome.antt =====
-- cli/resp_parser.cpp: what `Parse` does to any input.
use redis_simple.Common.{
  ℕ, zero, suc, ◌+◌, ◌-◌, ◌*◌, ◌/◌, ◌^◌, ◌≤◌, ◌<◌, ◌≡◌, refl, ap, sym, ◌∙◌, arith, Bool, true,
  false, not, ◌&&◌, Option, none, some, List, [], ◌∷◌, ◌++◌, ltb, leb, ◌==◌, if◌then◌else◌, length,
  take, drop, take-append_le, take_all, take-take, length-take, get_or,
}
use redis_simple.Common.Keys.{same_key}
use redis_simple.Decimal.{codes}
use redis_simple.RespParser.{
  complete, incomplete, invalid, ParseStatus, Parsed, substr, done, invalid_result,
  incomplete_result, nil_reply, parse_size, bulk_content, bulk_length, parse_bulk_string, parse_at,
  out_of_depth, parse_kind, Kind, kind_of, line_kind, bulk_kind, integer_kind, array_kind, map_kind,
  set_kind, null_kind, float_kind, unknown_kind, parse_aggregate, aggregate_content, parse_elements,
  parse,
}
use redis_simple.RespParser.Bounds.{
  InBounds, IsOutcome, invalid-IsOutcome, incomplete-IsOutcome, done-IsOutcome, with_line-IsOutcome,
  parse_line-IsOutcome, parse_float-IsOutcome, parse_integer-IsOutcome, parse_null-IsOutcome,
}

-- The values of `before` are the first ones of `reply`.
abbrev Keeps : List (List ℕ) → List (List ℕ) → Type 0
Keeps before reply = take (length before) reply ≡ before

Keeps-le : (a b : List (List ℕ)) → Keeps a b → length a ≤ length b
Keeps-le a b h = omega (arith, ap length h, length-take (length a) b)

Keeps-trans : (a b c : List (List ℕ)) → Keeps a b → Keeps b c → Keeps a c
Keeps-trans a b c h k =
    sym (take-take (length a) (length b) c (Keeps-le a b h)) ∙ ap (take (length a)) k ∙ h

module _ (resp : List ℕ) (start : ℕ) (reply : List (List ℕ)) where
  bulk_content-IsOutcome :
      (content_start size : ℕ)
      → start < content_start
      → IsOutcome resp start reply (bulk_content resp start content_start size reply)
  unfolding bulk_content
  bulk_content-IsOutcome at size lt =
      cases (ltb (2 ^ 64 - 1 - at - 2) size) (ltb (length resp) (at + size + 2))
        (not (
          get_or (drop (at + size) resp) 0 0 == b'\r'
          && get_or (drop (at + size) resp) 1 0 == b'\n'))
        (λ h. ground arith)
    where
      cases :
          (x y z : Bool)
          → (y ≡ false → at + size + 2 ≤ length resp)
          → IsOutcome resp start reply (
              if x
              then (invalid_result, reply)
              else if y
              then (incomplete_result, reply)
              else if z
              then (invalid_result, reply)
              else (done (at + size + 2 - start), reply ++ substr resp at size ∷ []))
      cases true y z h = invalid-IsOutcome resp start reply
      cases false true z h = incomplete-IsOutcome resp start reply
      cases false false true h = invalid-IsOutcome resp start reply
      cases false false false h =
          done-IsOutcome resp start reply (at + size + 2 - start) (substr resp at size)
            (omega arith) (omega (arith, h refl))

  parse_bulk_string-IsOutcome : IsOutcome resp start reply (parse_bulk_string resp start reply)
  unfolding parse_bulk_string bulk_length
  parse_bulk_string-IsOutcome =
      with_line-IsOutcome resp start reply
        (λ end. bulk_length resp start end reply (substr resp (start + 1) (end - start - 1)))
        (λ end lo hi.
          cases end lo hi (same_key (substr resp (start + 1) (end - start - 1)) (codes "-1"))
            (parse_size (substr resp (start + 1) (end - start - 1))))
    where
      cases :
          (end : ℕ)
          → start + 1 ≤ end
          → end + 2 ≤ length resp
          → (b : Bool) (o : Option ℕ)
          → IsOutcome resp start reply (
              if b
              then (done (end - start + 2), reply ++ nil_reply ∷ [])
              else elim o as (λ o. Parsed) [
                | none ↦ (invalid_result, reply)
                | some size ↦ bulk_content resp start (end + 2) size reply
              ])
      cases end lo hi true o =
          done-IsOutcome resp start reply (end - start + 2) nil_reply (omega arith) (omega arith)
      cases end lo hi false none = invalid-IsOutcome resp start reply
      cases end lo hi false (some size) = bulk_content-IsOutcome (end + 2) size (omega arith)

module _ (resp : List ℕ) (element : ℕ → List (List ℕ) → Parsed)
    (elements : (at : ℕ) (reply : List (List ℕ)) → IsOutcome resp at reply (element at reply))
    (start : ℕ) (before : List (List ℕ)) where
  parse_elements-IsOutcome :
      (left consumed : ℕ) (reply : List (List ℕ))
      → 0 < consumed
      → start + consumed ≤ length resp
      → Keeps before reply
      → IsOutcome resp start before (parse_elements element start left consumed reply)
  unfolding parse_elements InBounds
  parse_elements-IsOutcome zero consumed reply pos fits keeps = (
    pos,
    fits,
    take-append_le (length before) reply ((b'\n' ∷ []) ∷ []) (Keeps-le before reply keeps) ∙ keeps,
  )
  parse_elements-IsOutcome (suc left) consumed reply pos fits keeps =
      cases (element (start + consumed) reply).0.status
        (element (start + consumed) reply).0.consumed (element (start + consumed) reply).1
        (elements (start + consumed) reply)
        (λ n r p f k. parse_elements-IsOutcome left (consumed + n) r p f k)
    where
      cases :
          (s : ParseStatus) (n : ℕ) (r : List (List ℕ))
          → InBounds resp (start + consumed) reply s n r
          → ((n : ℕ) (r : List (List ℕ))
              → 0 < consumed + n
              → start + (consumed + n) ≤ length resp
              → Keeps before r
              → IsOutcome resp start before (parse_elements element start left (consumed + n) r))
          → IsOutcome resp start before (elim s as (λ s. Parsed) [
            | complete ↦ elim (ltb (2 ^ 64 - 1 - consumed) n) as (λ b. Parsed) [
              | true ↦ (invalid_result, r)
              | false ↦ parse_elements element start left (consumed + n) r
            ]
            | incomplete ↦ (record { status = s; consumed = n }, r)
            | invalid ↦ (record { status = s; consumed = n }, r)
          ])
      cases complete n r h next = checked (ltb (2 ^ 64 - 1 - consumed) n)
        where
          checked :
              (b : Bool)
              → IsOutcome resp start before (elim b as (λ b. Parsed) [
                | true ↦ (invalid_result, r)
                | false ↦ parse_elements element start left (consumed + n) r
              ])
          checked true = (refl, Keeps-trans before reply r keeps h.2)
          checked false =
              next n r (omega arith) (omega (arith, h.1)) (Keeps-trans before reply r keeps h.2)
      cases incomplete n r h next = (h.0, Keeps-trans before reply r keeps h.1)
      cases invalid n r h next = (h.0, Keeps-trans before reply r keeps h.1)

  parse_aggregate-IsOutcome :
      (multiplier : ℕ)
      → IsOutcome resp start before (parse_aggregate element resp start multiplier before)
  unfolding parse_aggregate aggregate_content
  parse_aggregate-IsOutcome m =
      with_line-IsOutcome resp start before
        (λ end.
          aggregate_content element start end m before
            (parse_size (substr resp (start + 1) (end - start - 1))))
        (λ end lo hi. sized end lo hi (parse_size (substr resp (start + 1) (end - start - 1))))
    where
      checked :
          (end size : ℕ)
          → start + 1 ≤ end
          → end + 2 ≤ length resp
          → (b : Bool)
          → IsOutcome resp start before (elim b as (λ b. Parsed) [
            | true ↦ (invalid_result, before)
            | false ↦ parse_elements element start (size * m) (end - start + 2) before
          ])
      checked end size lo hi true = invalid-IsOutcome resp start before
      checked end size lo hi false =
          parse_elements-IsOutcome (size * m) (end - start + 2) before (omega arith) (omega arith)
            (take_all (length before) before (omega arith))

      sized :
          (end : ℕ)
          → start + 1 ≤ end
          → end + 2 ≤ length resp
          → (o : Option ℕ)
          → IsOutcome resp start before (aggregate_content element start end m before o)
      sized end lo hi none = invalid-IsOutcome resp start before
      sized end lo hi (some size) = checked end size lo hi (ltb ((2 ^ 64 - 1) / m) size)

parse_at-IsOutcome :
    (depth : ℕ) (resp : List ℕ) (start : ℕ) (reply : List (List ℕ))
    → IsOutcome resp start reply (parse_at out_of_depth depth resp start reply)
unfolding parse_at parse_kind
parse_at-IsOutcome zero resp start reply = incomplete-IsOutcome resp start reply
parse_at-IsOutcome (suc depth) resp start reply =
    cases (leb (length resp) start) (kind_of (get_or (drop start resp) 0 0))
      (parse_at-IsOutcome depth resp)
  where
    cases :
        (b : Bool) (k : Kind)
        → ((at : ℕ) (reply : List (List ℕ))
            → IsOutcome resp at reply (parse_at out_of_depth depth resp at reply))
        → IsOutcome resp start reply (elim b as (λ b. Parsed) [
          | true ↦ (incomplete_result, reply)
          | false ↦ parse_kind (parse_at out_of_depth depth resp) k resp start reply
        ])
    cases true k inner = incomplete-IsOutcome resp start reply
    cases false line_kind inner = parse_line-IsOutcome resp start reply
    cases false bulk_kind inner = parse_bulk_string-IsOutcome resp start reply
    cases false integer_kind inner = parse_integer-IsOutcome resp start reply
    cases false array_kind inner =
        parse_aggregate-IsOutcome resp (parse_at out_of_depth depth resp) inner start reply 1
    cases false map_kind inner =
        parse_aggregate-IsOutcome resp (parse_at out_of_depth depth resp) inner start reply 2
    cases false set_kind inner =
        parse_aggregate-IsOutcome resp (parse_at out_of_depth depth resp) inner start reply 1
    cases false null_kind inner = parse_null-IsOutcome resp start reply
    cases false float_kind inner = parse_float-IsOutcome resp start reply
    cases false unknown_kind inner = invalid-IsOutcome resp start reply

-- What a caller sees: a response that completes consumes at least a byte and no more than there are,
-- and keeps the values that were there in front; any other consumes nothing and changes no value.
abbrev pub IsResult : List ℕ → List (List ℕ) → ParseStatus → ℕ → List (List ℕ) → Type 0
IsResult resp before complete consumed reply =
    (0 < consumed) × (consumed ≤ length resp) × (take (length before) reply ≡ before)
IsResult resp before incomplete consumed reply = (consumed ≡ 0) × (reply ≡ before)
IsResult resp before invalid consumed reply = (consumed ≡ 0) × (reply ≡ before)

-- `Parse` of any input either completes, consumes at least one byte and no more than there are, and
-- keeps the values that were there in front, or consumes nothing and leaves the values as they were.
pub parse-IsResult :
    (resp : List ℕ) (reply : List (List ℕ))
    → IsResult resp reply
        (parse resp reply).0.status
        (parse resp reply).0.consumed
        (parse resp reply).1
unfolding parse InBounds
parse-IsResult resp reply =
    let r = parse_at out_of_depth (length resp + 1) resp 0 reply in
    cases r.0.status r.0.consumed r.1 (parse_at-IsOutcome (length resp + 1) resp 0 reply)
  where
    cases :
        (s : ParseStatus) (n : ℕ) (v : List (List ℕ))
        → InBounds resp 0 reply s n v
        → let r : Parsed = elim s as (λ s. Parsed) [
          | complete ↦ (record { status = s; consumed = n }, v)
          | incomplete ↦ (record { status = s; consumed = n }, take (length reply) v)
          | invalid ↦ (record { status = s; consumed = n }, take (length reply) v)
        ] in
          IsResult resp reply r.0.status r.0.consumed r.1
    cases complete n v h = (h.0, omega (arith, h.1), h.2)
    cases incomplete n v h = h
    cases invalid n v h = h

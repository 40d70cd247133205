-- ===== src/RespParser/Depth.antt =====
-- cli/resp_parser.cpp: the bound on the depth of aggregates in aggregates.
use redis_simple.Common.{
  ℕ, zero, suc, ◌+◌, ◌-◌, ◌*◌, ◌/◌, ◌^◌, ◌≤◌, ◌<◌, ◌≡◌, refl, ap, ◌∙◌, arith, Bool, true, false,
  Option, none, some, List, ltb, leb, length, drop, get_or,
}
use redis_simple.RespParser.{
  complete, incomplete, invalid, ParseStatus, ParseResult, Parsed, substr, invalid_result,
  incomplete_result, find_line_end, with_line, parse_size, parse_at, out_of_depth, parse_kind, Kind,
  kind_of, line_kind, bulk_kind, integer_kind, array_kind, map_kind, set_kind, null_kind,
  float_kind, unknown_kind, parse_aggregate, aggregate_content, parse_elements,
}

module _ (e f : ℕ → List (List ℕ) → Parsed) (start : ℕ)
    (same : (at : ℕ) (reply : List (List ℕ)) → start < at → e at reply ≡ f at reply) where
  parse_elements-same :
      (left consumed : ℕ) (reply : List (List ℕ))
      → 0 < consumed
      → parse_elements e start left consumed reply ≡ parse_elements f start left consumed reply
  unfolding parse_elements
  parse_elements-same zero consumed reply pos = refl
  parse_elements-same (suc left) consumed reply pos =
      ap (next e) (same (start + consumed) reply (omega arith))
      ∙ cases (f (start + consumed) reply) (f (start + consumed) reply).0.status
          (λ n r. parse_elements-same left (consumed + n) r (omega arith))
    where
      checked : (ℕ → List (List ℕ) → Parsed) → Parsed → Bool → Parsed
      checked g r b = elim b as (λ b. Parsed) [
        | true ↦ (invalid_result, r.1)
        | false ↦ parse_elements g start left (consumed + r.0.consumed) r.1
      ]

      at_status : (ℕ → List (List ℕ) → Parsed) → Parsed → ParseStatus → Parsed
      at_status g r s = elim s as (λ s. Parsed) [
        | complete ↦ checked g r (ltb (2 ^ 64 - 1 - consumed) r.0.consumed)
        | incomplete ↦ r
        | invalid ↦ r
      ]

      next : (ℕ → List (List ℕ) → Parsed) → Parsed → Parsed
      next g r = at_status g r r.0.status

      Same : Type 0
      Same =
          (n : ℕ) (r : List (List ℕ))
          → parse_elements e start left (consumed + n) r
            ≡ parse_elements f start left (consumed + n) r

      either : (r : Parsed) (b : Bool) → Same → checked e r b ≡ checked f r b
      either r true h = refl
      either r false h = h r.0.consumed r.1

      cases : (r : Parsed) (s : ParseStatus) → Same → at_status e r s ≡ at_status f r s
      cases r complete h = either r (ltb (2 ^ 64 - 1 - consumed) r.0.consumed) h
      cases r incomplete h = refl
      cases r invalid h = refl

  parse_aggregate-same :
      (resp : List ℕ) (m : ℕ) (reply : List (List ℕ))
      → parse_aggregate e resp start m reply ≡ parse_aggregate f resp start m reply
  unfolding parse_aggregate aggregate_content with_line
  parse_aggregate-same resp m reply =
      cases (find_line_end resp (start + 1)) (find_line_end resp (start + 1)).status
    where
      content :
          (end : ℕ) (o : Option ℕ)
          → aggregate_content e start end m reply o ≡ aggregate_content f start end m reply o
      content end none = refl
      content end (some size) = either (ltb ((2 ^ 64 - 1) / m) size)
        where
          either :
              (b : Bool)
              → ◌≡◌ {A = Parsed}
                  (elim b as (λ b. Parsed) [
                    | true ↦ (invalid_result, reply)
                    | false ↦ parse_elements e start (size * m) (end - start + 2) reply
                  ])
                  (elim b as (λ b. Parsed) [
                    | true ↦ (invalid_result, reply)
                    | false ↦ parse_elements f start (size * m) (end - start + 2) reply
                  ])
          either true = refl
          either false = parse_elements-same (size * m) (end - start + 2) reply (omega arith)

      cases :
          (line : ParseResult) (s : ParseStatus)
          → ◌≡◌ {A = Parsed}
              (elim s as (λ s. Parsed) [
                | complete ↦
                    aggregate_content e start line.consumed m reply
                      (parse_size (substr resp (start + 1) (line.consumed - start - 1)))
                | incomplete ↦ (line, reply)
                | invalid ↦ (line, reply)
              ])
              (elim s as (λ s. Parsed) [
                | complete ↦
                    aggregate_content f start line.consumed m reply
                      (parse_size (substr resp (start + 1) (line.consumed - start - 1)))
                | incomplete ↦ (line, reply)
                | invalid ↦ (line, reply)
              ])
      cases line complete =
          content line.consumed (parse_size (substr resp (start + 1) (line.consumed - start - 1)))
      cases line incomplete = refl
      cases line invalid = refl

  parse_kind-same :
      (k : Kind) (resp : List ℕ) (reply : List (List ℕ))
      → parse_kind e k resp start reply ≡ parse_kind f k resp start reply
  unfolding parse_kind
  parse_kind-same line_kind resp reply = refl
  parse_kind-same bulk_kind resp reply = refl
  parse_kind-same integer_kind resp reply = refl
  parse_kind-same array_kind resp reply = parse_aggregate-same resp 1 reply
  parse_kind-same map_kind resp reply = parse_aggregate-same resp 2 reply
  parse_kind-same set_kind resp reply = parse_aggregate-same resp 1 reply
  parse_kind-same null_kind resp reply = refl
  parse_kind-same float_kind resp reply = refl
  parse_kind-same unknown_kind resp reply = refl

-- Both runs from a place where there is a byte, or from behind the end.
parse_at-step :
    (e f : ℕ → List (List ℕ) → Parsed) (d g : ℕ) (resp : List ℕ) (start : ℕ) (reply : List (List ℕ))
    → (start < length resp
        → (at : ℕ) (r : List (List ℕ)) → start < at
        → parse_at e d resp at r ≡ parse_at f g resp at r)
    → parse_at e (suc d) resp start reply ≡ parse_at f (suc g) resp start reply
unfolding parse_at
parse_at-step e f d g resp start reply same = cases (leb (length resp) start) refl
  where
    kind : Kind
    kind = kind_of (get_or (drop start resp) 0 0)

    cases :
        (b : Bool)
        → leb (length resp) start ≡ b
        → ◌≡◌ {A = Parsed}
            (elim b as (λ b. Parsed) [
              | true ↦ (incomplete_result, reply)
              | false ↦ parse_kind (parse_at e d resp) kind resp start reply
            ])
            (elim b as (λ b. Parsed) [
              | true ↦ (incomplete_result, reply)
              | false ↦ parse_kind (parse_at f g resp) kind resp start reply
            ])
    cases true h = refl
    cases false h =
        parse_kind-same (parse_at e d resp) (parse_at f g resp) start (same (ground arith)) kind
          resp reply

either_depth :
    (e f : ℕ → List (List ℕ) → Parsed) (d g : ℕ) (resp : List ℕ) (start : ℕ) (reply : List (List ℕ))
    → 0 < d
    → 0 < g
    → length resp + 1 ≤ start + d
    → length resp + 1 ≤ start + g
    → parse_at e d resp start reply ≡ parse_at f g resp start reply
either_depth e f zero g resp start reply p q h k = absurd (omega arith)
either_depth e f (suc d) zero resp start reply p q h k = absurd (omega arith)
either_depth e f (suc d) (suc g) resp start reply p q h k =
    parse_at-step e f d g resp start reply (λ inside at r lt.
      either_depth e f d g resp at r (omega arith) (omega arith) (omega arith) (omega arith))

-- The bound on the depth that `Parse` takes is enough: with any larger one, and whatever is
-- returned where a depth runs out, the result is the same.
pub parse_at-enough :
    (exhausted : ℕ → List (List ℕ) → Parsed) (depth : ℕ) (resp : List ℕ) (reply : List (List ℕ))
    → length resp + 1 ≤ depth
    → parse_at exhausted depth resp 0 reply ≡ parse_at out_of_depth (length resp + 1) resp 0 reply
parse_at-enough exhausted depth resp reply h =
    either_depth exhausted out_of_depth depth (length resp + 1) resp 0 reply (omega arith)
      (omega arith) (omega arith) (omega arith)

-- ===== src/RespParser/Bounds.antt =====
-- cli/resp_parser.cpp: what a parse of a line consumes.
use redis_simple.Common.{
  ℕ, suc, ◌+◌, ◌-◌, ◌≤◌, ◌<◌, ◌≡◌, refl, arith, Bool, true, false, Option, none, some, List, [],
  ◌∷◌, ◌++◌, leb, ◌==◌, if◌then◌else◌, length, take, drop, take_exact, take_all, length-drop,
  get_or,
}
use redis_simple.Common.Int.{ℤ}
use redis_simple.Decimal.{to_int64}
use redis_simple.Decimal.Spec.{text}
use redis_simple.RespParser.Texts.{find_of, parse_float_text}
use redis_simple.RespParser.{
  ParseResult, ParseStatus, complete, incomplete, invalid, Parsed, with_line, substr, done,
  invalid_result, incomplete_result, nil_reply, is_return, find_line_end, parse_line, parse_integer,
  parse_null, parse_float,
}

-- Of a parse from `start` on: what it consumes lies in the input, and the values that were there
-- before stay in front.
unfoldable pub InBounds : List ℕ → ℕ → List (List ℕ) → ParseStatus → ℕ → List (List ℕ) → Type 0
InBounds resp start before complete consumed reply =
    (0 < consumed) × (start + consumed ≤ length resp) × (take (length before) reply ≡ before)
InBounds resp start before incomplete consumed reply =
    (consumed ≡ 0) × (take (length before) reply ≡ before)
InBounds resp start before invalid consumed reply =
    (consumed ≡ 0) × (take (length before) reply ≡ before)

abbrev pub IsOutcome : List ℕ → ℕ → List (List ℕ) → Parsed → Type 0
IsOutcome resp start before r = InBounds resp start before r.0.status r.0.consumed r.1

-- Of a line: it lies in the input with its end.
unfoldable pub LineBounds : List ℕ → ℕ → ParseStatus → ℕ → Type 0
LineBounds resp start complete end = (start ≤ end) × (end + 2 ≤ length resp)
LineBounds resp start incomplete end = end ≡ 0
LineBounds resp start invalid end = end ≡ 0

abbrev pub Within : ℕ → ℕ → Option ℕ → Type 0
Within lo hi none = Unit
Within lo hi (some i) = (lo ≤ i) × (i < hi)

find_of-Within : (p : ℕ → Bool) (i : ℕ) (s : List ℕ) → Within i (i + length s) (find_of p i s)
unfolding find_of
find_of-Within p i [] = tt
find_of-Within p i (c ∷ cs) = cases (p c) (find_of p (i + 1) cs) (find_of-Within p (i + 1) cs)
  where
    cases :
        (b : Bool) (o : Option ℕ)
        → Within (i + 1) (i + 1 + length cs) o
        → Within i (i + suc (length cs)) (if b then some i else o)
    cases true o h = (omega arith, omega arith)
    cases false none h = tt
    cases false (some j) h = (omega arith, omega arith)

pub find_line_end-bounds :
    (resp : List ℕ) (start : ℕ)
    → LineBounds resp start (find_line_end resp start).status (find_line_end resp start).consumed
unfolding find_line_end LineBounds
find_line_end-bounds resp start =
    cases (find_of is_return start (drop start resp))
      (find_of-Within is_return start (drop start resp))
  where
    at :
        (end : ℕ) (b c : Bool)
        → (b ≡ false → (start ≤ end) × (end + 2 ≤ length resp))
        → let r : ParseResult =
            if b then incomplete_result else if c then done end else invalid_result in
          LineBounds resp start r.status r.consumed
    at end true c h = refl
    at end false true h = h refl
    at end false false h = refl

    cases :
        (o : Option ℕ)
        → Within start (start + length (drop start resp)) o
        → let r : ParseResult = elim o as (λ o. ParseResult) [
          | none ↦ incomplete_result
          | some end ↦
              if leb (length resp) (end + 1)
              then incomplete_result
              else if get_or (drop end resp) 1 0 == b'\n'
              then done end
              else invalid_result
        ] in
          LineBounds resp start r.status r.consumed
    cases none h = refl
    cases (some end) h =
        at end (leb (length resp) (end + 1)) (get_or (drop end resp) 1 0 == b'\n')
          (λ b. let e = length-drop start resp in (omega arith, ground arith))

module _ (resp : List ℕ) (start : ℕ) (reply : List (List ℕ)) where
  pub invalid-IsOutcome : IsOutcome resp start reply (invalid_result, reply)
  unfolding InBounds
  invalid-IsOutcome = (refl, take_all (length reply) reply (omega arith))

  pub incomplete-IsOutcome : IsOutcome resp start reply (incomplete_result, reply)
  unfolding InBounds
  incomplete-IsOutcome = (refl, take_all (length reply) reply (omega arith))

  pub done-IsOutcome :
      (n : ℕ) (value : List ℕ)
      → 0 < n
      → start + n ≤ length resp
      → IsOutcome resp start reply (done n, reply ++ value ∷ [])
  unfolding InBounds
  done-IsOutcome n value pos fits = (pos, fits, take_exact reply (value ∷ []))

  pub with_line-IsOutcome :
      (next : ℕ → Parsed)
      → ((end : ℕ)
          → start + 1 ≤ end
          → end + 2 ≤ length resp
          → IsOutcome resp start reply (next end))
      → IsOutcome resp start reply (with_line (find_line_end resp (start + 1)) reply next)
  unfolding with_line LineBounds InBounds
  with_line-IsOutcome next h =
      cases (find_line_end resp (start + 1)).status (find_line_end resp (start + 1)).consumed
        (find_line_end-bounds resp (start + 1))
    where
      cases :
          (s : ParseStatus) (n : ℕ)
          → LineBounds resp (start + 1) s n
          → IsOutcome resp start reply (elim s as (λ s. Parsed) [
            | complete ↦ next n
            | incomplete ↦ (record { status = s; consumed = n }, reply)
            | invalid ↦ (record { status = s; consumed = n }, reply)
          ])
      cases complete n b = h n b.0 b.1
      cases incomplete n b = (b, take_all (length reply) reply (omega arith))
      cases invalid n b = (b, take_all (length reply) reply (omega arith))

  pub parse_line-IsOutcome : IsOutcome resp start reply (parse_line resp start reply)
  unfolding parse_line
  parse_line-IsOutcome =
      with_line-IsOutcome
        (λ end. (done (end - start + 2), reply ++ substr resp (start + 1) (end - start - 1) ∷ []))
        (λ end lo hi.
          done-IsOutcome (end - start + 2) (substr resp (start + 1) (end - start - 1)) (omega arith)
            (omega arith))

  -- A value that is read from a line, or not.
  read_value :
      (end : ℕ)
      → start + 1 ≤ end
      → end + 2 ≤ length resp
      → (o : Option (List ℕ))
      → IsOutcome resp start reply (elim o as (λ o. Parsed) [
        | none ↦ (invalid_result, reply)
        | some v ↦ (done (end - start + 2), reply ++ v ∷ [])
      ])
  read_value end lo hi none = invalid-IsOutcome
  read_value end lo hi (some v) = done-IsOutcome (end - start + 2) v (omega arith) (omega arith)

  pub parse_float-IsOutcome : IsOutcome resp start reply (parse_float resp start reply)
  unfolding parse_float
  parse_float-IsOutcome =
      with_line-IsOutcome
        (λ end.
          elim (parse_float_text (substr resp (start + 1) (end - start - 1))) as (λ o. Parsed) [
            | none ↦ (invalid_result, reply)
            | some rendered ↦ (done (end - start + 2), reply ++ rendered ∷ [])
          ])
        (λ end lo hi.
          read_value end lo hi (parse_float_text (substr resp (start + 1) (end - start - 1))))

  pub parse_integer-IsOutcome : IsOutcome resp start reply (parse_integer resp start reply)
  unfolding parse_integer
  parse_integer-IsOutcome =
      with_line-IsOutcome
        (λ end. elim (to_int64 (substr resp (start + 1) (end - start - 1))) as (λ o. Parsed) [
          | none ↦ (invalid_result, reply)
          | some value ↦ (done (end - start + 2), reply ++ text value ∷ [])
        ])
        (λ end lo hi. read end lo hi (to_int64 (substr resp (start + 1) (end - start - 1))))
    where
      read :
          (end : ℕ)
          → start + 1 ≤ end
          → end + 2 ≤ length resp
          → (o : Option ℤ)
          → IsOutcome resp start reply (elim o as (λ o. Parsed) [
            | none ↦ (invalid_result, reply)
            | some value ↦ (done (end - start + 2), reply ++ text value ∷ [])
          ])
      read end lo hi none = invalid-IsOutcome
      read end lo hi (some v) =
          done-IsOutcome (end - start + 2) (text v) (omega arith) (omega arith)

  pub parse_null-IsOutcome : IsOutcome resp start reply (parse_null resp start reply)
  unfolding parse_null
  parse_null-IsOutcome =
      with_line-IsOutcome
        (λ end.
          if end == start + 1 then (done 3, reply ++ nil_reply ∷ []) else (invalid_result, reply))
        (λ end lo hi. read end (end == start + 1) hi lo)
    where
      read :
          (end : ℕ) (b : Bool)
          → end + 2 ≤ length resp
          → start + 1 ≤ end
          → IsOutcome resp start reply
              (if b then (done 3, reply ++ nil_reply ∷ []) else (invalid_result, reply))
      read end true hi lo = done-IsOutcome 3 nil_reply (omega arith) (omega arith)
      read end false hi lo = invalid-IsOutcome

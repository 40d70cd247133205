-- ===== src/RequestParser/Bulk.antt =====
-- server/request_parser.cpp: `ParseBulkString` reads a bulk string at any place of the input.
use redis_simple.Common.{
  ℕ, suc, ◌+◌, ◌-◌, ◌^◌, ◌≤◌, ◌<◌, ◌≡◌, refl, ap, sym, ◌∙◌, subst, arith, some, List, ◌++◌, length,
  length-append, length-drop, drop-drop, drop, take, take_exact, drop_exact, false, ltb, leb,
}
use redis_simple.Decimal.{digits10}
use redis_simple.Decimal.Spec.{decimal-IsDigit}
use redis_simple.RequestParser.{
  complete, find_crlf, find_pair, parse_size, bulk_content, bulk_header, parse_bulk_string,
}
use redis_simple.RequestParser.Encoding.{size_text, crlf, bulk}
use redis_simple.RequestParser.Size.{drop_past, find_pair-digits, parse_size-text}

-- A number and "\r\n" at `start`.
pub find_crlf-size :
    (pre : List ℕ) (k n : ℕ) (ys rest : List ℕ)
    → drop k ys ≡ size_text n ++ crlf rest
    → find_crlf (pre ++ ys) (length pre + k)
      ≡ record { status = complete; consumed = length pre + k + length (size_text n) }
unfolding find_crlf
find_crlf-size pre k n ys rest e =
    let at = length pre + k in
    let found : find_pair at (drop at (pre ++ ys)) ≡ some (at + length (size_text n)) =
      ap (find_pair at) (drop_past pre ys k ∙ e)
      ∙ find_pair-digits at (size_text n) rest (decimal-IsDigit (digits10 n) n) in
    rw (found, find_crlf) refl

-- A value and "\r\n", `k` bytes behind the `$`.
bulk_content-value :
    (pre ys v rest : List ℕ) (k : ℕ)
    → drop k ys ≡ v ++ crlf rest
    → length (pre ++ ys) < 2 ^ 63
    → bulk_content (pre ++ ys) (length pre) (length pre + k) (length v)
      ≡ (record { status = complete; consumed = k + length v + 2 }, v)
unfolding bulk_content
bulk_content-value pre ys v rest k e h =
    let p = length pre in
    let total = length-append pre ys in
    let inside : k + length v + 2 ≤ length ys =
      omega (arith, length-drop k ys, ap length e, length-append v (crlf rest)) in
    let no_overflow : ltb (2 ^ 64 - 1 - (p + k) - 2) (length v) ≡ false = ground arith in
    let whole : ltb (length (pre ++ ys)) (p + k + length v + 2) ≡ false = ground arith in
    let assoc : p + k + length v ≡ p + (k + length v) = omega arith in
    let tail : drop (p + k + length v) (pre ++ ys) ≡ crlf rest =
      ap (λ n. drop n (pre ++ ys)) assoc
      ∙ drop_past pre ys (k + length v)
      ∙ sym (drop-drop (length v) k ys)
      ∙ ap (drop (length v)) e
      ∙ drop_exact v (crlf rest) in
    let value : take (length v) (drop (p + k) (pre ++ ys)) ≡ v =
      ap (take (length v)) (drop_past pre ys k ∙ e) ∙ take_exact v (crlf rest) in
    let taken : p + k + length v + 2 - p ≡ k + length v + 2 = omega arith in
    rw (no_overflow, whole, tail, value, taken) refl

bulk_header-complete :
    (input : List ℕ) (start end size : ℕ)
    → parse_size (take (end - start - 1) (drop (start + 1) input)) ≡ some size
    → bulk_header input start record { status = complete; consumed = end }
      ≡ bulk_content input start (end + 2) size
unfolding bulk_header
bulk_header-complete input start end size e = rw (e, bulk_header) refl

-- `ParseBulkString` reads a bulk string behind any bytes, and takes exactly its bytes.
pub parse_bulk_string-bulk :
    (pre v rest : List ℕ)
    → length (pre ++ bulk v rest) < 2 ^ 63
    → parse_bulk_string (pre ++ bulk v rest) (length pre) ≡ (
      record { status = complete; consumed = 1 + length (size_text (length v)) + 2 + length v + 2 },
      v,
    )
unfolding parse_bulk_string
parse_bulk_string-bulk pre v rest h =
    let p = length pre in
    let ds = size_text (length v) in
    let ys = bulk v rest in
    let input = pre ++ ys in
    let total = length-append pre ys in
    let more : leb (length input) p ≡ false = ground arith in
    let front : drop p input ≡ ys = drop_exact pre ys in
    let header = find_crlf-size pre 1 (length v) ys (v ++ crlf rest) refl in
    let m : 1 + length ds + 2 ≡ suc (length ds + 2) = omega arith in
    let behind : drop (1 + length ds + 2) ys ≡ v ++ crlf rest =
      ap (λ n. drop n ys) m ∙ drop_past ds (crlf (v ++ crlf rest)) 2 in
    let n : p + 1 + length ds - p - 1 ≡ length ds = omega arith in
    let digits : take (length ds) (drop (p + 1) input) ≡ ds =
      ap (take (length ds)) (drop_past pre ys 1) ∙ take_exact ds (crlf (v ++ crlf rest)) in
    let size : parse_size (take (p + 1 + length ds - p - 1) (drop (p + 1) input))
        ≡ some (length v) =
      rw (n, digits)
        (parse_size-text (length v)
          (omega (arith, length-append ds (crlf (v ++ crlf rest)), length-append v (crlf rest)))) in
    let at : p + (1 + length ds + 2) ≡ p + 1 + length ds + 2 = omega arith in
    let content =
      subst
        (λ n.
          bulk_content input p n (length v)
          ≡ (record { status = complete; consumed = 1 + length ds + 2 + length v + 2 }, v))
        at (bulk_content-value pre ys v rest (1 + length ds + 2) behind h) in
    rw (more, front, header)
      (bulk_header-complete input p (p + 1 + length ds) (length v) size ∙ content)

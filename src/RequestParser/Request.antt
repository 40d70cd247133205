-- ===== src/RequestParser/Request.antt =====
-- server/request_parser.cpp: `ParseResp` and `Parse` read a request back.
use redis_simple.Common.{
  ℕ, suc, ◌+◌, ◌-◌, ◌^◌, ◌≤◌, ◌<◌, ◌≡◌, refl, ap, sym, ◌∙◌, subst, arith, some, List, [], ◌∷◌, ◌++◌,
  length, length-append, drop, take, take_exact, false, ltb, ◌==◌, ◌||◌, append_assoc,
  if◌then◌else◌, append-nil,
}
use redis_simple.RequestParser.{
  ParseResult, Parsed, complete, incomplete, invalid, parse_size, parse_elements, resp_header,
  parse_resp, parse, cleared, max_command_elements,
}
use redis_simple.RequestParser.Encoding.{size_text, crlf, bulk, bulks, request}
use redis_simple.RequestParser.Size.{parse_size-text}
use redis_simple.RequestParser.Bulk.{find_crlf-size, parse_bulk_string-bulk}

bulk-append : (v x r : List ℕ) → bulk v x ++ r ≡ bulk v (x ++ r)
bulk-append v x r = ap (◌∷◌ b'$') (
    append_assoc (size_text (length v)) (crlf (v ++ crlf x)) r
    ∙ ap (λ t. size_text (length v) ++ crlf t) (append_assoc v (crlf x) r))

length-bulk :
    (v r : List ℕ)
    → length (bulk v r) ≡ 1 + length (size_text (length v)) + 2 + length v + 2 + length r
length-bulk v r =
    omega
      (arith, length-append (size_text (length v)) (crlf (v ++ crlf r)), length-append v (crlf r))

bulks-append : (vs : List (List ℕ)) (r : List ℕ) → bulks vs [] ++ r ≡ bulks vs r
bulks-append [] r = refl
bulks-append (v ∷ vs) r = bulk-append v (bulks vs []) r ∙ ap (bulk v) (bulks-append vs r)

abbrev bulk_read : List ℕ → ℕ → ParseResult × List ℕ
bulk_read v n = (record { status = complete; consumed = n }, v)

-- A complete request.
abbrev pub finished : ℕ → List ℕ → List (List ℕ) → Parsed
finished n command args = record {
  result = record { status = complete; consumed = n };
  command = command;
  args = args;
}

-- One element of the loop.
parse_elements-step :
    (pre v rest : List ℕ) (left index : ℕ) (command : List ℕ) (args : List (List ℕ))
    → length (pre ++ bulk v rest) < 2 ^ 63
    → parse_elements (pre ++ bulk v rest) (suc left) index (length pre) command args
      ≡ parse_elements
          (pre ++ bulk v rest)
          left
          (index + 1)
          (length pre + length (bulk v []))
          (if index == 0 then v else command)
          (if index == 0 then args else args ++ v ∷ [])
unfolding parse_elements
parse_elements-step pre v rest left index command args h =
    let n : 1 + length (size_text (length v)) + 2 + length v + 2 ≡ length (bulk v []) =
      omega (arith, length-bulk v []) in
    ap next (parse_bulk_string-bulk pre v rest h ∙ ap (bulk_read v) n)
  where
    next : ParseResult × List ℕ → Parsed
    next e = elim e.0.status [
      | complete ↦
          parse_elements (pre ++ bulk v rest) left (index + 1) (length pre + e.0.consumed)
            (if index == 0 then e.1 else command) (if index == 0 then args else args ++ e.1 ∷ [])
      | incomplete ↦ record { result = e.0; command = command; args = args }
      | invalid ↦ record { result = e.0; command = command; args = args }
    ]

-- The elements behind one, from the place where it ends.
elements_behind :
    (v : List ℕ) (vs : List (List ℕ)) (pre rest : List ℕ) (index : ℕ) (command : List ℕ)
    (args : List (List ℕ))
    → length (pre ++ bulk v (bulks vs rest)) < 2 ^ 63
    → (length ((pre ++ bulk v []) ++ bulks vs rest) < 2 ^ 63
        → parse_elements
            ((pre ++ bulk v []) ++ bulks vs rest)
            (length vs)
            index
            (length (pre ++ bulk v []))
            command
            args
          ≡ finished (length (pre ++ bulk v []) + length (bulks vs [])) command (args ++ vs))
    → parse_elements
        (pre ++ bulk v (bulks vs rest))
        (length vs)
        index
        (length pre + length (bulk v []))
        command
        args
      ≡ finished (length pre + length (bulk v (bulks vs []))) command (args ++ vs)
elements_behind v vs pre rest index command args h read =
    let tail = bulks vs rest in
    let pre' = pre ++ bulk v [] in
    let same : pre' ++ tail ≡ pre ++ bulk v tail =
      append_assoc pre (bulk v []) tail ∙ ap (λ t. pre ++ t) (bulk-append v [] tail) in
    let len : length pre' ≡ length pre + length (bulk v []) = length-append pre (bulk v []) in
    let h' : length (pre' ++ tail) < 2 ^ 63 = rw same h in
    let n : length pre' + length (bulks vs []) ≡ length pre + length (bulk v (bulks vs [])) =
      omega (arith, len, length-bulk v [], length-bulk v (bulks vs [])) in
    ap
      (λ input.
        parse_elements input (length vs) index (length pre + length (bulk v [])) command args)
      (sym same)
    ∙ ap (λ at. parse_elements (pre' ++ tail) (length vs) index at command args) (sym len)
    ∙ read h'
    ∙ ap (λ n. finished n command (args ++ vs)) n

-- The arguments, one after the other.
parse_elements-bulks :
    (vs : List (List ℕ)) (pre rest : List ℕ) (index : ℕ) (command : List ℕ) (args : List (List ℕ))
    → 1 ≤ index
    → length (pre ++ bulks vs rest) < 2 ^ 63
    → parse_elements (pre ++ bulks vs rest) (length vs) index (length pre) command args
      ≡ finished (length pre + length (bulks vs [])) command (args ++ vs)
unfolding parse_elements
parse_elements-bulks [] pre rest index command args i h =
    let n : length pre + 0 ≡ length pre = omega arith in rw (n, append-nil args) refl
parse_elements-bulks (v ∷ vs) pre rest index command args i h =
    let later : (index == 0) ≡ false = ground arith in
    parse_elements-step pre v (bulks vs rest) (length vs) index command args h
    ∙ rw later (
        elements_behind v vs pre rest (index + 1) command (args ++ v ∷ []) h (
          parse_elements-bulks vs (pre ++ bulk v []) rest (index + 1) command (args ++ v ∷ [])
            (omega arith)))
    ∙ ap (finished (length pre + length (bulks (v ∷ vs) [])) command)
        (append_assoc args (v ∷ []) vs)

resp_header-complete :
    (input : List ℕ) (end n : ℕ)
    → parse_size (take (end - 1) (drop 1 input)) ≡ some n
    → (n == 0 || ltb max_command_elements n) ≡ false
    → resp_header input record { status = complete; consumed = end }
      ≡ parse_elements input n 0 (end + 2) [] []
unfolding resp_header
resp_header-complete input end n e bound = rw (e, resp_header, bound) refl

-- The header, before the elements.
abbrev array_header : ℕ → List ℕ
array_header n = b'*' ∷ (size_text n ++ crlf [])

parse_resp-header :
    (n : ℕ) (ys : List ℕ)
    → 1 ≤ n
    → n ≤ max_command_elements
    → parse_resp (array_header n ++ ys)
      ≡ parse_elements (array_header n ++ ys) n 0 (length (array_header n)) [] []
unfolding parse_resp
parse_resp-header n ys lo hi =
    let ds = size_text n in
    let input = array_header n ++ ys in
    let behind : ds ++ crlf ys ≡ drop 1 input = sym (append_assoc ds (crlf []) ys) in
    let k : 0 + 1 + length ds - 1 ≡ length ds = omega arith in
    let size : parse_size (take (0 + 1 + length ds - 1) (drop 1 input)) ≡ some n =
      rw (k, ← behind, take_exact ds (crlf ys)) (parse_size-text n (omega arith)) in
    let bound : (n == 0 || ltb max_command_elements n) ≡ false = ground arith in
    let at : 0 + 1 + length ds + 2 ≡ length (array_header n) =
      omega (arith, length-append ds (crlf [])) in
    ap (resp_header input) (find_crlf-size [] 1 n input ys (sym behind))
    ∙ resp_header-complete input (0 + 1 + length ds) n size bound
    ∙ ap (λ at. parse_elements input n 0 at [] []) at

request-append :
    (command : List ℕ) (args : List (List ℕ)) (rest : List ℕ)
    → array_header (length args + 1) ++ bulks (command ∷ args) rest ≡ request command args rest
request-append command args rest =
    ap (◌∷◌ b'*')
      (append_assoc (size_text (length args + 1)) (crlf []) (bulks (command ∷ args) rest))

parse_resp-request :
    (command : List ℕ) (args : List (List ℕ)) (rest : List ℕ)
    → length args + 1 ≤ max_command_elements
    → length (request command args rest) < 2 ^ 63
    → parse_resp (request command args rest)
      ≡ finished (length (request command args [])) command args
parse_resp-request command args rest few short =
    let n = length args + 1 in
    let pre = array_header n in
    let ys = bulks (command ∷ args) rest in
    let input = pre ++ ys in
    let e = request-append command args rest in
    let count : n ≡ suc (length args) = omega arith in
    let h = subst (λ t. length t < 2 ^ 63) (sym e) short in
    let len : length pre + length (bulk command (bulks args []))
        ≡ length (request command args []) =
      sym (length-append pre (bulks (command ∷ args) []))
      ∙ ap length (request-append command args []) in
    ap parse_resp (sym e)
    ∙ parse_resp-header n ys (omega arith) few
    ∙ ap (λ n. parse_elements input n 0 (length pre) [] []) count
    ∙ parse_elements-step pre command (bulks args rest) (length args) 0 [] [] h
    ∙ elements_behind command args pre rest 1 command [] h
        (parse_elements-bulks args (pre ++ bulk command []) rest 1 command [] (omega arith))
    ∙ ap (λ n. finished n command args) len

-- `Parse` reads the RESP text of a request back, whatever bytes follow it: the command, the
-- arguments, and the number of bytes of the text. The request has at most 1,048,576 elements, and
-- the input is shorter than 2^63 bytes.
pub parse-request :
    (command : List ℕ) (args : List (List ℕ)) (rest : List ℕ)
    → length args + 1 ≤ max_command_elements
    → length (request command args rest) < 2 ^ 63
    → parse (request command args rest) ≡ record {
      result = record { status = complete; consumed = length (request command args []) };
      command = command;
      args = args;
    }
unfolding parse cleared
parse-request command args rest few short =
    ap cleared (parse_resp-request command args rest few short)

-- ===== src/RequestParser/Outcome.antt =====
-- server/request_parser.cpp: what any input gives.
use redis_simple.Common.{
  ℕ, suc, ◌+◌, ◌-◌, ◌≤◌, ◌≡◌, refl, sym, subst, arith, List, [], ◌∷◌, length, length-drop, drop,
  take, get_or, ltb, ◌==◌, ◌&&◌, ◌||◌, if◌then◌else◌, Bool-cases, Option-cases, inl, inr,
}
use redis_simple.RequestParser.{
  ParseStatus, ParseResult, Parsed, complete, incomplete, invalid, find_crlf, find_pair, find_where,
  parse_size, resp_header, parse_resp, parse_line, parse_inline, parse, cleared,
  max_command_elements,
}
use redis_simple.RequestParser.{find_from, is_not_space, is_space}
use redis_simple.RequestParser.Bounds.{Fits, parse_elements-Fits, find_pair-bound, find_where-bound}

-- A complete result takes some bytes, at most `n`; another takes none and has no command and no
-- arguments.
abbrev pub Outcome : ℕ → Parsed → Type 0
Outcome n p = elim p.result.status [
  | complete ↦ (1 ≤ p.result.consumed) × (p.result.consumed ≤ n)
  | incomplete ↦ (p.result.consumed ≡ 0) × (p.command ≡ []) × (p.args ≡ [])
  | invalid ↦ (p.result.consumed ≡ 0) × (p.command ≡ []) × (p.args ≡ [])
]

parse_line-result : (line : List ℕ) (r : ParseResult) → (parse_line line r).result ≡ r
unfolding parse_line
parse_line-result line r = elim (Option-cases (find_from is_not_space 0 line)) [
  | inl e ↦ rw (e, parse_line) refl
  | inr (position, e) ↦ elim (Option-cases (find_from is_space position line)) [
    | inl n ↦ rw (e, n, parse_line) refl
    | inr (end, n) ↦ rw (e, n, parse_line) refl
  ]
]

parse_inline-Fits : (input : List ℕ) → Fits 1 (length input) (parse_inline input).result
unfolding parse_inline
parse_inline-Fits input = elim (Option-cases (find_where (λ c. c == b'\n') 0 input)) [
  | inl e ↦ rw (e, parse_inline) refl
  | inr (newline, e) ↦
      let at = find_where-bound (λ c. c == b'\n') 0 input newline e in
      let line_end =
        if ltb 0 newline && get_or (drop (newline - 1) input) 0 0 == b'\r'
        then newline - 1
        else newline in
      rw
        (
          e,
          parse_inline,
          parse_line-result (take line_end input)
              record { status = complete; consumed = newline + 1 },
        )
        (omega arith, omega arith)
]

resp_header-Fits :
    (input : List ℕ) (end : ℕ)
    → end + 2 ≤ length input
    → Fits 1 (length input) (resp_header input record { status = complete; consumed = end }).result
unfolding resp_header
resp_header-Fits input end within =
    elim (Option-cases (parse_size (take (end - 1) (drop 1 input)))) [
      | inl e ↦ rw (e, resp_header) refl
      | inr (n, e) ↦ elim (Bool-cases (n == 0 || ltb max_command_elements n)) [
        | inl b ↦ rw (e, b, resp_header) refl
        | inr b ↦
            rw (e, b, resp_header)
              (parse_elements-Fits input n 0 (end + 2) [] [] (omega arith) within)
      ]
    ]

incomplete_header :
    (input : List ℕ)
    → Fits 1 (length input) (resp_header input record { status = incomplete; consumed = 0 }).result
unfolding resp_header
incomplete_header input = refl

parse_resp-Fits : (input : List ℕ) → Fits 1 (length input) (parse_resp input).result
unfolding parse_resp find_crlf
parse_resp-Fits input = elim (Option-cases (find_pair 1 (drop 1 input))) [
  | inl e ↦
      let searched : find_crlf input 1 ≡ record { status = incomplete; consumed = 0 } =
        rw (e, find_crlf) refl in
      subst (λ r. Fits 1 (length input) (resp_header input r).result) (sym searched)
        (incomplete_header input)
  | inr (at, e) ↦
      let searched : find_crlf input 1 ≡ record { status = complete; consumed = at } =
        rw (e, find_crlf) refl in
      let bound = find_pair-bound 1 (drop 1 input) at e in
      subst (λ r. Fits 1 (length input) (resp_header input r).result) (sym searched)
        (resp_header-Fits input at (omega (arith, length-drop 1 input)))
]

cleared-Outcome :
    (n : ℕ) (status : ParseStatus) (k : ℕ) (command : List ℕ) (args : List (List ℕ))
    → Fits 1 n record { status = status; consumed = k }
    → Outcome n (
        cleared record {
          result = record { status = status; consumed = k };
          command = command;
          args = args;
        })
unfolding cleared
cleared-Outcome n complete k command args f = f
cleared-Outcome n incomplete k command args f = (f, refl, refl)
cleared-Outcome n invalid k command args f = (f, refl, refl)

-- `Parse` of any input either completes and consumes at least one byte and no more than there
-- are, or consumes nothing and leaves the command and the arguments empty.
pub parse-Outcome : (input : List ℕ) → Outcome (length input) (parse input)
unfolding parse
parse-Outcome [] = (refl, refl, refl)
parse-Outcome (c ∷ cs) = elim (Bool-cases (c == b'*')) [
  | inl e ↦ rw (e, parse) (of_parsed (parse_resp (c ∷ cs)) (parse_resp-Fits (c ∷ cs)))
  | inr e ↦ rw (e, parse) (of_parsed (parse_inline (c ∷ cs)) (parse_inline-Fits (c ∷ cs)))
]
  where
    of_parsed :
        (p : Parsed) → Fits 1 (suc (length cs)) p.result → Outcome (suc (length cs)) (cleared p)
    of_parsed p f =
        cleared-Outcome (suc (length cs)) p.result.status p.result.consumed p.command p.args f

-- ===== src/RequestParser/Bounds.antt =====
-- server/request_parser.cpp: what the parts of a parse consume.
use redis_simple.Common.{
  ℕ, zero, suc, ◌+◌, ◌-◌, ◌≤◌, ◌<◌, ◌≡◌, refl, arith, Option, none, some, List, [], ◌∷◌, ◌++◌,
  length, drop, take, get_or, true, false, Bool, not, ltb, leb, ◌==◌, ◌&&◌, if◌then◌else◌,
  Bool-cases, inl, inr, ◌⊎◌,
}
use redis_simple.RequestParser.{
  ParseStatus, ParseResult, Parsed, complete, incomplete, invalid, find_crlf, find_pair, find_where,
  parse_size, parse_bulk_string, bulk_header, bulk_content, parse_elements,
}

-- A complete result takes some bytes, at most `n`; another takes none.
abbrev pub Fits : ℕ → ℕ → ParseResult → Type 0
Fits lo n r = elim r.status [
  | complete ↦ (lo ≤ r.consumed) × (r.consumed ≤ n)
  | incomplete ↦ r.consumed ≡ 0
  | invalid ↦ r.consumed ≡ 0
]

bulk_content-Fits :
    (input : List ℕ) (start at size : ℕ)
    → start < length input
    → Fits 0 (length input - start) (bulk_content input start at size).0
unfolding bulk_content
bulk_content-Fits input start at size h = ground arith

-- A failed search has read nothing.
abbrev pub Failed : ParseResult → Type 0
Failed r = elim r.status [
  | complete ↦ Unit
  | incomplete ↦ r.consumed ≡ 0
  | invalid ↦ r.consumed ≡ 0
]

pub find_crlf-Failed : (input : List ℕ) (start : ℕ) → Failed (find_crlf input start)
unfolding find_crlf
find_crlf-Failed input start = cases (find_pair start (drop start input))
  where
    cases :
        (o : Option ℕ)
        → Failed (elim o [
          | none ↦ record { status = incomplete; consumed = 0 }
          | some end ↦ record { status = complete; consumed = end }
        ])
    cases none = refl
    cases (some end) = tt

bulk_header-Fits :
    (input : List ℕ) (start : ℕ) (status : ParseStatus) (end : ℕ)
    → start < length input
    → Failed record { status = status; consumed = end }
    → Fits 0
        (length input - start)
        (bulk_header input start record { status = status; consumed = end }).0
unfolding bulk_header
bulk_header-Fits input start complete end h f =
    cases (parse_size (take (end - start - 1) (drop (start + 1) input)))
  where
    cases :
        (o : Option ℕ)
        → Fits 0
            (length input - start)
            (elim o as (λ o. ParseResult × List ℕ) [
              | none ↦ (record { status = invalid; consumed = 0 }, [])
              | some size ↦ bulk_content input start (end + 2) size
            ]).0
    cases none = refl
    cases (some size) = bulk_content-Fits input start (end + 2) size h
bulk_header-Fits input start incomplete end h f = f
bulk_header-Fits input start invalid end h f = f

parse_bulk_string-Fits :
    (input : List ℕ) (start : ℕ)
    → start ≤ length input
    → Fits 0 (length input - start) (parse_bulk_string input start).0
unfolding parse_bulk_string
parse_bulk_string-Fits input start h = elim (Bool-cases (leb (length input) start)) [
  | inl e ↦ rw e refl
  | inr e ↦
      let header = find_crlf input (start + 1) in
      rw e (
        if_case (not (get_or (drop start input) 0 0 == b'$')) (
          bulk_header-Fits input start header.status header.consumed (ground arith)
            (find_crlf-Failed input (start + 1))))
]
  where
    if_case :
        (b : Bool)
        → Fits 0 (length input - start) (bulk_header input start (find_crlf input (start + 1))).0
        → Fits 0
            (length input - start)
            (if b
              then (record { status = invalid; consumed = 0 }, [])
              else bulk_header input start (find_crlf input (start + 1))).0
    if_case true h = refl
    if_case false h = h

pub parse_elements-Fits :
    (input : List ℕ) (left index consumed : ℕ) (command : List ℕ) (args : List (List ℕ))
    → 1 ≤ consumed
    → consumed ≤ length input
    → Fits 1 (length input) (parse_elements input left index consumed command args).result
unfolding parse_elements
parse_elements-Fits input zero index consumed command args lo hi = (lo, hi)
parse_elements-Fits input (suc left) index consumed command args lo hi =
    let e = parse_bulk_string input consumed in
    cases e.0.status e.0.consumed e.1 (parse_bulk_string-Fits input consumed hi)
      (λ n command args. parse_elements-Fits input left (index + 1) (consumed + n) command args)
  where
    cases :
        (status : ParseStatus) (n : ℕ) (value : List ℕ)
        → Fits 0 (length input - consumed) record { status = status; consumed = n }
        → ((n : ℕ) (command : List ℕ) (args : List (List ℕ))
            → 1 ≤ consumed + n
            → consumed + n ≤ length input
            → Fits 1
                (length input)
                (parse_elements input left (index + 1) (consumed + n) command args).result)
        → Fits 1
            (length input)
            (elim status as (λ s. Parsed) [
              | complete ↦
                  parse_elements input left
                    (index + 1)
                    (consumed + n)
                    (if index == 0 then value else command)
                    (if index == 0 then args else args ++ value ∷ [])
              | incomplete ↦ record {
                result = record { status = status; consumed = n };
                command = command;
                args = args;
              }
              | invalid ↦ record {
                result = record { status = status; consumed = n };
                command = command;
                args = args;
              }
            ]).result
    cases complete n value f later =
        later n (if index == 0 then value else command)
          (if index == 0 then args else args ++ value ∷ []) (omega arith) (omega arith)
    cases incomplete n value f later = f
    cases invalid n value f later = f

first_or_rest :
    (b : Bool) (i : ℕ) (rest : Option ℕ) (at : ℕ)
    → (if b then some i else rest) ≡ some at
    → ((b ≡ true) × (at ≡ i)) ⊎ (rest ≡ some at)
first_or_rest true i rest at h = inl (refl, ground arith)
first_or_rest false i rest at h = inr h

pub find_pair-bound :
    (i : ℕ) (s : List ℕ) (at : ℕ) → find_pair i s ≡ some at → at + 2 ≤ i + length s
unfolding find_pair
find_pair-bound i [] at h = absurd (ground arith)
find_pair-bound i (c ∷ cs) at h =
    let b = c == b'\r' && (ltb 0 (length cs) && get_or cs 0 0 == b'\n') in
    elim (first_or_rest b i (find_pair (i + 1) cs) at h) [
      | inl (e, here) ↦
          let more = second_holds (c == b'\r') (length cs) (get_or cs 0 0 == b'\n') e in omega arith
      | inr later ↦ omega (arith, find_pair-bound (i + 1) cs at later)
    ]
  where
    second_holds : (a : Bool) (n : ℕ) (d : Bool) → (a && (ltb 0 n && d)) ≡ true → 1 ≤ n
    second_holds a n d e = ground arith

pub find_where-bound :
    (p : ℕ → Bool) (i : ℕ) (s : List ℕ) (at : ℕ) → find_where p i s ≡ some at → at < i + length s
unfolding find_where
find_where-bound p i [] at h = absurd (ground arith)
find_where-bound p i (c ∷ cs) at h = elim (first_or_rest (p c) i (find_where p (i + 1) cs) at h) [
  | inl (e, here) ↦ omega arith
  | inr later ↦ omega (arith, find_where-bound p (i + 1) cs at later)
]

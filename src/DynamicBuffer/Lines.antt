-- ===== src/DynamicBuffer/Lines.antt =====
-- `ReadLineView` of memory/dynamic_buffer.cpp against lines of text.
use redis_simple.Common.{
  ℕ, suc, ◌+◌, ◌≡◌, ◌≢◌, refl, sym, ap, ◌∙◌, arith, Option-cases, inl, inr, List, [], ◌∷◌, ◌++◌,
  none, some, length, take, drop, get_or, ◌==◌, ◌⊎◌, drop-drop, add64_fits, All, All-append,
  length-append, take_exact, drop_exact, append_assoc, if◌then◌else◌, Option, ◌↔◌,
}
use redis_simple.DynamicBuffer.{Buffer, view, find_byte, line_length, read_line_view}
use redis_simple.DynamicBuffer.Invariant.{IsValid, view_lem, length-view}

abbrev pub last_byte : List ℕ → ℕ
last_byte [] = 0
last_byte (x ∷ []) = x
last_byte (x ∷ y ∷ xs) = last_byte (y ∷ xs)

-- What ends a line: `\r\n`, or `\n` where the line itself does not end in `\r`.
abbrev pub Ends : List ℕ → List ℕ → Type 0
Ends line delimiter =
    (delimiter ≡ b'\r' ∷ b'\n' ∷ []) ⊎ ((delimiter ≡ b'\n' ∷ []) × (last_byte line ≢ b'\r'))

abbrev pub NoNewline : List ℕ → Type 0
NoNewline = All (λ c. c ≢ b'\n')

find_byte_first :
    (c : ℕ) (xs ys : List ℕ) → All (λ x. x ≢ c) xs → find_byte c (xs ++ c ∷ ys) ≡ some (length xs)
unfolding find_byte
find_byte_first c [] ys h = ground arith
find_byte_first c (x ∷ xs) ys h = ground (arith, find_byte_first c xs ys h.1)

find_byte_absent : (c : ℕ) (xs : List ℕ) → All (λ x. x ≢ c) xs → find_byte c xs ≡ none
unfolding find_byte
find_byte_absent c [] h = refl
find_byte_absent c (x ∷ xs) h = ground (arith, find_byte_absent c xs h.1)

get_or_last : (x : ℕ) (xs ys : List ℕ) → get_or ((x ∷ xs) ++ ys) (length xs) 0 ≡ last_byte (x ∷ xs)
get_or_last x [] ys = refl
get_or_last x (y ∷ xs) ys = get_or_last y xs ys

get_or_at : (xs : List ℕ) (y : ℕ) (ys : List ℕ) → get_or (xs ++ y ∷ ys) (length xs) 0 ≡ y
get_or_at [] y ys = refl
get_or_at (x ∷ xs) y ys = get_or_at xs y ys

find_byte-none : (c : ℕ) (xs : List ℕ) → find_byte c xs ≡ none → All (λ x. x ≢ c) xs
unfolding find_byte
find_byte-none c [] h = tt
find_byte-none c (x ∷ xs) h = (ground arith, find_byte-none c xs (ground arith))

-- What `ReadLineView` finds in `xs`: the newline at `i`, and a line of `n` bytes before `d` more.
record Finds (xs : List ℕ) (n d : ℕ) : Type 0 where
  i : ℕ
  found : find_byte b'\n' xs ≡ some i
  measured : line_length xs i ≡ n
  delimited : (if n == i then 1 else 2) ≡ d

Finds-crlf :
    (line rest : List ℕ) → NoNewline line → Finds (line ++ b'\r' ∷ b'\n' ∷ rest) (length line) 2
unfolding line_length
Finds-crlf line rest h = record {
  i = suc (length line);
  found =
      ap (find_byte b'\n') (sym (append_assoc line (b'\r' ∷ []) (b'\n' ∷ rest)))
      ∙ find_byte_first b'\n' (line ++ b'\r' ∷ []) rest
          (All-append (λ c. c ≢ b'\n') line (b'\r' ∷ []) h (omega arith))
      ∙ ap some (length-append line (b'\r' ∷ []) ∙ omega arith);
  measured = rw (get_or_at line b'\r' (b'\n' ∷ rest));
  delimited = ground arith;
}

Finds-lf :
    (line rest : List ℕ)
    → NoNewline line
    → last_byte line ≢ b'\r'
    → Finds (line ++ b'\n' ∷ rest) (length line) 1
unfolding line_length
Finds-lf [] rest h last = record {
  i = 0;
  found = find_byte_first b'\n' [] rest h;
  measured = refl;
  delimited = refl;
}
Finds-lf (x ∷ xs) rest h last = record {
  i = length (x ∷ xs);
  found = find_byte_first b'\n' (x ∷ xs) rest h;
  measured = ground (arith, get_or_last x xs (b'\n' ∷ rest));
  delimited = ground arith;
}

Finds_lem :
    (line delimiter rest : List ℕ)
    → NoNewline line
    → Ends line delimiter
    → Finds (line ++ (delimiter ++ rest)) (length line) (length delimiter)
Finds_lem line delimiter rest h (inl e) = rw e (Finds-crlf line rest h)
Finds_lem line delimiter rest h (inr (e, last)) = rw e (Finds-lf line rest h last)

module _ {b : Buffer} (v : IsValid b) where
  -- Where the unread bytes of a well-formed buffer begin with a line that has no newline in it, then
  -- `\r\n` or, if the line does not itself end in `\r`, `\n`, `ReadLineView` returns the line
  -- without what ends it and leaves a well-formed buffer whose unread bytes are the rest.
  pub read_line_view-line :
      (line delimiter rest : List ℕ)
      → view b ≡ line ++ (delimiter ++ rest)
      → NoNewline line
      → Ends line delimiter
      → (b' : Buffer) × (read_line_view b ≡ (some line, b')) × IsValid b' × (view b' ≡ rest)
  unfolding read_line_view
  read_line_view-line line delimiter rest e h ends =
      let f = Finds_lem line delimiter rest h ends in
      let m = length line + length delimiter in
      let long : length (view b) ≡ m + length rest =
        ap length e
        ∙ length-append line (delimiter ++ rest)
        ∙ omega (arith, length-append delimiter rest) in
      let taken : take (length line) (view b) ≡ line =
        ap (take (length line)) e ∙ take_exact line (delimiter ++ rest) in
      let b' : Buffer = record b { processed = b.processed + m } in
      let valid : IsValid b' = record {
        allocated = v.allocated;
        within = v.within;
        ordered = omega (arith, length-view v, v.ordered);
        fits = v.fits;
      } in
      let cut : drop m (line ++ (delimiter ++ rest)) ≡ rest =
        sym (drop-drop (length delimiter) (length line) (line ++ (delimiter ++ rest)))
        ∙ ap (drop (length delimiter)) (drop_exact line (delimiter ++ rest))
        ∙ drop_exact delimiter rest in
      (
        b',
        rw (
          ap (find_byte b'\n') e ∙ f.found,
          read_line_view,
          ap (λ t. line_length t f.i) e ∙ f.measured,
          f.delimited,
          taken,
          add64_fits b.processed m (omega (arith, length-view v, v.ordered, v.within, v.fits)),
        ),
        valid,
        view_lem valid
            ∙ sym (drop-drop m b.processed (take b.size b.bytes))
            ∙ ap (drop m) (sym (view_lem v) ∙ e)
            ∙ cut,
      )

-- `ReadLineView` returns no line and leaves the buffer as it is exactly when no unread byte is a
-- newline.
pub read_line_view-none : (b : Buffer) → (read_line_view b ≡ (none, b)) ↔ NoNewline (view b)
unfolding read_line_view
read_line_view-none b = (
  elim (Option-cases (find_byte b'\n' (view b))) [
    | inl e ↦ λ _. find_byte-none b'\n' (view b) e
    | inr (i, e) ↦ rw (e, read_line_view) (λ bad. absurd (some_line (ap (λ p. p.0) bad)))
  ],
  λ h. rw (find_byte_absent b'\n' (view b) h, read_line_view),
)
  where
    some_line : {l : List ℕ} → ◌≡◌ {A = Option (List ℕ)} (some l) none → ⊥
    some_line e = cc

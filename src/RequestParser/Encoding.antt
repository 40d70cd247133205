-- ===== src/RequestParser/Encoding.antt =====
-- The RESP text of a request, as a client sends it.
use redis_simple.Common.{ℕ, ◌+◌, List, [], ◌∷◌, ◌++◌, length}
use redis_simple.Decimal.{digits10}
use redis_simple.Decimal.Spec.{decimal}

abbrev pub size_text : ℕ → List ℕ
size_text n = decimal (digits10 n) n

abbrev pub crlf : List ℕ → List ℕ
crlf rest = b'\r' ∷ b'\n' ∷ rest

-- A bulk string, before `rest`.
abbrev pub bulk : List ℕ → List ℕ → List ℕ
bulk value rest = b'$' ∷ (size_text (length value) ++ crlf (value ++ crlf rest))

abbrev pub bulks : List (List ℕ) → List ℕ → List ℕ
bulks [] rest = rest
bulks (v ∷ vs) rest = bulk v (bulks vs rest)

-- A request: a command and its arguments.
abbrev pub request : List ℕ → List (List ℕ) → List ℕ → List ℕ
request command args rest =
    b'*' ∷ (size_text (length args + 1) ++ crlf (bulks (command ∷ args) rest))

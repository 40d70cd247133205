-- ===== src/ReplyBuffer/Tail.antt =====
-- memory/reply_buffer.cpp: writes behind the last node of the list, and the bytes of the nodes.
use redis_simple.Common.{
  ℕ, suc, ◌-◌, ◌≤◌, ◌<◌, ◌≡◌, refl, sym, ap, ◌∙◌, arith, List, [], ◌∷◌, ◌++◌, min, length, take,
  drop, length-append, length-take, append-nil, append_assoc, drop-append_le, take_all, All,
  Bool-cases, inl, inr, ◌≢◌, max,
}
use redis_simple.ReplyBuffer.{
  Node, append_to_node, append_to_tail, new_node, create, fill_nodes, least_node_size,
}
use redis_simple.ReplyBuffer.Invariant.{NodeIsValid, SentIsValid, total_capacity}
use mathlib.Core.List.{flatten}

-- The bytes of the nodes behind the first `offset`.
unfoldable pub stream : ℕ → List Node → List ℕ
stream offset nodes = flatten (fill_nodes offset nodes)

-- The offset of the first node is inside it.
abbrev pub Within : ℕ → List Node → Type 0
Within offset [] = Unit
Within offset (node ∷ rest) = offset ≤ length node.content

pub stream-append :
    (offset : ℕ) (node : Node) (nodes : List Node)
    → stream 0 (nodes ++ node ∷ []) ≡ stream 0 nodes ++ node.content
unfolding stream fill_nodes flatten
stream-append offset node [] = append-nil node.content
stream-append offset node (n ∷ rest) =
    ap (λ t. n.content ++ t) (stream-append 0 node rest)
    ∙ sym (append_assoc n.content (stream 0 rest) node.content)

-- What a write of `s` into the node list does: the first `k` bytes of `s` go behind the others.
pub record Extends (offset : ℕ) (old : List Node) (s : List ℕ) (r : List Node × ℕ) : Type 0 where
  pub streamed : stream offset r.0 ≡ stream offset old ++ take r.1 s
  pub taken : r.1 ≤ length s
  pub same_length : length r.0 ≡ length old
  pub same_capacity : total_capacity r.0 ≡ total_capacity old
  pub still_filled : All NodeIsValid r.0
  pub keeps : (p : ℕ) → SentIsValid [] old p → SentIsValid [] r.0 p

-- The same for one node.
record ExtendsNode (node : Node) (s : List ℕ) (r : Node × ℕ) : Type 0 where
  content : r.0.content ≡ node.content ++ take r.1 s
  taken : r.1 ≤ length s
  same_capacity : r.0.capacity ≡ node.capacity
  valid : NodeIsValid r.0

append_to_node_lem :
    (node : Node) (s : List ℕ) → NodeIsValid node → ExtendsNode node s (append_to_node node s)
unfolding append_to_node
append_to_node_lem node s (pos, room) = elim (Bool-cases node.writable) [
  | inl yes_ ↦
      let n = min (length s) (node.capacity - length node.content) in
      let long = length-append node.content (take n s) in
      let short = length-take n s in
      rw yes_
        (record { content = refl; taken = omega arith; same_capacity = refl; valid = omega arith })
  | inr no_ ↦ rw no_ (record {
    content = sym (append-nil node.content);
    taken = omega arith;
    same_capacity = refl;
    valid = (pos, room);
  })
]

pub append_to_tail_lem :
    (offset : ℕ) (nodes : List Node) (s : List ℕ)
    → Within offset nodes
    → All NodeIsValid nodes
    → nodes ≢ []
    → Extends offset nodes s (append_to_tail nodes s)
unfolding append_to_tail stream fill_nodes flatten
append_to_tail_lem offset [] s w v h = absurd (h refl)
append_to_tail_lem offset (node ∷ []) s w v h =
    let e = append_to_node_lem node s v.0 in
    let r = append_to_node node s in
    record {
      streamed =
          append-nil (drop offset r.0.content)
          ∙ ap (drop offset) e.content
          ∙ drop-append_le offset node.content (take r.1 s) w
          ∙ ap (λ t. t ++ take r.1 s) (sym (append-nil (drop offset node.content)));
      taken = e.taken;
      same_length = refl;
      same_capacity = omega (arith, e.same_capacity);
      still_filled = (e.valid, tt);
      keeps = λ p h. omega (arith, ap length e.content, length-append node.content (take r.1 s));
    }
append_to_tail_lem offset (node ∷ next ∷ rest) s w v h =
    let e = append_to_tail_lem 0 (next ∷ rest) s (omega arith) v.1 (λ p. cc) in
    let r = append_to_tail (next ∷ rest) s in
    record {
      streamed =
          ap (λ t. drop offset node.content ++ t) e.streamed
          ∙ sym (append_assoc (drop offset node.content) (stream 0 (next ∷ rest)) (take r.1 s));
      taken = e.taken;
      same_length = ap suc e.same_length;
      same_capacity = omega (arith, e.same_capacity);
      still_filled = (v.0, e.still_filled);
      keeps = λ p h. h;
    }

-- A fresh node takes all the bytes.
pub new_node_lem :
    (s : List ℕ) → 0 < length s → ((new_node s).content ≡ s) × NodeIsValid (new_node s)
unfolding new_node append_to_node create
new_node_lem s h =
    let n = min (length s) (max (length s) least_node_size - 0) in
    let all : take n s ≡ s = take_all n s (omega arith) in (all, (rw all h, rw all (omega arith)))

-- ===== src/ReplyBuffer/Drain.antt =====
-- memory/reply_buffer.cpp: `Consume` on the list of nodes.
use redis_simple.Common.{
  ℕ, ◌+◌, ◌-◌, ◌≤◌, ◌<◌, ◌≡◌, refl, sym, ap, subst, ◌∙◌, arith, List, [], ◌∷◌, ◌++◌, length, drop,
  length-drop, Bool-cases, inl, inr, true, ltb, ◌==◌, drop_all, drop-drop, drop-append_le,
  drop-append_ge, All,
}
use redis_simple.ReplyBuffer.{Node, Reply, fill_nodes, delete_head, consume_list}
use redis_simple.ReplyBuffer.Invariant.{NodeIsValid, SentIsValid, total_capacity, queue, IsShaped}
use redis_simple.ReplyBuffer.Tail.{stream}
use redis_simple.ReplyBuffer.Parts.{queue_of, queue_lem}
use mathlib.Core.List.{flatten}

-- `r` is `b` without the first `n` bytes of its queue.
pub record Drains (b : Reply) (n : ℕ) (r : Reply) : Type 0 where
  pub shape : IsShaped r
  pub queued : queue r ≡ drop n (queue b)
  pub kept : r.pending_bytes ≡ b.pending_bytes

-- The position at the start of the list.
pub start_position : (nodes : List Node) → All NodeIsValid nodes → SentIsValid [] nodes 0
start_position [] v = refl
start_position (node ∷ rest) v = v.0.0

-- The state without a fixed part, at the list `nodes` and the position `sent`.
pub record At (b : Reply) (nodes : List Node) : Type 0 where
  pub shape : IsShaped b
  pub drained : b.main ≡ []
  pub listed : b.nodes ≡ nodes

At-queue : {b : Reply} {nodes : List Node} (a : At b nodes) → queue b ≡ stream b.sent nodes
At-queue {b} {nodes} a =
    queue_lem b
    ∙ ap (λ m. queue_of m b.nodes b.sent) a.drained
    ∙ ap (λ ns. stream b.sent ns) a.listed

At-position : {b : Reply} {nodes : List Node} (a : At b nodes) → SentIsValid [] nodes b.sent
At-position {b} {nodes} a =
    subst (λ m. SentIsValid m nodes b.sent) a.drained
      (subst (λ ns. SentIsValid b.main ns b.sent) a.listed a.shape.position)

At-filled : {b : Reply} {nodes : List Node} (a : At b nodes) → All NodeIsValid nodes
At-filled a = subst (All NodeIsValid) a.listed a.shape.filled

-- A write that ends inside the first node.
advance-Drains :
    {b : Reply} {node : Node} {rest : List Node} (a : At b (node ∷ rest)) (n : ℕ)
    → n < length node.content - b.sent
    → Drains b n (record b { sent = b.sent + n })
advance-Drains {b} {node} {rest} a n h =
    let p = At-position a in
    let moved : SentIsValid [] (node ∷ rest) (b.sent + n) = omega arith in
    let shape : IsShaped (record b { sent = b.sent + n }) = record {
      usable = a.shape.usable;
      bounded = a.shape.bounded;
      counted = a.shape.counted;
      allocated = a.shape.allocated;
      filled = a.shape.filled;
      position =
          subst (λ m. SentIsValid m b.nodes (b.sent + n)) (sym a.drained)
            (subst (λ ns. SentIsValid [] ns (b.sent + n)) (sym a.listed) moved);
    } in
    let later : At (record b { sent = b.sent + n }) (node ∷ rest) = record {
      shape = shape;
      drained = a.drained;
      listed = a.listed;
    } in
    record {
      shape = shape;
      queued =
          unfold stream fill_nodes flatten in
          At-queue later
          ∙ ap (λ t. t ++ stream 0 rest) (sym (drop-drop n b.sent node.content))
          ∙ sym (
              drop-append_le n (drop b.sent node.content) (stream 0 rest)
                (omega (arith, length-drop b.sent node.content)))
          ∙ ap (drop n) (sym (At-queue a));
      kept = refl;
    }

delete_head-At :
    {b : Reply} {node : Node} {rest : List Node} (a : At b (node ∷ rest))
    → At (delete_head node rest (record b { sent = 0 })) rest
unfolding delete_head
delete_head-At {b} {node} {rest} a =
    let filled = (At-filled a).1 in
    record {
      shape = record {
        usable = a.shape.usable;
        bounded = a.shape.bounded;
        counted = omega (arith, a.shape.counted, ap length a.listed);
        allocated = omega (arith, a.shape.allocated, ap total_capacity a.listed);
        filled = filled;
        position = subst (λ m. SentIsValid m rest 0) (sym a.drained) (start_position rest filled);
      };
      drained = a.drained;
      listed = refl;
    }

zero_of : (n : ℕ) → n == 0 ≡ true → n ≡ 0
zero_of n e = ground arith

past_head :
    {b : Reply} {node : Node} {rest : List Node} (a : At b (node ∷ rest)) (n : ℕ)
    → length node.content - b.sent ≤ n
    → drop
        (n - (length node.content - b.sent))
        (queue (delete_head node rest (record b { sent = 0 })))
      ≡ drop n (queue b)
past_head {b} {node} {rest} a n h =
    let head = drop b.sent node.content in
    let e : length node.content - b.sent ≡ length head = sym (length-drop b.sent node.content) in
    let split : queue b ≡ head ++ stream 0 rest =
      At-queue a ∙ unfold stream fill_nodes flatten in refl in
    let after : queue (delete_head node rest (record b { sent = 0 })) ≡ stream 0 rest =
      At-queue (delete_head-At a) ∙ unfold delete_head in refl in
    ap (drop (n - (length node.content - b.sent))) after
    ∙ ap (λ k. drop (n - k) (stream 0 rest)) e
    ∙ sym (drop-append_ge n head (stream 0 rest) (omega arith))
    ∙ ap (drop n) (sym split)

pub consume_list-Drains :
    (nodes : List Node) (n : ℕ) {b : Reply} → At b nodes → Drains b n (consume_list nodes n b)
unfolding consume_list
consume_list-Drains [] n {b} a = record {
  shape = a.shape;
  queued =
      unfold stream fill_nodes flatten in
      At-queue a ∙ sym (ap (drop n) (At-queue a) ∙ drop_all n [] (omega arith));
  kept = refl;
}
consume_list-Drains (node ∷ rest) n {b} a =
    let remaining = length node.content - b.sent in
    let next = consume_list-Drains rest (n - remaining) (delete_head-At a) in
    elim (Bool-cases (n == 0)) [
      | inl done ↦ rw done (record {
        shape = a.shape;
        queued = ap (λ k. drop k (queue b)) (sym (zero_of n done));
        kept = refl;
      })
      | inr more ↦ elim (Bool-cases (ltb n remaining)) [
        | inl inside ↦ rw (more, inside) (advance-Drains a n (ground arith))
        | inr past ↦
            rw (more, past)
              (record {
                shape = next.shape;
                queued = next.queued ∙ past_head a n (ground arith);
                kept = next.kept ∙ unfold delete_head in refl;
              })
      ]
    ]

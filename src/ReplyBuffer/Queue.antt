-- ===== src/ReplyBuffer/Queue.antt =====
-- memory/reply_buffer.cpp as a queue of bytes: what `Append` does to the bytes still to be sent.
use redis_simple.Common.{
  ℕ, ◌+◌, ◌-◌, ◌≤◌, ◌<◌, ◌≡◌, refl, sym, ap, subst, ◌∙◌, arith, List, [], ◌∷◌, ◌++◌, min, length,
  take, drop, length-append, length-take, append-nil, append_assoc, take_all, take-append-drop,
  All-append, Bool-cases, inl, inr, length-drop, ltb, ◌==◌, eq-nil, if◌then◌else◌,
}
use redis_simple.ReplyBuffer.{
  Node, Reply, fill_blocks, append_to_tail, new_node, push_node, append_to_list, append_to_buffer,
}
use redis_simple.ReplyBuffer.Invariant.{
  NodeIsValid, SentIsValid, total_capacity, queue, IsShaped, IsValid,
}
use redis_simple.ReplyBuffer.Tail.{new_node_lem}
use redis_simple.ReplyBuffer.Parts.{
  queue_of, queue_lem, append_to_tail-Grows, push-Grows, main-Grows,
}

total_capacity-append :
    (nodes : List Node) (node : Node)
    → total_capacity (nodes ++ node ∷ []) ≡ total_capacity nodes + node.capacity
total_capacity-append [] node = omega arith
total_capacity-append (n ∷ rest) node = omega (arith, total_capacity-append rest node)

-- `r` is `b` with the bytes `s` behind the others.
pub record Queued (b : Reply) (s : List ℕ) (r : Reply) : Type 0 where
  pub shape : IsShaped r
  pub queued : queue r ≡ queue b ++ s
  pub kept : r.pending_bytes ≡ b.pending_bytes

-- The queue does not read the count of pending bytes.
pub same_queue : (r : Reply) (n : ℕ) → queue (record r { pending_bytes = n }) ≡ queue r
unfolding queue fill_blocks
same_queue r n = refl

pub push_node-Queued :
    {b : Reply} (v : IsShaped b) (node : Node)
    → NodeIsValid node
    → Queued b node.content (push_node node b)
unfolding push_node
push_node-Queued {b} v node n =
    let g = push-Grows b.main b.nodes b.sent node v.position n in
    record {
      shape = record {
        usable = v.usable;
        bounded = v.bounded;
        counted = omega (arith, v.counted, length-append b.nodes (node ∷ []));
        allocated = omega (arith, v.allocated, total_capacity-append b.nodes node);
        filled = All-append NodeIsValid b.nodes (node ∷ []) v.filled (n, tt);
        position = g.position;
      };
      queued = queue_lem _ ∙ g.queued ∙ ap (λ t. t ++ node.content) (sym (queue_lem b));
      kept = refl;
    }

tail-Queued :
    {b : Reply} (v : IsShaped b) (s : List ℕ)
    → (let r = append_to_tail b.nodes s in
        Queued b (take r.1 s) (record b { nodes = r.0 }) × (r.1 ≤ length s))
tail-Queued {b} v s =
    let (g, taken, same_length, same_capacity, filled) =
      append_to_tail-Grows b.main b.nodes b.sent s v.position v.filled in
    let r = append_to_tail b.nodes s in
    (
      record {
        shape = record {
          usable = v.usable;
          bounded = v.bounded;
          counted = omega (arith, v.counted);
          allocated = omega (arith, v.allocated);
          filled = filled;
          position = g.position;
        };
        queued = queue_lem _ ∙ g.queued ∙ ap (λ t. t ++ take r.1 s) (sym (queue_lem b));
        kept = refl;
      },
      taken,
    )

pub Queued-trans :
    {b c d : Reply} {s t : List ℕ} → Queued b s c → Queued c t d → Queued b (s ++ t) d
Queued-trans {b} {s = s} {t = t} p q = record {
  shape = q.shape;
  queued = q.queued ∙ ap (λ u. u ++ t) p.queued ∙ append_assoc (queue b) s t;
  kept = q.kept ∙ p.kept;
}

pub append_to_list-Queued :
    {b : Reply} (v : IsShaped b) (s : List ℕ)
    → Queued b s (append_to_list s b).0 × ((append_to_list s b).1 ≡ length s)
unfolding append_to_list
append_to_list-Queued {b} v s =
    let (q, taken) = tail-Queued v s in
    let n = (append_to_tail b.nodes s).1 in
    elim (Bool-cases (ltb n (length s))) [
      | inl more ↦
          let (content, valid) = new_node_lem (drop n s) (ground (arith, length-drop n s)) in
          let joined = Queued-trans q (push_node-Queued q.shape (new_node (drop n s)) valid) in
          rw more (
            subst
                (λ t. Queued b t (
                  push_node (new_node (drop n s))
                    (record b { nodes = (append_to_tail b.nodes s).0 })))
                (ap (λ u. take n s ++ u) content ∙ take-append-drop n s) joined,
            refl,
          )
      | inr all ↦ rw all (rw (take_all n s (ground arith)) at q, refl)
    ]

main-Queued :
    {b : Reply} (v : IsShaped b) (t : List ℕ)
    → b.nodes ≡ []
    → 0 < length (b.main ++ t)
    → length (b.main ++ t) ≤ b.usable
    → Queued b t (record b { main = b.main ++ t })
main-Queued {b} v t e pos room =
    let (queued, position) =
      main-Grows b.main t b.sent pos (subst (λ ns. SentIsValid b.main ns b.sent) e v.position) in
    record {
      shape = record {
        usable = v.usable;
        bounded = room;
        counted = v.counted;
        allocated = v.allocated;
        filled = v.filled;
        position = subst (λ ns. SentIsValid (b.main ++ t) ns b.sent) (sym e) position;
      };
      queued =
          queue_lem _
          ∙ subst (λ ns. queue_of (b.main ++ t) ns b.sent ≡ queue_of b.main ns b.sent ++ t) (sym e)
              queued
          ∙ ap (λ u. u ++ t) (sym (queue_lem b));
      kept = refl;
    }

-- The fixed buffer takes what fits, and nothing while nodes wait.
pub append_to_buffer-Queued :
    {b : Reply} (v : IsShaped b) (s : List ℕ)
    → 0 < length s
    → (let r = append_to_buffer s b in Queued b (take r.1 s) r.0 × (r.1 ≤ length s))
unfolding append_to_buffer
append_to_buffer-Queued {b} v s h = elim (Bool-cases (b.node_count == 0)) [
  | inr waiting ↦
      rw waiting
        (record { shape = v; queued = sym (append-nil (queue b)); kept = refl }, omega arith)
  | inl clear ↦
      let available = b.usable - length b.main in
      let n = if ltb (length s) available then length s else available in
      let least : n ≡ min (length s) available = ground arith in
      let long = length-append b.main (take n s) in
      let short = length-take n s in
      rw clear (
        main-Queued v (take n s) (eq-nil b.nodes (ground (arith, v.counted)))
            (omega (arith, least, long, short, v.usable, v.bounded, h))
            (omega (arith, least, long, short, v.bounded)),
        omega (arith, least),
      )
]

-- The count of pending bytes follows.
pub counted-IsValid :
    {b r : Reply} {s : List ℕ} (v : IsValid b)
    → Queued b s r
    → (n : ℕ) → n ≡ length s
    → IsValid (record r { pending_bytes = r.pending_bytes + n })
counted-IsValid {b} {r} {s} v q n e = record {
  shape = record {
    usable = q.shape.usable;
    bounded = q.shape.bounded;
    counted = q.shape.counted;
    allocated = q.shape.allocated;
    filled = q.shape.filled;
    position = q.shape.position;
  };
  pending = omega (
    arith,
    q.kept,
    v.pending,
    ap length q.queued,
    length-append (queue b) s,
    e,
    ap length (same_queue r (r.pending_bytes + n)),
  );
}

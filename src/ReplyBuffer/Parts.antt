-- ===== src/ReplyBuffer/Parts.antt =====
-- memory/reply_buffer.cpp: how the pending bytes grow with each part of the state.
use redis_simple.Common.{
  ℕ, suc, ◌≤◌, ◌<◌, ◌≡◌, refl, sym, ap, ◌∙◌, arith, List, [], ◌∷◌, ◌++◌, length, take, drop,
  length-append, append-nil, append_assoc, drop-append_le, All, lt→ltb,
}
use redis_simple.ReplyBuffer.{Node, Reply, fill_blocks, append_to_tail, fill_nodes}
use redis_simple.ReplyBuffer.Invariant.{NodeIsValid, SentIsValid, total_capacity, queue}
use redis_simple.ReplyBuffer.Tail.{stream, stream-append, append_to_tail_lem}
use mathlib.Core.List.{flatten}

-- `queue` by the parts of the state.
abbrev pub queue_of : List ℕ → List Node → ℕ → List ℕ
queue_of [] nodes sent = stream sent nodes
queue_of (x ∷ xs) nodes sent = drop sent (x ∷ xs) ++ stream 0 nodes

pub queue_lem : (b : Reply) → queue b ≡ queue_of b.main b.nodes b.sent
queue_lem b = by_main b.main refl
  where
    by_main : (main : List ℕ) → b.main ≡ main → queue b ≡ queue_of main b.nodes b.sent
    by_main [] e = unfold queue fill_blocks stream in rw e
    by_main (x ∷ xs) e =
        unfold queue fill_blocks stream flatten in rw (e, lt→ltb 0 (suc (length xs)) (omega arith))

pub record Grows (main : List ℕ) (old new : List Node) (sent : ℕ) (s : List ℕ) : Type 0 where
  pub queued : queue_of main new sent ≡ queue_of main old sent ++ s
  pub position : SentIsValid main new sent

-- A write behind the last node leaves the other bytes of the queue alone.
pub append_to_tail-Grows :
    (main : List ℕ) (nodes : List Node) (sent : ℕ) (s : List ℕ)
    → SentIsValid main nodes sent
    → All NodeIsValid nodes
    → (let r = append_to_tail nodes s in
        Grows main nodes r.0 sent (take r.1 s)
        × (r.1 ≤ length s)
        × (length r.0 ≡ length nodes)
        × (total_capacity r.0 ≡ total_capacity nodes)
        × All NodeIsValid r.0)
append_to_tail-Grows main [] sent s p v =
    unfold append_to_tail in
    (
      record { queued = sym (append-nil (queue_of main [] sent)); position = p },
      omega arith,
      refl,
      refl,
      tt,
    )
append_to_tail-Grows [] (node ∷ rest) sent s p v =
    let e = append_to_tail_lem sent (node ∷ rest) s (omega arith) v (λ q. cc) in
    (
      record { queued = e.streamed; position = e.keeps sent p },
      e.taken,
      e.same_length,
      e.same_capacity,
      e.still_filled,
    )
append_to_tail-Grows (x ∷ xs) (node ∷ rest) sent s p v =
    let e = append_to_tail_lem 0 (node ∷ rest) s (omega arith) v (λ q. cc) in
    let r = append_to_tail (node ∷ rest) s in
    (
      record {
        queued =
            ap (λ t. drop sent (x ∷ xs) ++ t) e.streamed
            ∙ sym (append_assoc (drop sent (x ∷ xs)) (stream 0 (node ∷ rest)) (take r.1 s));
        position = p;
      },
      e.taken,
      e.same_length,
      e.same_capacity,
      e.still_filled,
    )

pub push-Grows :
    (main : List ℕ) (nodes : List Node) (sent : ℕ) (node : Node)
    → SentIsValid main nodes sent
    → NodeIsValid node
    → Grows main nodes (nodes ++ node ∷ []) sent node.content
push-Grows [] [] sent node p v = record {
  queued = unfold stream fill_nodes flatten in rw p (append-nil node.content);
  position = omega (arith, p, v.0);
}
push-Grows [] (n ∷ rest) sent node p v = record {
  queued =
      unfold stream fill_nodes flatten in
      ap (λ t. drop sent n.content ++ t) (stream-append 0 node rest)
      ∙ sym (append_assoc (drop sent n.content) (stream 0 rest) node.content);
  position = p;
}
push-Grows (x ∷ xs) nodes sent node p v = record {
  queued =
      ap (λ t. drop sent (x ∷ xs) ++ t) (stream-append 0 node nodes)
      ∙ sym (append_assoc (drop sent (x ∷ xs)) (stream 0 nodes) node.content);
  position = p;
}

-- Bytes put behind the fixed buffer while there is no node.
pub main-Grows :
    (main s : List ℕ) (sent : ℕ)
    → 0 < length (main ++ s)
    → SentIsValid main [] sent
    → (queue_of (main ++ s) [] sent ≡ queue_of main [] sent ++ s) × SentIsValid (main ++ s) [] sent
main-Grows [] [] sent h p = absurd (omega arith)
main-Grows [] (y ∷ ys) sent h p =
    (unfold stream fill_nodes flatten in rw p (append-nil (y ∷ ys)), omega arith)
main-Grows (x ∷ xs) s sent h p = (
  unfold stream fill_nodes flatten in
      append-nil (drop sent (x ∷ xs ++ s))
      ∙ drop-append_le sent (x ∷ xs) s (omega arith)
      ∙ ap (λ t. t ++ s) (sym (append-nil (drop sent (x ∷ xs)))),
  omega (arith, length-append xs s),
)

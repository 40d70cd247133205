-- ===== src/ReplyBuffer/Append.antt =====
-- memory/reply_buffer.cpp: the two `Append` operations on the queue of pending bytes.
use redis_simple.Common.{
  ℕ, ◌+◌, ◌-◌, ◌≤◌, ◌≡◌, refl, sym, ap, subst, ◌∙◌, arith, List, ◌++◌, length, drop, append-nil,
  take_all, take-append-drop, Bool-cases, inl, inr, length-drop, ltb, ◌==◌, eq-nil, leb, ◌&&◌,
}
use redis_simple.ReplyBuffer.{
  Reply, append_to_list, append_to_buffer, append, append_owned, create_owned, push_node,
}
use redis_simple.ReplyBuffer.Invariant.{queue, IsValid}
use redis_simple.ReplyBuffer.Queue.{
  Queued, Queued-trans, append_to_list-Queued, append_to_buffer-Queued, push_node-Queued,
  counted-IsValid, same_queue,
}

-- What an `Append` of `s` promises of its result.
pub record Appends (b : Reply) (s : List ℕ) (r : Reply × ℕ) : Type 0 where
  pub valid : IsValid r.0
  pub queued : queue r.0 ≡ queue b ++ s
  pub taken : r.1 ≡ length s

Appends-none : {b : Reply} (v : IsValid b) (s : List ℕ) → length s ≡ 0 → Appends b s (b, 0)
Appends-none {b} v s e = record {
  valid = v;
  queued = sym (ap (λ t. queue b ++ t) (eq-nil s e) ∙ append-nil (queue b));
  taken = sym e;
}

Appends-counted :
    {b r : Reply} {s : List ℕ} (v : IsValid b) (q : Queued b s r) (n : ℕ)
    → n ≡ length s
    → Appends b s (record r { pending_bytes = r.pending_bytes + n }, n)
Appends-counted {r = r} v q n e = record {
  valid = counted-IsValid v q n e;
  queued = same_queue r (r.pending_bytes + n) ∙ q.queued;
  taken = e;
}

module _ {b : Reply} (v : IsValid b) (s : List ℕ) where
  -- On a well-formed buffer, `Append` of bytes keeps the buffer well formed, puts the bytes behind
  -- those that wait to be sent, and returns their number.
  pub append-Appends : Appends b s (append s b)
  unfolding append
  append-Appends = elim (Bool-cases (length s == 0)) [
    | inl nothing ↦ rw nothing (Appends-none v s (ground arith))
    | inr something ↦
        let (q, taken) = append_to_buffer-Queued v.shape s (ground arith) in
        let (b', n) = append_to_buffer s b in
        elim (Bool-cases (ltb (append_to_buffer s b).1 (length s))) [
          | inr all ↦
              rw (something, all)
                (Appends-counted v (subst (λ t. Queued b t b') (take_all n s (ground arith)) q)
                  (n + 0) (ground (arith, taken)))
          | inl more ↦
              let (q', given) = append_to_list-Queued q.shape (drop n s) in
              let joined =
                subst (λ t. Queued b t (append_to_list (drop n s) b').0) (take-append-drop n s)
                  (Queued-trans q q') in
              rw (something, more)
                (Appends-counted v joined (n + (append_to_list (drop n s) b').1)
                  (omega (arith, given, length-drop n s, taken)))
        ]
  ]

  -- On a well-formed buffer, `Append` of a string whose capacity is at least its length does the
  -- same, whether the string is copied into the fixed buffer or kept as a node.
  pub append_owned-Appends : (c : ℕ) → length s ≤ c → Appends b s (append_owned s c b)
  unfolding append_owned
  append_owned-Appends c room = elim (Bool-cases (length s == 0)) [
    | inl nothing ↦ rw nothing (Appends-none v s (ground arith))
    | inr something ↦
        let (q, taken) = append_to_buffer-Queued v.shape s (ground arith) in
        let (b', n) = append_to_buffer s b in
        elim (Bool-cases (b.node_count == 0 && leb (length s) (b.usable - length b.main))) [
          | inl fits ↦
              let whole : n ≡ length s = unfold append_to_buffer in ground arith in
              rw (something, fits)
                (Appends-counted v (subst (λ t. Queued b t b') (take_all n s (omega arith)) q) n
                  whole)
          | inr waits ↦
              let kept : Queued b s (push_node (create_owned s c) b) =
                unfold create_owned in
                push_node-Queued v.shape (create_owned s c) (ground arith, room) in
              rw (something, waits) (Appends-counted v kept (length s) refl)
        ]
  ]

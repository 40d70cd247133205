-- ===== src/ReplyBuffer/Consume.antt =====
-- memory/reply_buffer.cpp: `Consume` on the queue of pending bytes.
use redis_simple.Common.{
  ℕ, ◌+◌, ◌-◌, ◌≤◌, ◌<◌, ◌≡◌, refl, sym, ap, subst, ◌∙◌, arith, List, [], ◌∷◌, ◌++◌, min, length,
  drop, length-drop, Bool-cases, inl, inr, ltb, leb, drop-drop, drop-append_le, drop_exact, eq-nil,
  ◌↔◌,
}
use redis_simple.ReplyBuffer.{Node, Reply, consume_buffer, consume_list, consume}
use redis_simple.ReplyBuffer.Invariant.{SentIsValid, queue, IsShaped, IsValid}
use redis_simple.ReplyBuffer.Tail.{stream}
use redis_simple.ReplyBuffer.Parts.{queue_of, queue_lem}
use redis_simple.ReplyBuffer.Queue.{same_queue}
use redis_simple.ReplyBuffer.Drain.{Drains, start_position, consume_list-Drains}

-- The fixed buffer comes first.
queue_of_main :
    (main : List ℕ) (nodes : List Node) (sent : ℕ)
    → 0 < length main
    → queue_of main nodes sent ≡ drop sent main ++ stream 0 nodes
queue_of_main [] nodes sent h = absurd (omega arith)
queue_of_main (x ∷ xs) nodes sent h = refl

SentIsValid-length :
    (main : List ℕ) (nodes : List Node) (sent : ℕ)
    → 0 < length main
    → SentIsValid main nodes sent ↔ (sent < length main)
SentIsValid-length [] nodes sent h = absurd (omega arith)
SentIsValid-length (x ∷ xs) nodes sent h = (λ p. p, λ p. p)

module _ {b : Reply} (v : IsShaped b) (pos : 0 < length b.main) where
  main_position : b.sent < length b.main
  main_position = (SentIsValid-length b.main b.nodes b.sent pos).0 v.position

  main_queue : queue b ≡ drop b.sent b.main ++ stream 0 b.nodes
  main_queue = queue_lem b ∙ queue_of_main b.main b.nodes b.sent pos

  -- A write that ends inside the fixed buffer.
  inside_main-Drains :
      (n : ℕ) → b.sent + n < length b.main → Drains b n (record b { sent = b.sent + n })
  inside_main-Drains n h = record {
    shape = record {
      usable = v.usable;
      bounded = v.bounded;
      counted = v.counted;
      allocated = v.allocated;
      filled = v.filled;
      position = (SentIsValid-length b.main b.nodes (b.sent + n) pos).1 h;
    };
    queued =
        queue_lem _
        ∙ queue_of_main b.main b.nodes (b.sent + n) pos
        ∙ ap (λ t. t ++ stream 0 b.nodes) (sym (drop-drop n b.sent b.main))
        ∙ sym (
            drop-append_le n (drop b.sent b.main) (stream 0 b.nodes)
              (omega (arith, length-drop b.sent b.main)))
        ∙ ap (drop n) (sym main_queue);
    kept = refl;
  }

  -- A write that takes the rest of the fixed buffer.
  whole_main-Drains :
      (n : ℕ) → n ≡ length b.main - b.sent → Drains b n (record b { main = []; sent = 0 })
  whole_main-Drains n e = record {
    shape = record {
      usable = v.usable;
      bounded = omega arith;
      counted = v.counted;
      allocated = v.allocated;
      filled = v.filled;
      position = start_position b.nodes v.filled;
    };
    queued =
        queue_lem _
        ∙ sym (drop_exact (drop b.sent b.main) (stream 0 b.nodes))
        ∙ ap (λ k. drop k (drop b.sent b.main ++ stream 0 b.nodes))
            (length-drop b.sent b.main ∙ sym e)
        ∙ ap (drop n) (sym main_queue);
    kept = refl;
  }

consume_buffer-Drains :
    {b : Reply} (v : IsShaped b) (n : ℕ)
    → (let r = consume_buffer n b in Drains b r.1 r.0 × (r.1 ≤ n) × (r.1 < n → r.0.main ≡ []))
unfolding consume_buffer
consume_buffer-Drains {b} v n = elim (Bool-cases (ltb 0 (length b.main))) [
  | inr drained ↦ rw drained (
    record { shape = v; queued = refl; kept = refl },
    omega arith,
    λ _. eq-nil b.main (ground arith),
  )
  | inl stored ↦
      let n' = min n (length b.main - b.sent) in
      elim (Bool-cases (leb (length b.main) (b.sent + n'))) [
        | inl whole ↦
            rw (stored, whole)
              (
                whole_main-Drains v (ground arith) n'
                    (ground (arith, main_position v (ground arith))),
                omega arith,
                λ _. refl,
              )
        | inr part ↦
            rw (stored, part)
              (
                inside_main-Drains v (ground arith) n' (ground arith),
                omega arith,
                λ h. absurd (ground (arith, main_position v (ground arith))),
              )
      ]
]

settled-IsValid :
    {b r : Reply} {n : ℕ}
    → Drains b n r
    → r.pending_bytes ≡ length (queue b) - n
    → IsValid r × (queue r ≡ drop n (queue b))
settled-IsValid {b} {n = n} d e = (
  record { shape = d.shape; pending = e ∙ sym (ap length d.queued ∙ length-drop n (queue b)) },
  d.queued,
)

Drains-trans : {b c d : Reply} {m n : ℕ} → Drains b m c → Drains c n d → Drains b (m + n) d
Drains-trans {b} {m = m} {n = n} p q = record {
  shape = q.shape;
  queued = q.queued ∙ ap (drop n) p.queued ∙ drop-drop n m (queue b);
  kept = q.kept ∙ p.kept;
}

-- On a well-formed buffer, `Consume` of `n` bytes keeps the buffer well formed and takes the first
-- `n` bytes from those that wait to be sent, all of them if there are fewer.
pub consume-queue :
    {b : Reply} (n : ℕ)
    → IsValid b
    → IsValid (consume n b) × (queue (consume n b) ≡ drop n (queue b))
unfolding consume
consume-queue {b} n v =
    let p = b.pending_bytes - min n b.pending_bytes in
    let b' : Reply = record b { pending_bytes = p } in
    let shape : IsShaped b' = record {
      usable = v.shape.usable;
      bounded = v.shape.bounded;
      counted = v.shape.counted;
      allocated = v.shape.allocated;
      filled = v.shape.filled;
      position = v.shape.position;
    } in
    let (d, le, drained) = consume_buffer-Drains shape n in
    let (r, k) = consume_buffer n b' in
    let left : p ≡ length (queue b') - n = omega (arith, v.pending, ap length (same_queue b p)) in
    let renamed = ap (drop n) (same_queue b p) in
    elim (Bool-cases (ltb (consume_buffer n b').1 n)) [
      | inl more ↦
          let e =
            consume_list-Drains r.nodes (n - k)
              (record { shape = d.shape; drained = drained (ground arith); listed = refl }) in
          let both = Drains-trans d e in
          let (valid, queued) =
            settled-IsValid
              (subst (λ m. Drains b' m (consume_list r.nodes (n - k) r)) (ground arith) both)
              (both.kept ∙ left) in
          rw more (valid, queued ∙ renamed)
      | inr done ↦
          let (valid, queued) =
            settled-IsValid (subst (λ m. Drains b' m r) (ground arith) d) (d.kept ∙ left) in
          rw done (valid, queued ∙ renamed)
    ]

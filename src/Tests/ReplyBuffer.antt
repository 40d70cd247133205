-- ===== src/Tests/ReplyBuffer.antt =====
-- memory/reply_buffer.cpp on a state with a part of a node sent.
use redis_simple.Common.{◌≡◌, refl, arith, true, false, [], ◌∷◌, drop}
use redis_simple.ReplyBuffer.{
  Reply, Node, append, append_owned, consume, fill_blocks, fill_nodes, append_to_buffer,
  append_to_list, append_to_tail, append_to_node, consume_buffer, consume_list, delete_head,
}
use redis_simple.ReplyBuffer.Invariant.{IsValid, queue}
use redis_simple.ReplyBuffer.Append.{Appends, append-Appends, append_owned-Appends}
use redis_simple.ReplyBuffer.Consume.{consume-queue}
use mathlib.Core.List.{flatten}

abbrev first : Node
first = record { content = 1 ∷ 2 ∷ 3 ∷ []; capacity = 3; writable = false }

abbrev second : Node
second = record { content = 4 ∷ []; capacity = 1024; writable = true }

abbrev partly_sent : Reply
partly_sent = record {
  main = [];
  usable = 4096;
  nodes = first ∷ second ∷ [];
  node_count = 2;
  reply_bytes = 1027;
  pending_bytes = 3;
  sent = 1;
}

partly_sent-IsValid : IsValid partly_sent
unfolding queue fill_blocks fill_nodes flatten
partly_sent-IsValid = record {
  shape = record {
    usable = refl;
    bounded = omega arith;
    counted = refl;
    allocated = refl;
    filled = omega arith;
    position = omega arith;
  };
  pending = refl;
}

-- The bytes go behind those of the last node, which has room.
append_behind :
    fill_blocks (append (5 ∷ 6 ∷ []) partly_sent).0 ≡ (2 ∷ 3 ∷ []) ∷ (4 ∷ 5 ∷ 6 ∷ []) ∷ []
unfolding append append_to_buffer append_to_list append_to_tail append_to_node fill_blocks
    fill_nodes
append_behind = refl

append-Appends_example : Appends partly_sent (5 ∷ 6 ∷ []) (append (5 ∷ 6 ∷ []) partly_sent)
append-Appends_example = append-Appends partly_sent-IsValid (5 ∷ 6 ∷ [])

append_owned-Appends_example :
    Appends partly_sent (5 ∷ 6 ∷ []) (append_owned (5 ∷ 6 ∷ []) 15 partly_sent)
append_owned-Appends_example =
    append_owned-Appends partly_sent-IsValid (5 ∷ 6 ∷ []) 15 (omega arith)

consume_first : (consume 2 partly_sent).nodes ≡ second ∷ []
unfolding consume consume_buffer consume_list delete_head
consume_first = refl

consume-queue_example :
    IsValid (consume 2 partly_sent) × (queue (consume 2 partly_sent) ≡ drop 2 (queue partly_sent))
consume-queue_example = consume-queue 2 partly_sent-IsValid

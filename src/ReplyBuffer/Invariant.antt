-- ===== src/ReplyBuffer/Invariant.antt =====
-- Well-formedness of the reply buffer of memory/reply_buffer.h, and the bytes that it stands for.
use redis_simple.Common.{ℕ, ◌+◌, ◌≤◌, ◌<◌, ◌≡◌, refl, arith, List, [], ◌∷◌, length, All}
use redis_simple.ReplyBuffer.{Node, Reply, new, fill_blocks, fill_nodes, default_buffer_size}
use mathlib.Core.List.{flatten}

abbrev pub total_capacity : List Node → ℕ
total_capacity [] = 0
total_capacity (node ∷ rest) = node.capacity + total_capacity rest

abbrev pub NodeIsValid : Node → Type 0
NodeIsValid node = (0 < length node.content) × (length node.content ≤ node.capacity)

-- `sent` counts bytes of the fixed buffer, or of the first node once that is empty.
abbrev pub SentIsValid : List ℕ → List Node → ℕ → Type 0
SentIsValid (x ∷ xs) nodes sent = sent < length (x ∷ xs)
SentIsValid [] (node ∷ rest) sent = sent < length node.content
SentIsValid [] [] sent = sent ≡ 0

-- The bytes of all blocks, in the order in which they are sent.
unfoldable pub queue : Reply → List ℕ
queue b = flatten (fill_blocks b)

-- All of the invariant but the count of pending bytes, which the callers keep.
pub record IsShaped (b : Reply) : Type 0 where
  pub usable : b.usable ≡ default_buffer_size
  pub bounded : length b.main ≤ b.usable
  pub counted : b.node_count ≡ length b.nodes
  pub allocated : b.reply_bytes ≡ total_capacity b.nodes
  pub filled : All NodeIsValid b.nodes
  pub position : SentIsValid b.main b.nodes b.sent

pub record IsValid (b : Reply) : Type 0 where
  pub shape : IsShaped b
  pub pending : b.pending_bytes ≡ length (queue b)

pub new-IsValid : IsValid new
unfolding new queue fill_blocks fill_nodes flatten
new-IsValid = record {
  shape = record {
    usable = refl;
    bounded = omega arith;
    counted = refl;
    allocated = refl;
    filled = tt;
    position = refl;
  };
  pending = refl;
}

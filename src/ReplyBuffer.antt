-- ===== src/ReplyBuffer.antt =====
-- memory/reply_buffer.h, memory/reply_buffer.cpp and memory/buf_node.h: the bytes that a connection
-- still has to send, in a fixed buffer and behind it a list of overflow nodes.
-- `main` is the written part of `buf_`, so `size_` is its length; a node's `content` is the part
-- that `used_` counts. `reply_tail_` is the last node of the list. The owner closes a connection
-- before 64 MiB are pending, so the byte counts are numbers that do not wrap.
pub mod Tail
pub mod Invariant
pub mod Parts
pub mod Queue
pub mod Append
pub mod Drain
pub mod Consume
use redis_simple.Common.{
  ℕ, zero, suc, ◌+◌, ◌-◌, min, max, Bool, true, false, ◌&&◌, List, [], ◌∷◌, ◌++◌, ltb, leb, ◌==◌,
  if◌then◌else◌, length, take, drop,
}

-- `writable` is false for a node that owns a string.
pub record Node : Type 0 where
  pub content : List ℕ
  pub capacity : ℕ
  pub writable : Bool

pub record Reply : Type 0 where
  pub main : List ℕ
  pub usable : ℕ
  pub nodes : List Node
  pub node_count : ℕ
  pub reply_bytes : ℕ
  pub pending_bytes : ℕ
  pub sent : ℕ

-- `kDefaultBufferSize` and the least capacity of a node
abbrev pub default_buffer_size : ℕ
default_buffer_size = 4096

abbrev pub least_node_size : ℕ
least_node_size = 1024

unfoldable pub new : Reply
new = record {
  main = [];
  usable = default_buffer_size;
  nodes = [];
  node_count = 0;
  reply_bytes = 0;
  pending_bytes = 0;
  sent = 0;
}

unfoldable pub empty : Reply → Bool
empty b = length b.main == 0 && b.node_count == 0

-- `BufNode::Create(len)`, and `BufNode::Create(data)` for a string whose capacity is `c`
unfoldable pub create : ℕ → Node
create n = record { content = []; capacity = max n least_node_size; writable = true }

unfoldable pub create_owned : List ℕ → ℕ → Node
create_owned s c = record { content = s; capacity = c; writable = false }

unfoldable pub append_to_node : Node → List ℕ → Node × ℕ
append_to_node node s =
    if node.writable
    then (let n = min (length s) (node.capacity - length node.content) in
        (record node { content = node.content ++ take n s }, n))
    else (node, 0)

unfoldable pub new_node : List ℕ → Node
new_node s = (append_to_node (create (length s)) s).0

unfoldable pub push_node : Node → Reply → Reply
push_node node b = record b {
  nodes = b.nodes ++ node ∷ [];
  node_count = b.node_count + 1;
  reply_bytes = b.reply_bytes + node.capacity;
}

-- `AppendToNode(reply_tail_, ...)`, or nothing where there is no node
unfoldable pub append_to_tail : List Node → List ℕ → List Node × ℕ
append_to_tail [] s = ([], 0)
append_to_tail (node ∷ []) s = let (node', n) = append_to_node node s in (node' ∷ [], n)
append_to_tail (node ∷ next ∷ rest) s =
    let (rest', n) = append_to_tail (next ∷ rest) s in (node ∷ rest', n)

unfoldable pub append_to_list : List ℕ → Reply → Reply × ℕ
append_to_list s b =
    let (nodes', n) = append_to_tail b.nodes s in
    let b' = record b { nodes = nodes' } in
    ((if ltb n (length s) then push_node (new_node (drop n s)) b' else b'), length s)

unfoldable pub append_to_buffer : List ℕ → Reply → Reply × ℕ
append_to_buffer s b =
    if b.node_count == 0
    then (let available = b.usable - length b.main in
        let n = if ltb (length s) available then length s else available in
        (record b { main = b.main ++ take n s }, n))
    else (b, 0)

-- `Append(const char*, size_t)`: the bytes `s`, and how many were taken
unfoldable pub append : List ℕ → Reply → Reply × ℕ
append s b =
    if length s == 0
    then (b, 0)
    else (let (b', n) = append_to_buffer s b in
        let (b'', more) = if ltb n (length s) then append_to_list (drop n s) b' else (b', 0) in
        (record b'' { pending_bytes = b''.pending_bytes + (n + more) }, n + more))

-- `Append(std::string&&)`, for a string whose capacity is `c`
unfoldable pub append_owned : List ℕ → ℕ → Reply → Reply × ℕ
append_owned s c b =
    if length s == 0
    then (b, 0)
    else if b.node_count == 0 && leb (length s) (b.usable - length b.main)
    then (let (b', n) = append_to_buffer s b in
        (record b' { pending_bytes = b'.pending_bytes + n }, n))
    else (let b' = push_node (create_owned s c) b in
        (record b' { pending_bytes = b'.pending_bytes + length s }, length s))

unfoldable pub fill_nodes : ℕ → List Node → List (List ℕ)
fill_nodes offset [] = []
fill_nodes offset (node ∷ rest) = drop offset node.content ∷ fill_nodes 0 rest

-- `FillBlocks`: the blocks that a gathering write is given
unfoldable pub fill_blocks : Reply → List (List ℕ)
fill_blocks b =
    if ltb 0 (length b.main)
    then drop b.sent b.main ∷ fill_nodes 0 b.nodes
    else fill_nodes b.sent b.nodes

unfoldable pub consume_buffer : ℕ → Reply → Reply × ℕ
consume_buffer n b =
    if ltb 0 (length b.main)
    then (let n' = min n (length b.main - b.sent) in
        let sent' = b.sent + n' in
        (
          (if leb (length b.main) sent'
              then record b { main = []; sent = 0 }
              else record b { sent = sent' }),
          n',
        ))
    else (b, 0)

-- `DeleteNode(reply_head_, nullptr)` where `rest` follows the head
unfoldable pub delete_head : Node → List Node → Reply → Reply
delete_head node rest b = record b {
  nodes = rest;
  node_count = b.node_count - 1;
  reply_bytes = b.reply_bytes - node.capacity;
}

-- `ConsumeList`: the first argument is the list that the loop walks, that of `b`.
unfoldable pub consume_list : List Node → ℕ → Reply → Reply
consume_list [] n b = b
consume_list (node ∷ rest) n b =
    let remaining = length node.content - b.sent in
    let next = consume_list rest (n - remaining) (delete_head node rest (record b { sent = 0 })) in
    if n == 0 then b else if ltb n remaining then record b { sent = b.sent + n } else next

unfoldable pub consume : ℕ → Reply → Reply
consume n b =
    let b' = record b { pending_bytes = b.pending_bytes - min n b.pending_bytes } in
    let (b'', processed) = consume_buffer n b' in
    if ltb processed n then consume_list b''.nodes (n - processed) b'' else b''

-- ===== src/Tests/DynamicBuffer.antt =====
-- memory/dynamic_buffer.cpp on a small buffer, with one byte read and `\r\n` in the unread ones.
use redis_simple.Common.{
  ◌≡◌, ◌↔◌, refl, arith, [], ◌∷◌, ◌++◌, some, none, drop, inl, sub64, add64, write_at,
}
use redis_simple.DynamicBuffer.{
  Buffer, ok, thrown, null_buffer, view, append, consume, compact, read_line_view, make_room, store,
}
use redis_simple.DynamicBuffer.Invariant.{IsValid}
use redis_simple.DynamicBuffer.Queue.{view-append, view-consume, view-compact}
use redis_simple.DynamicBuffer.Lines.{NoNewline, read_line_view-line, read_line_view-none}

abbrev small : Buffer
small = record {
  bytes = b'x' ∷ b'h' ∷ b'i' ∷ b'\r' ∷ b'\n' ∷ b'y' ∷ 0 ∷ 0 ∷ [];
  capacity = 8;
  size = 6;
  processed = 1;
}

small-IsValid : IsValid small
small-IsValid = record {
  allocated = refl;
  within = omega arith;
  ordered = omega arith;
  fits = omega arith;
}

-- Three bytes do not fit behind the stored ones: the read byte gives way.
append_compacts :
    append (some (1 ∷ 2 ∷ 3 ∷ [])) 3 small
    ≡ ok (record {
      bytes = b'h' ∷ b'i' ∷ b'\r' ∷ b'\n' ∷ b'y' ∷ 1 ∷ 2 ∷ 3 ∷ [];
      capacity = 8;
      size = 8;
      processed = 0;
    })
unfolding append make_room store compact view sub64 add64 write_at
append_compacts = refl

append_null : append none 3 small ≡ thrown null_buffer
unfolding append
append_null = refl

view-append_example :
    (b' : Buffer) × (append (some (1 ∷ 2 ∷ 3 ∷ [])) 3 small ≡ ok b')
    × IsValid b'
    × (view b' ≡ view small ++ 1 ∷ 2 ∷ 3 ∷ [])
view-append_example = view-append small-IsValid (1 ∷ 2 ∷ 3 ∷ []) (unfold view sub64 in omega arith)

view-consume_example : view (consume 9 small) ≡ drop 9 (view small)
view-consume_example = view-consume small-IsValid 9

view-compact_example : view (compact small) ≡ view small
view-compact_example = view-compact small-IsValid

read_line_view-line_example :
    (b' : Buffer) × (read_line_view small ≡ (some (b'h' ∷ b'i' ∷ []), b'))
    × IsValid b'
    × (view b' ≡ b'y' ∷ [])
read_line_view-line_example =
    read_line_view-line small-IsValid (b'h' ∷ b'i' ∷ []) (b'\r' ∷ b'\n' ∷ []) (b'y' ∷ [])
      (unfold view sub64 in refl) (omega arith) (inl refl)

read_line_view-none_example : (read_line_view small ≡ (none, small)) ↔ NoNewline (view small)
read_line_view-none_example = read_line_view-none small

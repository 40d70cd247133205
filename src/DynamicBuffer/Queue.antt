-- ===== src/DynamicBuffer/Queue.antt =====
-- memory/dynamic_buffer.cpp as a queue of bytes: what each operation does to the unread bytes.
use redis_simple.Common.{
  ℕ, ◌+◌, ◌≤◌, ◌<◌, ◌≡◌, refl, min, sym, ap, ◌∙◌, arith, Bool-cases, inl, inr, List, ◌++◌, some,
  append-nil, eq-nil, ◌⊎◌, ◌&&◌, add64, sub64, drop-min, length, take, drop, replicate, write_at,
  length-take, length-write_at, length-replicate, drop-drop, drop-append_le, take-write_at,
  take-write_front, size_max, sub64_fits, add64_fits, ltb, ◌==◌,
}
use redis_simple.DynamicBuffer.{
  Buffer, ok, thrown, length_error, unread_size, view, consume, compact, grown_capacity, resize,
  make_room, store, append,
}
use redis_simple.DynamicBuffer.Invariant.{
  IsValid, unread_size_lem, view_lem, length-view, consume-IsValid, compact-IsValid,
  grown_capacity_bounds,
}

module _ {b : Buffer} (v : IsValid b) where
  -- `Consume` drops bytes from the front, all of them if it is asked for more.
  pub view-consume : (n : ℕ) → view (consume n b) ≡ drop n (view b)
  unfolding consume
  view-consume n =
      let u : unread_size b ≡ length (view b) = unread_size_lem v ∙ sym (length-view v) in
      let e : add64 b.processed (min n (unread_size b)) ≡ b.processed + min n (length (view b)) =
        add64_fits b.processed (min n (unread_size b))
          (omega (arith, unread_size_lem v, v.ordered, v.within, v.fits))
        ∙ ap (λ t. b.processed + min n t) u in
      view_lem (consume-IsValid v n)
      ∙ ap (λ t. drop t (take b.size b.bytes)) e
      ∙ sym (drop-drop (min n (length (view b))) b.processed (take b.size b.bytes))
      ∙ ap (drop (min n (length (view b)))) (sym (view_lem v))
      ∙ drop-min n (view b)

  -- `Compact` moves the unread bytes to the front and keeps them.
  pub view-compact : view (compact b) ≡ view b
  view-compact = view_lem (compact-IsValid v) ∙ moved
    where
      moved : drop (compact b).processed (take (compact b).size (compact b).bytes) ≡ view b
      moved = elim (Bool-cases (b.processed == 0)) [
        | inl still ↦ unfold compact in rw still (sym (view_lem v))
        | inr moves ↦
            unfold compact in
            rw moves (
              take-write_front (unread_size b) (view b) b.bytes
                (length-view v ∙ sym (unread_size_lem v)))
      ]

  length_below : length (take b.size b.bytes) ≡ b.size
  length_below = omega (arith, length-take b.size b.bytes, v.allocated, v.within)

  -- `Resize` to at least `n` bytes keeps what was stored.
  pub resize_lem :
      (n : ℕ)
      → b.size ≤ n
      → n ≤ size_max
      → IsValid (resize n b)
        × (view (resize n b) ≡ view b)
        × (n ≤ (resize n b).capacity)
        × ((resize n b).size ≡ b.size)
  unfolding resize
  resize_lem n lo hi =
      let (big, small) = grown_capacity_bounds b.capacity n hi v.fits in
      let c = grown_capacity b.capacity n in
      let room : length (replicate {A = ℕ} c 0) ≡ c = length-replicate c 0 in
      let valid : IsValid (resize n b) = record {
        allocated =
            length-write_at 0 (take b.size b.bytes) (replicate c 0) (omega (arith, length_below))
            ∙ room;
        within = omega arith;
        ordered = v.ordered;
        fits = small;
      } in
      (
        valid,
        view_lem valid
            ∙ ap (drop b.processed)
                (take-write_front b.size (take b.size b.bytes) (replicate c 0) length_below)
            ∙ sym (view_lem v),
        big,
        refl,
      )

  make_room_lem :
      (n : ℕ)
      → IsValid (make_room n b)
        × (view (make_room n b) ≡ view b)
        × (((make_room n b).size ≡ length (view b)) ⊎ ((make_room n b).size + n ≤ b.capacity))
        × ((make_room n b).capacity ≡ b.capacity)
        × (length (view b) ≤ (make_room n b).size)
  unfolding make_room
  make_room_lem n =
      let s = sub64_fits b.capacity b.size v.within v.fits in
      elim (Bool-cases (ltb (sub64 b.capacity b.size) n && ltb 0 b.processed)) [
        | inl tight ↦ rw tight (
          compact-IsValid v,
          view-compact,
          inl (unfold compact in ground (arith, length-view v, unread_size_lem v)),
          unfold compact in ground arith,
          unfold compact in ground (arith, length-view v, unread_size_lem v),
        )
        | inr fits ↦ rw fits (
          v,
          refl,
          ground (arith, s, length-view v, v.within, v.ordered),
          refl,
          omega (arith, length-view v),
        )
      ]

-- A copy behind the stored bytes, where there is room for it.
place_lem :
    {b : Buffer} (v : IsValid b) (src : List ℕ)
    → b.size + length src ≤ b.capacity
    → (let b' = record b { bytes = write_at b.size src b.bytes; size = b.size + length src } in
        IsValid b' × (view b' ≡ view b ++ src))
place_lem {b} v src room =
    let b' : Buffer = record b {
      bytes = write_at b.size src b.bytes;
      size = b.size + length src;
    } in
    let valid : IsValid b' = record {
      allocated = length-write_at b.size src b.bytes (omega (arith, v.allocated)) ∙ v.allocated;
      within = room;
      ordered = omega (arith, v.ordered);
      fits = v.fits;
    } in
    (
      valid,
      view_lem valid
          ∙ ap (drop b.processed) (take-write_at b.size src b.bytes (omega (arith, v.allocated)))
          ∙ drop-append_le b.processed (take b.size b.bytes) src
              (omega (arith, length_below v, v.ordered))
          ∙ ap (λ t. t ++ src) (sym (view_lem v)),
    )

store_lem :
    {b : Buffer} (v : IsValid b) (src : List ℕ)
    → b.size + length src ≤ size_max
    → IsValid (store src b) × (view (store src b) ≡ view b ++ src)
unfolding store
store_lem {b} v src fits =
    let n = length src in
    let e = sub64_fits b.capacity b.size v.within v.fits in
    let grown = add64_fits b.size n fits in
    elim (Bool-cases (ltb (sub64 b.capacity b.size) n)) [
      | inl full ↦
          let (w, same, room, keeps) = resize_lem v (b.size + n) (omega arith) fits in
          let (valid, seen) = place_lem w src (omega arith) in
          rw (full, grown, keeps, grown)
            (rw keeps at valid, rw keeps at (seen ∙ ap (λ t. t ++ src) same))
      | inr roomy ↦ rw (roomy, grown) (place_lem v src (ground arith))
    ]

empty_append : (xs ys : List ℕ) → length ys ≡ 0 → xs ≡ xs ++ ys
empty_append xs ys e = sym (ap (λ t. xs ++ t) (eq-nil ys e) ∙ append-nil xs)

module _ {b : Buffer} (v : IsValid b) (src : List ℕ) where
  -- On a well-formed buffer whose unread bytes and the new ones fit in a `size_t`, `Append` throws
  -- nothing, keeps the buffer well formed, and puts the new bytes behind the unread ones.
  pub view-append :
      length (view b) + length src ≤ size_max
      → (b' : Buffer) × (append (some src) (length src) b ≡ ok b')
        × IsValid b'
        × (view b' ≡ view b ++ src)
  unfolding append
  view-append fits =
      let n = length src in
      let (w, same, size, capacity, larger) = make_room_lem v n in
      let below : (make_room n b).size + n ≤ size_max = omega (arith, v.fits) in
      let (valid, seen) = store_lem w src below in
      elim (Bool-cases (length src == 0)) [
        | inl none_new ↦ (b, rw none_new, v, empty_append (view b) src (ground arith))
        | inr some_new ↦ (
          store src (make_room n b),
          rw some_new (ground arith),
          valid,
          seen ∙ ap (λ t. t ++ src) same,
        )
      ]

  -- On a well-formed buffer whose unread bytes and the new ones do not fit in a `size_t`, `Append`
  -- throws the length error.
  pub append_overflow :
      size_max < length (view b) + length src
      → append (some src) (length src) b ≡ thrown length_error
  unfolding append
  append_overflow over =
      let (w, same, size, capacity, larger) = make_room_lem v (length src) in
      ground (arith, length-view v, v.within, v.fits)

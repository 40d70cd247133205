-- ===== src/DynamicBuffer/Invariant.antt =====
-- The well-formedness of the buffer of memory/dynamic_buffer.h, and that `Compact`, `Resize`,
-- `Consume` and `Clear` preserve it.
use redis_simple.Common.{
  ℕ, ◌-◌, ◌≤◌, ◌≡◌, refl, min, arith, length, take, drop, length-take, length-drop, length-write_at,
  drop-take, size_max, sub64_fits, add64_fits,
}
use redis_simple.DynamicBuffer.{
  Buffer, new, unread_size, view, consume, clear, compact, grown_capacity,
}

pub record IsValid (b : Buffer) : Type 0 where
  pub allocated : length b.bytes ≡ b.capacity
  pub within : b.size ≤ b.capacity
  pub ordered : b.processed ≤ b.size
  pub fits : b.capacity ≤ size_max

pub new-IsValid : IsValid new
unfolding new
new-IsValid = record {
  allocated = refl;
  within = omega arith;
  ordered = omega arith;
  fits = omega arith;
}

pub grown_capacity_bounds :
    (c n : ℕ)
    → n ≤ size_max
    → c ≤ size_max
    → (n ≤ grown_capacity c n) × (grown_capacity c n ≤ size_max)
unfolding grown_capacity
grown_capacity_bounds c n h k = ground arith

module _ {b : Buffer} (v : IsValid b) where
  pub unread_size_lem : unread_size b ≡ b.size - b.processed
  unfolding unread_size
  unread_size_lem = sub64_fits b.size b.processed v.ordered (omega (arith, v.within, v.fits))

  -- The bytes that are not read yet are those below `size` from `processed` on.
  pub view_lem : view b ≡ drop b.processed (take b.size b.bytes)
  unfolding view
  view_lem = rw (unread_size_lem, drop-take b.processed b.size b.bytes)

  pub length-view : length (view b) ≡ b.size - b.processed
  length-view = rw view_lem (
      omega (
        arith,
        length-drop b.processed (take b.size b.bytes),
        length-take b.size b.bytes,
        v.within,
        v.allocated,
      ))

  pub consume-IsValid : (n : ℕ) → IsValid (consume n b)
  unfolding consume
  consume-IsValid n =
      let e =
        add64_fits b.processed (min n (unread_size b))
          (omega (arith, unread_size_lem, v.ordered, v.within, v.fits)) in
      record {
        allocated = v.allocated;
        within = v.within;
        ordered = omega (arith, e, unread_size_lem, v.ordered);
        fits = v.fits;
      }

  pub clear-IsValid : IsValid (clear b)
  unfolding clear
  clear-IsValid = record {
    allocated = v.allocated;
    within = omega arith;
    ordered = omega arith;
    fits = v.fits;
  }

  -- The copy of `Compact` stays inside the array.
  pub compact-IsValid : IsValid (compact b)
  unfolding compact
  compact-IsValid = ground (
    arith,
    v.allocated,
    v.within,
    v.ordered,
    v.fits,
    unread_size_lem,
    length-view,
    length-write_at 0 (view b) b.bytes,
  )

-- ===== src/IntSet/Encoding.antt =====
-- memory/intset.cpp: the widths of a cell, and which integers fit in each.
use redis_simple.Common.{ℕ, ◌^◌, ◌≤◌, ◌<◌, ◌≡◌, arith, true, false}
use redis_simple.Common.Int.{ℤ, pos, negsuc, ◌<ℤ◌, ltb_ℤ, InRange}
use redis_simple.IntSet.{
  Width, int16, int32, int64, bytes_of, magnitude, to_cell, of_cell, slot, value_encoding,
}

-- The offsets of the first 2 ^ 29 cells do not wrap, whatever the width.
pub slot-below : (w : Width) (i : ℕ) → i < 2 ^ 29 → slot w i ≡ i
unfolding slot bytes_of
slot-below int16 i h = omega arith
slot-below int32 i h = omega arith
slot-below int64 i h = omega arith

-- What is written to a cell is read back, where it fits.
pub of_cell-to_cell :
    (e : Width) (v : ℤ)
    → InRange (magnitude e) v
    → of_cell (magnitude e) (to_cell (magnitude e) v) ≡ v
unfolding of_cell to_cell
of_cell-to_cell int16 (pos n) h = ground arith
of_cell-to_cell int16 (negsuc n) h = ground arith
of_cell-to_cell int32 (pos n) h = ground arith
of_cell-to_cell int32 (negsuc n) h = ground arith
of_cell-to_cell int64 (pos n) h = ground arith
of_cell-to_cell int64 (negsuc n) h = ground arith

pub of_cell-InRange : (e : Width) (c : ℕ) → InRange (magnitude e) (of_cell (magnitude e) c)
unfolding of_cell
of_cell-InRange int16 c = ground arith
of_cell-InRange int32 c = ground arith
of_cell-InRange int64 c = ground arith

pub value_encoding-InRange :
    (e : Width) (v : ℤ)
    → InRange 63 v
    → bytes_of (value_encoding v) ≤ bytes_of e
    → InRange (magnitude e) v
unfolding value_encoding bytes_of
value_encoding-InRange int16 v h k = ground arith
value_encoding-InRange int32 v h k = ground arith
value_encoding-InRange int64 v h k = h

-- A value that needs wider cells lies on one side of all that fit in the narrow ones.
pub value_encoding_below :
    (e : Width) (v x : ℤ)
    → bytes_of e < bytes_of (value_encoding v)
    → InRange (magnitude e) x
    → ltb_ℤ v (pos 0) ≡ true
    → v <ℤ x
unfolding value_encoding bytes_of
value_encoding_below int16 v x h r s = ground arith
value_encoding_below int32 v x h r s = ground arith
value_encoding_below int64 v x h r s = ground arith

pub value_encoding_above :
    (e : Width) (v x : ℤ)
    → bytes_of e < bytes_of (value_encoding v)
    → InRange (magnitude e) x
    → ltb_ℤ v (pos 0) ≡ false
    → x <ℤ v
unfolding value_encoding bytes_of
value_encoding_above int16 v x h r s = ground arith
value_encoding_above int32 v x h r s = ground arith
value_encoding_above int64 v x h r s = ground arith

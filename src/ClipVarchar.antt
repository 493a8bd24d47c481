-- ===== src/ClipVarchar.antt =====
-- codec/clip_varchar.c: the columns of a row are copied out of its bytes. A `short` is two bytes and an `int`
-- four, the lowest first. The reader is the bytes that it has left.
pub mod Columns
mod Tests
use c_playground.Common.{
  ℕ, zero, suc, ◌+◌, ◌-◌, ◌*◌, ◌/◌, ◌^◌, List, [], ◌∷◌, ◌++◌, Option, none, some, Bool, true, false,
  length, take, drop, ltb, leb, ◌==◌, if◌then◌else◌,
}
use c_playground.Common.Int.{ℤ, pos, negsuc, ◌+ℤ◌}
use c_playground.Common.Words.{le_value, word_int}

-- What `read` does: it copies bytes and moves on, it returns -1, or its count is below zero, which passes
-- the test against the end.
pub data Reading : Type 0 where
  copied : List ℕ → List ℕ → Reading
  refused : Reading
  undefined : Reading

-- `byte_reader_peak` and `byte_reader_read` of `n` bytes.
unfoldable pub byte_reader_peak : ℕ → List ℕ → Option (List ℕ)
byte_reader_peak n r = if ltb (length r) n then none else some (take n r)

unfoldable pub read_peaked : ℕ → List ℕ → Option (List ℕ) → Reading
read_peaked n r none = refused
read_peaked n r (some bytes) = copied bytes (drop n r)

unfoldable pub byte_reader_read : ℤ → List ℕ → Reading
unfolding byte_reader_peak read_peaked
byte_reader_read (pos n) r = read_peaked n r (byte_reader_peak n r)
byte_reader_read (negsuc n) r = undefined

-- A `short` and an `int` that are peaked into a variable of 0.
unfoldable pub word_short : ℕ → ℤ
word_short w = if ltb w (2 ^ 15) then pos w else negsuc (2 ^ 16 - 1 - w)

unfoldable pub peaked_short : Option (List ℕ) → ℤ
unfolding word_short le_value
peaked_short none = pos 0
peaked_short (some bytes) = word_short (le_value bytes)

unfoldable pub peaked_int : Option (List ℕ) → ℤ
unfolding word_int le_value
peaked_int none = pos 0
peaked_int (some bytes) = word_int (le_value bytes)

-- The reader, and what was copied to `desc->data` and `desc->null`.
pub record Column : Type 0 where
  pub reader : List ℕ
  pub value : List ℕ
  pub null : List ℕ

-- A `read` to `desc->data` and to `desc->null`; `none` when it is undefined.
unfoldable pub put_value : Reading → Column → Option Column
put_value (copied bytes rest) c = some (record c { reader = rest; value = bytes })
put_value refused c = some c
put_value undefined c = none

unfoldable pub put_null : Reading → Column → Option Column
put_null (copied bytes rest) c = some (record c { reader = rest; null = bytes })
put_null refused c = some c
put_null undefined c = none

-- `copy_column_varchar_notnull` for a declared length `len`.
unfoldable pub copy_column_varchar_notnull : ℕ → Column → Option Column
unfolding put_value byte_reader_read byte_reader_peak peaked_short peaked_int ◌+ℤ◌
copy_column_varchar_notnull len c =
    if ltb 0x7fff len
    then put_value (byte_reader_read (peaked_int (byte_reader_peak 4 c.reader) +ℤ pos 2) c.reader) c
    else put_value (byte_reader_read (peaked_short (byte_reader_peak 2 c.reader) +ℤ pos 2) c.reader)
        c

-- After the null info of `copy_column_varchar_nullable` was read.
unfoldable pub unless_null : ℤ → ℕ → Option Column → Option Column
unfolding copy_column_varchar_notnull
unless_null null len none = none
unless_null (negsuc zero) len (some c) = some c
unless_null (negsuc (suc n)) len (some c) = copy_column_varchar_notnull len c
unless_null (pos n) len (some c) = copy_column_varchar_notnull len c

unfoldable pub copy_column_varchar_nullable : ℕ → Column → Option Column
unfolding unless_null put_null byte_reader_read byte_reader_peak peaked_short
copy_column_varchar_nullable len c =
    unless_null (peaked_short (byte_reader_peak 2 c.reader)) len
      (put_null (byte_reader_read (pos 2) c.reader) c)

-- The bytes that `copy_column_varchar_general` reads for a declared length.
unfoldable pub stored_length : Bool → ℕ → ℕ
stored_length false len = len
stored_length true len = if ltb 0x7fff len then (len + 3) / 4 * 4 + 4 else (len + 1) / 2 * 2 + 2

unfoldable pub read_value : ℕ → Option Column → Option Column
unfolding put_value byte_reader_read
read_value n none = none
read_value n (some c) = put_value (byte_reader_read (pos n) c.reader) c

-- `copy_column_varchar_general`: `has_null` tells of `desc->null`, `is_varchar` of the type.
unfoldable pub copy_column_varchar_general : Bool → Bool → ℕ → Column → Option Column
unfolding read_value stored_length put_null byte_reader_read
copy_column_varchar_general has_null is_varchar len c =
    read_value (stored_length is_varchar len)
      (if has_null then put_null (byte_reader_read (pos 2) c.reader) c else some c)

-- ===== src/ClipVarchar/Tests.antt =====
-- Runs of the copies, and the claims on them at concrete inputs.
use c_playground.Common.{true, ◌≡◌, refl, [], ◌∷◌, some}
use c_playground.ClipVarchar.{
  byte_reader_peak, read_peaked, byte_reader_read, put_value, put_null, read_value, stored_length,
  copy_column_varchar_general,
}
use c_playground.ClipVarchar.Columns.{column}

-- A declared length of 3 takes 6 bytes behind the null info.
general_three :
    copy_column_varchar_general true true 3
      (column (0 ∷ 0 ∷ 2 ∷ 0 ∷ 97 ∷ 98 ∷ 0 ∷ 0 ∷ 5 ∷ []) [] [])
    ≡ some (column (5 ∷ []) (2 ∷ 0 ∷ 97 ∷ 98 ∷ 0 ∷ 0 ∷ []) (0 ∷ 0 ∷ []))
unfolding copy_column_varchar_general read_value stored_length put_null put_value byte_reader_read
    byte_reader_peak read_peaked
general_three = refl

-- ===== src/IdDecoder.antt =====
-- string/id_decoder.c: the reverse table of a base-32 alphabet, the check of a name, and the decoder.
pub mod Table
pub mod Value
pub mod Names
mod Tests
use c_playground.Common.{
  ℕ, zero, suc, ◌+◌, ◌*◌, List, [], ◌∷◌, Option, none, some, get_or, length, drop,
}
use c_playground.Common.{◌==◌, if◌then◌else◌}
use c_playground.Common.Int.{ℤ, pos, negsuc, ◌+ℤ◌}
use c_playground.IdDecoder.Table.{cell}

-- `z * TABLESIZE`
unfoldable pub times_32 : ℤ → ℤ
times_32 (pos n) = pos (n * 32)
times_32 (negsuc n) = negsuc (n * 32 + 31)

-- `id_decode(p, l)`, for `l > 0`; `none` is a read outside of the array `a`. (Six digits fit an `int`.)
unfoldable pub id_decode : List ℕ → ℕ → Option ℤ
unfolding times_32
id_decode p zero = none
id_decode p (suc zero) = cell (get_or p 0 0)
id_decode p (suc (suc l)) = elim (id_decode p (suc l)) [
  | none ↦ none
  | some v ↦ elim (cell (get_or p (suc l) 0)) [ none ↦ none | some d ↦ some (times_32 v +ℤ d) ]
]

-- What `check` finds: the name with its `$`, an error, or a read outside of `a`.
pub data Verdict : Type 0 where
  valid : List ℕ → Verdict
  invalid : Verdict
  outside : Verdict

-- The loop over the characters behind the prefix; `name` is the whole name.
unfoldable pub check_chars : List ℕ → List ℕ → Verdict
check_chars name [] = valid name
check_chars name (c ∷ cs) = elim (cell c) [
  | none ↦ outside
  | some (negsuc zero) ↦ invalid
  | some z ↦ check_chars name cs
]

-- From the test of `p[1]` on.
unfoldable pub check_name : List ℕ → Verdict
unfolding check_chars
check_name p = if get_or p 1 0 == b'Z' then check_chars p (drop 2 p) else invalid

-- `check(&p)` on a C string; a name without `$` is copied behind the `$` of `buf`.
unfoldable pub check : List ℕ → Verdict
unfolding check_name
check p =
    if get_or p 0 0 == b'$'
    then (if length p == 12 then check_name p else invalid)
    else (if length p + 1 == 12 then check_name (b'$' ∷ p) else invalid)

-- How `main` ends: no argument, an invalid name, or the two ids.
pub data Outcome : Type 0 where
  missing : Outcome
  invalid_name : Outcome
  ids : ℤ → ℤ → Outcome
  undefined : Outcome

unfoldable pub log_ids : Option ℤ → Option ℤ → Outcome
log_ids (some nid) (some pid) = ids nid pid
log_ids (some nid) none = undefined
log_ids none pid = undefined

unfoldable pub report : Verdict → Outcome
unfolding log_ids
report (valid p) = log_ids (id_decode (drop 2 p) 4) (id_decode (drop 6 p) 6)
report invalid = invalid_name
report outside = undefined

unfoldable pub main : Option (List ℕ) → Outcome
main none = missing
main (some p) = report (check p)

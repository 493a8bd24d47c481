-- ===== src/NameCodec/Search.antt =====
-- trivial/name_codec.c: `pair_cmp`, and the C library's `bsearch` over the array `pairs`.
pub mod Lookup
use c_playground.Common.{ℕ, zero, suc, ◌+◌, ◌-◌, ◌/◌, ◌%◌, ◌^◌, ◌<◌, List, [], ◌∷◌}
use c_playground.Common.{Option, none, some, Bool, true, false, get_elem?, length}
use c_playground.Common.{ltb, ◌==◌, if◌then◌else◌}
use c_playground.Common.Int.{ℤ, pos, negsuc}
use c_playground.NameCodec.Tables.{Pair, pairs}

-- The `int` of a 32-bit pattern.
abbrev pub to_int : ℕ → ℤ
to_int w = if ltb w (2 ^ 31) then pos w else negsuc (2 ^ 32 - w - 1)

-- `*(int *) a - *(int *) b`, as a two's complement difference.
unfoldable pub pair_cmp : Pair → Pair → ℤ
pair_cmp a b = to_int ((a.x + 2 ^ 32 - b.x) % 2 ^ 32)

-- Binary search on the indices from `lo` up to `hi`, as the C library does it; the fuel is the
-- number of elements. A missing element ends the search.
unfoldable pub bsearch : (Pair → Pair → ℤ) → Pair → List Pair → ℕ → ℕ → ℕ → Option Pair
bsearch cmp key ps zero lo hi = none
bsearch cmp key ps (suc fuel) lo hi =
    let mid : ℕ = (lo + hi) / 2 in
    let left = bsearch cmp key ps fuel lo mid in
    let right = bsearch cmp key ps fuel (mid + 1) hi in
    if ltb lo hi
    then elim (get_elem? ps mid) [
      | none ↦ none
      | some p ↦ elim (cmp key p) [ negsuc _ ↦ left | pos n ↦ if n == 0 then some p else right ]
    ]
    else none

-- The call in `main`, with the key `y.x = t`.
unfoldable pub find_pair : ℕ → Option Pair
unfolding bsearch pair_cmp pairs
find_pair t = bsearch pair_cmp (record { x = t; c = 0 }) pairs (length pairs) 0 (length pairs)

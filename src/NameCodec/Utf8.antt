-- ===== src/NameCodec/Utf8.antt =====
-- trivial/name_codec.c: `utf8_encode`, `utf8_decode` and the stream over a byte range.
-- A pointer `p` with its end `e` is the list of the bytes from `p` up to `e`.
pub mod BitLength
pub mod Encode
pub mod Decode
pub mod RoundTrip
use c_playground.Common.{ℕ, zero, suc, ◌+◌, ◌-◌, ◌*◌, ◌/◌, ◌%◌, ◌^◌, ◌<◌, bit_and, bit_or}
use c_playground.Common.{List, [], ◌∷◌, ◌++◌, Option, none, some, length, drop}
use c_playground.Common.{ltb, leb, ◌==◌, if◌then◌else◌}

-- `32 - __builtin_clz(x)`: the number of binary digits of a 32-bit `x`. (C leaves `clz` undefined
-- at 0; here the digits of 0 are none, and the theorems about `utf8_encode` leave 0 out.)
digits_up_to : ℕ → ℕ → ℕ
digits_up_to zero x = 0
digits_up_to (suc fuel) x = let rest = suc (digits_up_to fuel (x / 2)) in if x == 0 then 0 else rest

unfoldable pub bit_length : ℕ → ℕ
unfolding digits_up_to
bit_length x = digits_up_to 32 x

-- The loop `for (i = c - 1; i >= 0; i--)`: the continuation bytes of `x`.
unfoldable pub suffix : ℕ → ℕ → List ℕ
suffix zero x = []
suffix (suc i) x = bit_or (bit_and (x / 2 ^ (i * 6)) 0x3f) 0x80 ∷ suffix i x

-- The chain on `n`: how many bytes follow, and what `*p = ...` stores (nothing past 21 digits).
unfoldable pub lead : ℕ → ℕ → ℕ × List ℕ
lead n x =
    if ltb n 8
    then (0, bit_and x 0xff ∷ [])
    else if ltb n 12
    then (1, bit_or (bit_and (x / 2 ^ 6) 0xff) 0xc0 ∷ [])
    else if ltb n 17
    then (2, bit_or (bit_and (x / 2 ^ 12) 0xff) 0xe0 ∷ [])
    else if ltb n 22
    then (3, bit_or (bit_and (x / 2 ^ 18) 0xff) 0xf0 ∷ [])
    else (0, [])

-- `utf8_encode(p, e, x)` with `room = e - p`: the value returned, and the bytes stored from `p` on.
unfoldable pub utf8_encode : ℕ → ℕ → ℕ × List ℕ
unfolding lead bit_length suffix
utf8_encode room x =
    let (c, first) = lead (bit_length x) x in
    if leb room c then (0, first) else (c + 1, first ++ suffix c x)

-- The loop over the `c` bytes that follow. (No byte is missing, since `utf8_decode` has tested.)
unfoldable pub decode_suffix : ℕ → ℕ → List ℕ → Option ℕ
decode_suffix zero u rest = some u
decode_suffix (suc c) u [] = none
decode_suffix (suc c) u (b ∷ rest) =
    let u' = bit_or (u * 2 ^ 6 % 2 ^ 32) (bit_and b 0x3f) in
    let more = decode_suffix c u' rest in if b / 2 ^ 6 == 0x2 then more else none

-- The prefix tests on the first byte: how many bytes follow, and the bits of the first.
unfoldable pub decode_lead : ℕ → Option (ℕ × ℕ)
decode_lead b =
    if b / 2 ^ 7 == 0
    then some (0, b)
    else if b / 2 ^ 5 == 0x6
    then some (1, bit_and b 0x1f)
    else if b / 2 ^ 4 == 0xe
    then some (2, bit_and b 0xf)
    else if b / 2 ^ 3 == 0x1e
    then some (3, bit_and b 0x7)
    else none

-- What follows the prefix tests: the check `p + c >= e`, then the loop.
unfoldable pub decode_rest : List ℕ → Option (ℕ × ℕ) → Option (ℕ × ℕ)
unfolding decode_suffix
decode_rest s none = none
decode_rest s (some (c, u)) =
    if leb (length s) c
    then none
    else elim (decode_suffix c u (drop 1 s)) [ none ↦ none | some x ↦ some (c + 1, x) ]

-- `utf8_decode(p, e, &x)`: the size and the code point, or `none` where it returns 0. Its caller
-- has tested `p < e`.
unfoldable pub utf8_decode : List ℕ → Option (ℕ × ℕ)
unfolding decode_lead decode_rest
utf8_decode [] = none
utf8_decode (b ∷ rest) = decode_rest (b ∷ rest) (decode_lead b)

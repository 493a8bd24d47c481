-- ===== src/Base64.antt =====
-- codec/base64.c: the tables, the groups of three bytes, `base64_encode` and `base64_decode`.
-- A C string is the list of its bytes before the terminating NUL.
pub mod Tables
pub mod Groups
pub mod Shape
pub mod RoundTrip
mod Tests
use c_playground.Common.{ℕ, zero, suc, ◌+◌, ◌*◌, ◌/◌, ◌%◌, ◌^◌, List, [], ◌∷◌, ◌++◌, length, get_or}
use c_playground.Common.{
  bit_and, bit_or, Option, none, some, Bool, true, false, ltb, ◌==◌, if◌then◌else◌,
}
use c_playground.Base64.Tables.{encode_char, decode_char}

-- `union base64_group_u`: the three bytes of it that are used.
pub record Group : Type 0 where
  pub b0 : ℕ
  pub b1 : ℕ
  pub b2 : ℕ

-- `base64_group_b0` to `base64_group_b3`
unfoldable pub group_b0 : Group → ℕ
group_b0 g = g.b0 / 2 ^ 2 % 2 ^ 8

unfoldable pub group_b1 : Group → ℕ
group_b1 g = (bit_and g.b0 0x3 * 2 ^ 4 + g.b1 / 2 ^ 4) % 2 ^ 8

unfoldable pub group_b2 : Group → ℕ
group_b2 g = (bit_and g.b1 0xf * 2 ^ 2 + g.b2 / 2 ^ 6) % 2 ^ 8

unfoldable pub group_b3 : Group → ℕ
group_b3 g = bit_and g.b2 0x3f % 2 ^ 8

-- What one round with `n > 0` bytes read stores.
unfoldable pub emit : ℕ → Group → List ℕ
unfolding group_b0 group_b1 group_b2 group_b3
emit n g =
    encode_char (group_b0 g)
    ∷ encode_char (group_b1 g)
    ∷ (if ltb n 2 then b'=' else encode_char (group_b2 g))
    ∷ (if ltb n 3 then b'=' else encode_char (group_b3 g))
    ∷ []

-- `while (!done)`: each round reads up to three bytes into a zeroed group; a round that meets the
-- NUL is the last, and stores nothing if it has read no byte.
unfoldable pub encode_loop : List ℕ → List ℕ
unfolding emit
encode_loop [] = []
encode_loop (x ∷ []) = emit 1 (record { b0 = x; b1 = 0; b2 = 0 })
encode_loop (x ∷ y ∷ []) = emit 2 (record { b0 = x; b1 = y; b2 = 0 })
encode_loop (x ∷ y ∷ z ∷ src) = emit 3 (record { b0 = x; b1 = y; b2 = z }) ++ encode_loop src

-- The size of the block that `base64_encode` asks for.
unfoldable pub encode_size : List ℕ → ℕ
encode_size src = (length src + 2) / 3 * 4 + 1

-- `base64_encode(src)`, given the block: the bytes stored before the final NUL.
unfoldable pub base64_encode : List ℕ → List ℕ
unfolding encode_loop
base64_encode src = encode_loop src

-- `b |= v` on an `unsigned char`.
unfoldable pub or_byte : ℕ → ℕ → ℕ
or_byte b v = bit_or b v % 2 ^ 8

-- One round of `base64_decode` on four characters: the three bytes that are copied out.
unfoldable pub decode_group : ℕ → ℕ → ℕ → ℕ → Group
unfolding or_byte
decode_group q0 q1 q2 q3 =
    let x0 : ℕ = decode_char q0 in
    let x1 : ℕ = decode_char q1 in
    let x2 : ℕ = decode_char q2 in
    let x3 : ℕ = decode_char q3 in
    record {
      b0 = or_byte (or_byte 0 (x0 * 2 ^ 2)) (x1 / 2 ^ 4);
      b1 = or_byte (or_byte 0 (bit_and x1 0xf * 2 ^ 4)) (x2 / 2 ^ 2);
      b2 = or_byte (or_byte 0 (bit_and x2 0x3 * 2 ^ 6)) x3;
    }

-- `for (; *q; p += 3, q += 4)`. The length is a multiple of 4, so the shorter cases do not arise.
unfoldable pub decode_loop : List ℕ → List ℕ
unfolding decode_group
decode_loop (q0 ∷ q1 ∷ q2 ∷ q3 ∷ src) =
    let g : Group = decode_group q0 q1 q2 q3 in g.b0 ∷ g.b1 ∷ g.b2 ∷ decode_loop src
decode_loop _ = []

-- The size of the block that `base64_decode` asks for.
unfoldable pub decode_size : List ℕ → ℕ
decode_size src = length src / 4 * 3 + 1

-- `base64_decode(src)`: `src` is `none` for a null pointer, `malloc n` says whether a block of `n`
-- bytes is given, and the result is `none` where the code returns 0, else the bytes stored before
-- the final NUL.
unfoldable pub base64_decode : (ℕ → Bool) → Option (List ℕ) → Option (List ℕ)
unfolding decode_loop decode_size
base64_decode malloc none = none
base64_decode malloc (some []) = none
base64_decode malloc (some (c ∷ src)) =
    if bit_and (length (c ∷ src)) 0x3 == 0
    then if malloc (decode_size (c ∷ src)) then some (decode_loop (c ∷ src)) else none
    else none

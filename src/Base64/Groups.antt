-- ===== src/Base64/Groups.antt =====
-- The bit arithmetic of a group: four digits from three bytes, and back.
use c_playground.Common.{ℕ, ◌+◌, ◌*◌, ◌/◌, ◌%◌, ◌^◌, ◌<◌, ◌≡◌, arith}
use c_playground.Common.Bits.{bit_and_low, bit_or_disjoint, zero-bit_or}
use c_playground.Base64.Tables.{decode_char}
use c_playground.Base64.{Group, group_b0, group_b1, group_b2, group_b3, or_byte, decode_group}

-- The four digits of a group of bytes, in plain arithmetic.
pub group_digits :
    (x y z : ℕ)
    → x < 256
    → y < 256
    → z < 256
    → let g : Group = record { b0 = x; b1 = y; b2 = z } in
      (group_b0 g ≡ x / 4)
      × (group_b1 g ≡ x % 4 * 16 + y / 16)
      × (group_b2 g ≡ y % 16 * 4 + z / 64)
      × (group_b3 g ≡ z % 64)
unfolding group_b0 group_b1 group_b2 group_b3
group_digits x y z hx hy hz = omega (arith, bit_and_low 2 x, bit_and_low 4 y, bit_and_low 6 z)

or_fields :
    (k q r : ℕ)
    → q * 2 ^ k + r < 256
    → r < 2 ^ k
    → or_byte (or_byte 0 (q * 2 ^ k)) r ≡ q * 2 ^ k + r
unfolding or_byte
or_fields k q r h l = ground (arith, zero-bit_or (q * 2 ^ k), bit_or_disjoint k q r)

-- The three bytes that four characters decode to, by the digits that the characters stand for.
pub group_bytes :
    (q0 q1 q2 q3 x0 x1 x2 x3 : ℕ)
    → (decode_char q0 ≡ x0) × (decode_char q1 ≡ x1) × (decode_char q2 ≡ x2) × (decode_char q3 ≡ x3)
    → (x0 < 64) × (x1 < 64) × (x2 < 64) × (x3 < 64)
    → decode_group q0 q1 q2 q3
      ≡ record { b0 = x0 * 4 + x1 / 16; b1 = x1 % 16 * 16 + x2 / 4; b2 = x2 % 4 * 64 + x3 }
unfolding decode_group
group_bytes q0 q1 q2 q3 x0 x1 x2 x3 (e0, e1, e2, e3) (h0, h1, h2, h3) =
    rw (e0, e1, e2, e3, bit_and_low 4 x1, bit_and_low 2 x2)
      (rw (
        or_fields 2 x0 (x1 / 16) (omega arith) (omega arith),
        or_fields 4 (x1 % 16) (x2 / 4) (omega arith) (omega arith),
        or_fields 6 (x2 % 4) x3 (omega arith) (omega arith),
      ))

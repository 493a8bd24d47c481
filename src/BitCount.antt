-- ===== src/BitCount.antt =====
-- The bits of 32-bit words: builtin/ctz.c and builtin/popcount.c.
mod Trailing
mod Sum
mod Tests
use c_playground.Common.{
  ℕ, zero, suc, ◌+◌, ◌-◌, ◌*◌, ◌/◌, ◌%◌, ◌^◌, Bool, true, false, ◌==◌, if◌then◌else◌, bit_and,
}

-- c -= n, when x has a bit of the mask.
unfoldable pub less_on : (x mask n c : ℕ) → ℕ
less_on x mask n c = if bit_and x mask == 0 then c else c - n

-- `__ctz` on a word of one bit.
unfoldable pub one_bit_place : ℕ → ℕ
one_bit_place x = less_on x 0x55555555 1 (
    less_on x 0x33333333 2
      (less_on x 0x0f0f0f0f 4 (less_on x 0x00ff00ff 8 (less_on x 0x0000ffff 16 31))))

-- `__ctz`; -x is 2^32 - x.
unfoldable pub ctz : ℕ → ℕ
ctz x = if x == 0 then 2 ^ 32 - 1 else one_bit_place (bit_and x (2 ^ 32 - x))

-- The sums of `__ctz2`, in 32 bits.
unfoldable pub sum_bits : ℕ → ℕ
sum_bits x0 =
    let x1 = (x0 + 2 ^ 32 - bit_and (x0 / 2) 0x55555555) % 2 ^ 32 in
    let x2 = (bit_and x1 0x33333333 + bit_and (x1 / 4) 0x33333333) % 2 ^ 32 in
    let x3 = bit_and ((x2 + x2 / 16) % 2 ^ 32) 0x0f0f0f0f in
    let x4 = (x3 + x3 / 256) % 2 ^ 32 in let x5 = (x4 + x4 / 2 ^ 16) % 2 ^ 32 in bit_and x5 0x1f

-- `__ctz2`
unfoldable pub ctz2 : ℕ → ℕ
ctz2 x = if x == 0 then 2 ^ 32 - 1 else sum_bits (x - 1)

-- The loop of `count_set_bits`; 33 rounds are enough for a word.
unfoldable pub set_bits_loop : (fuel : ℕ) → (u count : ℕ) → ℕ
set_bits_loop zero u count = count
set_bits_loop (suc fuel) u count =
    let rest = set_bits_loop fuel (u / 2) (count + bit_and u 1) in if u == 0 then count else rest

unfoldable pub count_set_bits : ℕ → ℕ
count_set_bits n = set_bits_loop 33 n 0

-- ===== src/BitCount/Tests.antt =====
-- Words whose bits are counted.
use c_playground.Common.{◌+◌, ◌*◌, ◌^◌, ◌≡◌, refl, arith}
use c_playground.BitCount.{less_on, one_bit_place, ctz, sum_bits, ctz2, count_set_bits}
use c_playground.BitCount.Trailing.{ctz-trailing}
use c_playground.BitCount.Sum.{bit_sum, count_set_bits-bit_sum}

-- The word of main in ctz.c has eight zeros at its end; `__ctz2` counts the twelve ones of 0x1eff.
ctz_main : ctz 0x1f00 ≡ 8
unfolding ctz one_bit_place less_on
ctz_main = refl

ctz2_main : ctz2 0x1f00 ≡ 12
unfolding ctz2 sum_bits
ctz2_main = refl

ctz-trailing_example : ctz ((2 * 15 + 1) * 2 ^ 8) ≡ 8
ctz-trailing_example = ctz-trailing 8 15 (omega arith)

count_set_bits-bit_sum_example : count_set_bits 0xffffffff ≡ bit_sum 32 0xffffffff
count_set_bits-bit_sum_example = count_set_bits-bit_sum 0xffffffff (omega arith)

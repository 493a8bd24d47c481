-- ===== src/BitCount/Sum.antt =====
-- What `count_set_bits` counts.
use c_playground.Common.{
  ℕ, zero, suc, ◌+◌, ◌/◌, ◌%◌, ◌^◌, ◌<◌, ◌≡◌, refl, ap, ◌∙◌, bit_and, ==→eq, if_intro, ◌==◌, arith,
}
use native.Mathlib.Nat.{pow-suc}
use c_playground.Common.Bits.{bit_and_low}
use c_playground.BitCount.{set_bits_loop, count_set_bits}

-- The sum of the lowest `w` bits.
abbrev pub bit_sum : ℕ → ℕ → ℕ
bit_sum zero u = 0
bit_sum (suc w) u = u % 2 + bit_sum w (u / 2)

bit_sum-zero : (w : ℕ) → bit_sum w 0 ≡ 0
bit_sum-zero zero = refl
bit_sum-zero (suc w) = omega (arith, bit_sum-zero w)

loop_sum : (w fuel u c : ℕ) → u < 2 ^ w → w < fuel → set_bits_loop fuel u c ≡ c + bit_sum w u
unfolding set_bits_loop
loop_sum w zero u c h l = absurd (omega arith)
loop_sum zero (suc fuel) u c h l = let e : u ≡ 0 = omega arith in rw e (omega arith)
loop_sum (suc w) (suc fuel) u c h l =
    if_intro (λ (x : ℕ). x ≡ c + bit_sum (suc w) u) (u == 0)
      (λ e. omega (arith, ap (bit_sum (suc w)) (==→eq u 0 e), bit_sum-zero (suc w)))
      (λ _.
        loop_sum w fuel (u / 2) (c + bit_and u 1) (omega (arith, pow-suc 2 w)) (omega arith)
        ∙ omega (arith, bit_and_low 1 u))

-- `count_set_bits` of a word is the sum of its 32 bits, within the rounds it is given.
pub count_set_bits-bit_sum : (u : ℕ) → u < 2 ^ 32 → count_set_bits u ≡ bit_sum 32 u
unfolding count_set_bits
count_set_bits-bit_sum u h = loop_sum 32 33 u 0 h (omega arith) ∙ omega arith

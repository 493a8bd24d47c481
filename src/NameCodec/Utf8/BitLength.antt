-- ===== src/NameCodec/Utf8/BitLength.antt =====
-- The digit count of a 32-bit number against powers of two.
use c_playground.Common.{ℕ, zero, suc, ◌/◌, ◌^◌, ◌≤◌, ◌<◌, arith}
use native.Mathlib.Nat.{pow-suc, one-le-pow}
use c_playground.NameCodec.Utf8.{digits_up_to, bit_length}

digits-le : (fuel k x : ℕ) → x < 2 ^ k → digits_up_to fuel x ≤ k
unfolding digits_up_to
digits-le zero k x h = omega arith
digits-le (suc fuel) zero x h = ground arith
digits-le (suc fuel) (suc k) x h = ground (arith, pow-suc 2 k, digits-le fuel k (x / 2))

lt-digits : (fuel k x : ℕ) → x < 2 ^ fuel → digits_up_to fuel x ≤ k → x < 2 ^ k
unfolding digits_up_to
lt-digits zero k x h d = omega (arith, one-le-pow k 2)
lt-digits (suc fuel) zero x h d = ground arith
lt-digits (suc fuel) (suc k) x h d =
    ground (arith, pow-suc 2 k, pow-suc 2 fuel, one-le-pow (suc k) 2, lt-digits fuel k (x / 2))

-- A 32-bit number has at most `k` digits exactly when it is below `2 ^ k`.
pub bit_length-le : (k x : ℕ) → x < 2 ^ k → bit_length x ≤ k
unfolding bit_length
bit_length-le k x h = digits-le 32 k x h

pub lt-bit_length : (k x : ℕ) → x < 2 ^ 32 → bit_length x ≤ k → x < 2 ^ k
unfolding bit_length
lt-bit_length k x h d = lt-digits 32 k x h d

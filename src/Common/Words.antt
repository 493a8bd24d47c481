-- ===== src/Common/Words.antt =====
-- Numbers as bytes, the lowest first, and the 32-bit two's complement.
use c_playground.Common.{
  ℕ, zero, suc, ◌+◌, ◌-◌, ◌*◌, ◌/◌, ◌%◌, ◌^◌, ◌<◌, ◌≡◌, refl, ap, arith, List, [], ◌∷◌, length, ltb,
  if◌then◌else◌,
}
use c_playground.Common.Int.{ℤ, pos, negsuc}
use native.Mathlib.Nat.{pow-succ'}

unfoldable pub le_bytes : ℕ → ℕ → List ℕ
le_bytes zero n = []
le_bytes (suc k) n = n % 256 ∷ le_bytes k (n / 256)

unfoldable pub le_value : List ℕ → ℕ
le_value [] = 0
le_value (b ∷ s) = b + 256 * le_value s

-- An `int` as the word of its bits, and back.
unfoldable pub int_word : ℤ → ℕ
int_word (pos n) = n % 2 ^ 32
int_word (negsuc n) = 2 ^ 32 - 1 - n % 2 ^ 32

unfoldable pub word_int : ℕ → ℤ
word_int w = if ltb w (2 ^ 31) then pos w else negsuc (2 ^ 32 - 1 - w)

-- The values of an `int`.
abbrev pub IsInt : ℤ → Type 0
IsInt (pos n) = n < 2 ^ 31
IsInt (negsuc n) = n < 2 ^ 31

pub word_int-int_word : (z : ℤ) → IsInt z → word_int (int_word z) ≡ z
unfolding word_int int_word
word_int-int_word (pos n) h = ground arith
word_int-int_word (negsuc n) h = ground arith

pub int_word_bound : (z : ℤ) → int_word z < 2 ^ 32
unfolding int_word
int_word_bound (pos n) = omega arith
int_word_bound (negsuc n) = omega arith

pub length-le_bytes : (k n : ℕ) → length (le_bytes k n) ≡ k
unfolding le_bytes
length-le_bytes zero n = refl
length-le_bytes (suc k) n = ap suc (length-le_bytes k (n / 256))

pub le_value-le_bytes : (k n : ℕ) → n < 256 ^ k → le_value (le_bytes k n) ≡ n
unfolding le_bytes le_value
le_value-le_bytes zero n h = omega arith
le_value-le_bytes (suc k) n h =
    let h' : n < 256 * 256 ^ k = rw (pow-succ' 256 k) at h in
    let ih = le_value-le_bytes k (n / 256) (omega arith) in omega arith

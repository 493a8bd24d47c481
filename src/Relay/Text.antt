-- ===== src/Relay/Text.antt =====
-- The C library's text functions that the codec calls, on the bytes of a C string.
pub mod Behind
pub mod Numbers
use c_playground.Common.{
  ℕ, zero, suc, ◌+◌, ◌-◌, ◌*◌, ◌/◌, ◌%◌, ◌^◌, Bool, true, false, ◌&&◌, ◌||◌, Option, none, some,
  List, [], ◌∷◌, ◌++◌, leb, ltb, ◌==◌, if◌then◌else◌, min,
}
use c_playground.Common.Int.{ℤ, pos, negsuc}

-- strchr(s, c) + 1
unfoldable pub behind_first : ℕ → List ℕ → Option (List ℕ)
behind_first c [] = none
behind_first c (b ∷ s) = let rest = behind_first c s in if b == c then some s else rest

abbrev pub or_else : Option (List ℕ) → Option (List ℕ) → Option (List ℕ)
or_else none y = y
or_else (some s) y = some s

-- strrchr(s, c) + 1
unfoldable pub behind_last : ℕ → List ℕ → Option (List ℕ)
behind_last c [] = none
behind_last c (b ∷ s) = or_else (behind_last c s) (if b == c then some s else none)

-- strncmp(s, p, strlen(p)) == 0
unfoldable pub has_prefix : List ℕ → List ℕ → Bool
has_prefix [] s = true
has_prefix (c ∷ p) [] = false
has_prefix (c ∷ p) (b ∷ s) = (b == c) && has_prefix p s

abbrev pub is_digit : ℕ → Bool
is_digit c = leb b'0' c && leb c b'9'

abbrev pub is_blank : ℕ → Bool
is_blank c = (c == 32) || (leb 9 c && leb c 13)

-- The value of the digits at the front, behind `acc`.
unfoldable pub digit_run : ℕ → List ℕ → ℕ
digit_run acc [] = acc
digit_run acc (c ∷ s) =
    let rest = digit_run (acc * 10 + (c - b'0')) s in if is_digit c then rest else acc

unfoldable pub skip_blanks : List ℕ → List ℕ
skip_blanks [] = []
skip_blanks (c ∷ s) = let rest = skip_blanks s in if is_blank c then rest else c ∷ s

-- A minus sign or a plus sign, if there is one, and the value of the digits.
unfoldable pub signed_run : List ℕ → Bool × ℕ
signed_run [] = (false, 0)
signed_run (c ∷ s) =
    if c == b'-'
    then (true, digit_run 0 s)
    else if c == b'+'
    then (false, digit_run 0 s)
    else (false, digit_run 0 (c ∷ s))

abbrev pub minus : ℕ → ℤ
minus zero = pos 0
minus (suc n) = negsuc n

-- `strtol` with base 10, which saturates.
abbrev pub strtol_of : Bool × ℕ → ℤ
strtol_of (false, n) = pos (min n (2 ^ 63 - 1))
strtol_of (true, n) = minus (min n (2 ^ 63))

-- `strtoull` with base 10: a minus sign negates modulo 2^64, an overflow gives the largest value.
abbrev pub strtoull_of : Bool × ℕ → ℕ
strtoull_of (false, n) = min n (2 ^ 64 - 1)
strtoull_of (true, n) = if ltb n (2 ^ 64) then (2 ^ 64 - n) % 2 ^ 64 else 2 ^ 64 - 1

abbrev pub strtol : List ℕ → ℤ
strtol s = strtol_of (signed_run (skip_blanks s))

abbrev pub strtoull : List ℕ → ℕ
strtoull s = strtoull_of (signed_run (skip_blanks s))

-- The low `k` bits of a number in two's complement: what a conversion to a k-bit type keeps.
unfoldable pub low_bits : ℕ → ℤ → ℕ
low_bits k (pos n) = n % 2 ^ k
low_bits k (negsuc n) = 2 ^ k - 1 - n % 2 ^ k

-- The decimal digits of a number below 10^fuel.
unfoldable pub decimal_digits : (fuel : ℕ) → ℕ → List ℕ
decimal_digits zero n = []
decimal_digits (suc fuel) n =
    let rest = decimal_digits fuel (n / 10) in
    if ltb n 10 then (b'0' + n) ∷ [] else rest ++ ((b'0' + n % 10) ∷ [])

-- %u of a 64-bit number has at most 20 digits.
abbrev pub decimal : ℕ → List ℕ
decimal n = decimal_digits 20 n

-- %d
abbrev pub decimal_int : ℤ → List ℕ
decimal_int (pos n) = decimal n
decimal_int (negsuc n) = b'-' ∷ decimal (suc n)

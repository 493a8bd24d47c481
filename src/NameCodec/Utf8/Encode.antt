-- ===== src/NameCodec/Utf8/Encode.antt =====
-- `utf8_encode` against the arithmetic of UTF-8, on every branch.
use c_playground.Common.{ℕ, suc, ◌+◌, ◌-◌, ◌/◌, ◌%◌, ◌^◌, ◌≤◌, ◌<◌, bit_and, bit_or}
use c_playground.Common.{◌≡◌, refl, ap, ◌∙◌, arith, List, [], ◌∷◌, ◌++◌, take, leb, ltb}
use c_playground.Common.{if◌then◌else◌, Bool-cases, inl, inr, ltb→lt}
use c_playground.Common.Bits.{bit_and_low, same_below, same_below→eq}
use c_playground.NameCodec.Utf8.{suffix, lead, utf8_encode, bit_length}
use c_playground.NameCodec.Utf8.BitLength.{bit_length-le, lt-bit_length}

-- The UTF-8 form of a code point below 2 ^ 21, in plain arithmetic.
abbrev pub utf8_bytes : ℕ → List ℕ
utf8_bytes x =
    if ltb x (2 ^ 7)
    then x ∷ []
    else if ltb x (2 ^ 11)
    then (192 + x / 64) ∷ (128 + x % 64) ∷ []
    else if ltb x (2 ^ 16)
    then (224 + x / 4096) ∷ (128 + x / 64 % 64) ∷ (128 + x % 64) ∷ []
    else (240 + x / 262144) ∷ (128 + x / 4096 % 64) ∷ (128 + x / 64 % 64) ∷ (128 + x % 64) ∷ []

abbrev pub utf8_size : ℕ → ℕ
utf8_size x =
    if ltb x (2 ^ 7) then 1 else if ltb x (2 ^ 11) then 2 else if ltb x (2 ^ 16) then 3 else 4

or_80 : (m : ℕ) → m < 64 → bit_or m 0x80 ≡ 128 + m
unfolding same_below
or_80 = same_below→eq _ _ 64 refl

or_c0 : (m : ℕ) → m < 32 → bit_or m 0xc0 ≡ 192 + m
unfolding same_below
or_c0 = same_below→eq _ _ 32 refl

or_e0 : (m : ℕ) → m < 16 → bit_or m 0xe0 ≡ 224 + m
unfolding same_below
or_e0 = same_below→eq _ _ 16 refl

or_f0 : (m : ℕ) → m < 8 → bit_or m 0xf0 ≡ 240 + m
unfolding same_below
or_f0 = same_below→eq _ _ 8 refl

-- A continuation byte.
pub suffix_byte : (y : ℕ) → bit_or (bit_and y 0x3f) 0x80 ≡ 128 + y % 64
suffix_byte y = ap (λ t. bit_or t 0x80) (bit_and_low 6 y) ∙ or_80 (y % 64) (omega arith)

low_byte : (y : ℕ) → y < 256 → bit_and y 0xff ≡ y
low_byte y h = bit_and_low 8 y ∙ omega arith

-- A test on the digit count is a test on the value.
digits_test : (k x : ℕ) → x < 2 ^ 32 → ltb (bit_length x) (suc k) ≡ ltb x (2 ^ k)
digits_test k x h = elim (Bool-cases (ltb x (2 ^ k))) [
  | inl small ↦ ground (arith, bit_length-le k x (ltb→lt _ _ small))
  | inr large ↦ ground (arith, lt-bit_length k x h)
]

lead-value : (x : ℕ) → x < 2 ^ 21 → lead (bit_length x) x ≡ (utf8_size x - 1, take 1 (utf8_bytes x))
unfolding lead
lead-value x h = ground (
  arith,
  digits_test 7 x,
  digits_test 11 x,
  digits_test 16 x,
  digits_test 21 x,
  low_byte x,
  low_byte (x / 64),
  low_byte (x / 4096),
  low_byte (x / 262144),
  or_c0 (x / 64),
  or_e0 (x / 4096),
  or_f0 (x / 262144),
)

lead-large : (x : ℕ) → 2 ^ 21 ≤ x → x < 2 ^ 32 → lead (bit_length x) x ≡ (0, [])
unfolding lead
lead-large x h k =
    ground (arith, digits_test 7 x, digits_test 11 x, digits_test 16 x, digits_test 21 x)

encode-suffix :
    (x : ℕ) → x < 2 ^ 21 → take 1 (utf8_bytes x) ++ suffix (utf8_size x - 1) x ≡ utf8_bytes x
unfolding suffix
encode-suffix x h =
    ground (arith, suffix_byte (x / 1), suffix_byte (x / 64), suffix_byte (x / 4096))

-- Below 2 ^ 21 and from 1 on (C leaves `__builtin_clz(0)` undefined), `utf8_encode` stores the UTF-8
-- form of the code point and returns its size if the room holds it; otherwise it stores the first
-- byte alone and returns 0.
pub utf8_encode-utf8_bytes :
    (room x : ℕ)
    → 0 < x
    → x < 2 ^ 21
    → utf8_encode room x
      ≡ (if leb (utf8_size x) room then (utf8_size x, utf8_bytes x) else (0, take 1 (utf8_bytes x)))
unfolding utf8_encode
utf8_encode-utf8_bytes room x p h = rw (lead-value x h) (ground (arith, encode-suffix x h))

-- From 2 ^ 21 on, `utf8_encode` stores nothing, yet returns 1 if there is room for a byte.
pub utf8_encode_large :
    (room x : ℕ)
    → 2 ^ 21 ≤ x
    → x < 2 ^ 32
    → utf8_encode room x ≡ (if leb 1 room then (1, []) else (0, []))
unfolding utf8_encode
utf8_encode_large room x h k = rw (lead-large x h k) (ground arith)

-- ===== src/Base64/Shape.antt =====
-- How long the results are: the blocks are as large as what is stored in them.
use c_playground.Common.{ℕ, ◌+◌, ◌*◌, ◌/◌, ◌%◌, ◌<◌, ◌≡◌, refl, arith, List, [], ◌∷◌, length}
use c_playground.Common.{Bool, true, none, some, bit_and, if◌then◌else◌, ne→==, eq→==, ◌≢◌, ◌∙◌}
use c_playground.Common.Bits.{bit_and_low}
use c_playground.Base64.{encode_size, base64_encode, decode_loop, decode_size, base64_decode}

-- The bytes that `base64_encode` stores, with the final NUL, fill exactly the block that it asks for.
pub length-base64_encode : (src : List ℕ) → length (base64_encode src) + 1 ≡ encode_size src
unfolding base64_encode encode_size
length-base64_encode [] = refl
length-base64_encode (x ∷ []) = refl
length-base64_encode (x ∷ y ∷ []) = refl
length-base64_encode (x ∷ y ∷ z ∷ src) = omega (arith, length-base64_encode src)

length-decode_loop : (src : List ℕ) → length (decode_loop src) ≡ length src / 4 * 3
unfolding decode_loop
length-decode_loop [] = refl
length-decode_loop (a ∷ []) = refl
length-decode_loop (a ∷ b ∷ []) = refl
length-decode_loop (a ∷ b ∷ c ∷ []) = refl
length-decode_loop (a ∷ b ∷ c ∷ d ∷ src) = omega (arith, length-decode_loop src)

pub base64_decode_ok :
    (malloc : ℕ → Bool) (src : List ℕ)
    → 0 < length src
    → length src % 4 ≡ 0
    → malloc (decode_size src) ≡ true
    → base64_decode malloc (some src) ≡ some (decode_loop src)
base64_decode_ok malloc [] h e m = absurd (omega arith)
base64_decode_ok malloc (c ∷ src) h e m =
    unfold base64_decode in rw (eq→== _ 0 (bit_and_low 2 (length (c ∷ src)) ∙ e), m)

-- `base64_decode` of a string of a positive length that is a multiple of 4 gives bytes if the block is
-- given, and with the final NUL they fill the block; it returns 0 if the block is not given. No
-- character is refused.
pub base64_decode_multiple :
    (malloc : ℕ → Bool) (c : ℕ) (src : List ℕ)
    → length (c ∷ src) % 4 ≡ 0
    → (out : List ℕ) × (length out + 1 ≡ decode_size (c ∷ src))
      × (base64_decode malloc (some (c ∷ src))
          ≡ (if malloc (decode_size (c ∷ src)) then some out else none))
base64_decode_multiple malloc c src h = (
  decode_loop (c ∷ src),
  unfold decode_size in omega (arith, length-decode_loop (c ∷ src)),
  unfold base64_decode in rw (eq→== _ 0 (bit_and_low 2 (length (c ∷ src)) ∙ h)),
)

-- `base64_decode` returns 0 for a null pointer, for the empty string, and for every string whose
-- length is no multiple of 4.
pub base64_decode-none :
    (malloc : ℕ → Bool)
    → (base64_decode malloc none ≡ none)
      × (base64_decode malloc (some []) ≡ none)
      × ((src : List ℕ) → length src % 4 ≢ 0 → base64_decode malloc (some src) ≡ none)
base64_decode-none malloc = (unfold base64_decode in refl, unfold base64_decode in refl, refused)
  where
    refused : (src : List ℕ) → length src % 4 ≢ 0 → base64_decode malloc (some src) ≡ none
    refused [] h = absurd (h refl)
    refused (c ∷ src) h =
        unfold base64_decode in
        rw (ne→== (bit_and (length (c ∷ src)) 0x3) 0 (rw (bit_and_low 2 (length (c ∷ src))) h))

-- ===== src/Base64/Tests.antt =====
-- Runs of codec/base64.c, and its theorems at concrete inputs.
use c_playground.Common.{ℕ, ◌≡◌, refl, arith, List, [], ◌∷◌, ◌++◌, replicate, c_string}
use c_playground.Common.{Bool, true, some, codes}
use c_playground.Base64.Tables.{encode_char, decode_char}
use c_playground.Base64.{base64_encode, base64_decode}
use c_playground.Base64.RoundTrip.{pad, base64_decode-base64_encode}

abbrev given : ℕ → Bool
given n = true

encode_hello : base64_encode (codes "hello") ≡ codes "aGVsbG8="
unfolding base64_encode encode_char
encode_hello = refl

decode_hello : base64_decode given (some (codes "aGVsbG8=")) ≡ some (codes "hello" ++ 0 ∷ [])
unfolding base64_decode decode_char
decode_hello = refl

base64_decode-base64_encode_example :
    (out : List ℕ) × (base64_decode given (some (base64_encode (codes "hello"))) ≡ some out)
    × (out ≡ codes "hello" ++ replicate (pad (codes "hello")) 0)
    × (c_string out ≡ codes "hello")
base64_decode-base64_encode_example =
    base64_decode-base64_encode given (codes "hello") (omega arith) (omega arith) refl

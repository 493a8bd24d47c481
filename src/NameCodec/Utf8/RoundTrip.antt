-- ===== src/NameCodec/Utf8/RoundTrip.antt =====
-- `utf8_decode` after `utf8_encode`.
use c_playground.Common.{ℕ, ◌^◌, ◌≤◌, ◌<◌, ◌≡◌, ◌∙◌, arith, List, ◌++◌, some}
use c_playground.NameCodec.Utf8.{utf8_encode, utf8_decode}
use c_playground.NameCodec.Utf8.Encode.{utf8_size, utf8_bytes, utf8_encode-utf8_bytes}
use c_playground.NameCodec.Utf8.Decode.{utf8_decode-utf8_bytes}

encode_fits :
    (room x : ℕ)
    → 0 < x
    → x < 2 ^ 21
    → utf8_size x ≤ room
    → utf8_encode room x ≡ (utf8_size x, utf8_bytes x)
encode_fits room x p h r = utf8_encode-utf8_bytes room x p h ∙ ground arith

-- What `utf8_encode` stores for a code point from 1 to 2 ^ 21 - 1, given room for it, `utf8_decode`
-- reads back as that code point and the size that `utf8_encode` returned, whatever follows.
pub utf8_decode-utf8_encode :
    (room x : ℕ) (rest : List ℕ)
    → 0 < x
    → x < 2 ^ 21
    → utf8_size x ≤ room
    → let (size, bytes) = utf8_encode room x in utf8_decode (bytes ++ rest) ≡ some (size, x)
utf8_decode-utf8_encode room x rest p h r =
    rw (encode_fits room x p h r) (utf8_decode-utf8_bytes x rest h)

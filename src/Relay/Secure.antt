-- ===== src/Relay/Secure.antt =====
-- The frame of a record on the wire: secure.h and secure.cpp.
mod Xor
pub mod RoundTrip
use c_playground.Common.{
  ℕ, zero, suc, ◌+◌, Bool, true, false, Option, none, some, List, [], ◌∷◌, ◌++◌, ◌==◌,
  if◌then◌else◌, codes, length, get_or, set, take, drop, replicate,
}
use Prim.Native.Nat.{bit_xor}
use c_playground.Common.Words.{le_bytes, le_value}
use c_playground.Relay.Text.{has_prefix}
use c_playground.Relay.Codec.{Data}

abbrev pub data_len : ℕ
data_len = 16

abbrev pub secret : List ℕ
secret = codes "SUN"

abbrev pub secret_len : ℕ
secret_len = 3

-- p[i] ^= mask, with `i` back at 0 behind the last byte, until `i` is at the mask.
unfoldable pub mask_loop : (fuel i mask : ℕ) → List ℕ → List ℕ
mask_loop zero i mask p = p
mask_loop (suc fuel) i mask p =
    let j = if i == data_len then 0 else i in
    let rest = mask_loop fuel (suc j) mask (set p j (bit_xor (get_or p j 0) mask)) in
    if i == secret_len then p else rest

-- Fifteen turns and the last test; the proofs show that it is enough.
abbrev pub mask_fuel : ℕ
mask_fuel = 16

-- memcpy(&p[at], text, length text)
unfoldable pub copy_at : ℕ → List ℕ → List ℕ → List ℕ
copy_at at [] p = p
copy_at at (b ∷ s) p = copy_at (suc at) s (set p at b)

-- `Encrypt`, with the byte that `entropy` gave.
unfoldable pub encrypt : (mask : ℕ) → List ℕ → List ℕ
encrypt mask text =
    mask_loop mask_fuel (suc secret_len) mask
      (set (copy_at (suc secret_len) text (secret ++ replicate 13 0)) secret_len mask)

-- `Decrypt` of `len` bytes: what is copied to the caller, or nothing for `false`.
unfoldable pub decrypt : (len : ℕ) → List ℕ → Option (List ℕ)
decrypt len s =
    let p = mask_loop mask_fuel (suc secret_len) (get_or s secret_len 0) s in
    if length s == data_len
    then if has_prefix secret p then some (take len (drop (suc secret_len) p)) else none
    else none

-- The packed structure in memory, and back.
unfoldable pub data_bytes : Data → List ℕ
data_bytes d = le_bytes 4 d.a ++ le_bytes 8 d.b

unfoldable pub bytes_data : List ℕ → Data
bytes_data s = record { a = le_value (take 4 s); b = le_value (take 8 (drop 4 s)) }

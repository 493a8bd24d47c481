-- ===== src/Relay/Secure/RoundTrip.antt =====
-- What `Encrypt` sends, `Decrypt` gives back, and what else `Decrypt` takes.
use c_playground.Common.{
  ℕ, zero, suc, ◌≡◌, refl, ap, ap₂, ◌∙◌, sym, Bool, true, false, Option, none, some, List, [], ◌∷◌,
  length, get_or, take, drop, ◌==◌, set, length-set, length-take, length-drop, if_intro, Bool-cases,
  inl, inr, ==→eq, if◌then◌else◌, arith, ◌<◌, ◌^◌,
}
use Prim.Native.Nat.{bit_xor}
use c_playground.Common.Words.{le_bytes, le_value-le_bytes}
use c_playground.Relay.Codec.{Data}
use c_playground.Relay.Text.{has_prefix}
use c_playground.Relay.Secure.{
  mask_loop, copy_at, encrypt, decrypt, data_bytes, bytes_data, secret, secret_len, data_len,
  mask_fuel,
}
use c_playground.Relay.Secure.Xor.{bit_xor-bit_xor}

-- The frame of twelve bytes.
encrypt_bytes :
    (m a b c d e f g h i j k l : ℕ)
    → encrypt m (a ∷ b ∷ c ∷ d ∷ e ∷ f ∷ g ∷ h ∷ i ∷ j ∷ k ∷ l ∷ [])
      ≡ bit_xor b'S' m
        ∷ bit_xor b'U' m
        ∷ bit_xor b'N' m
        ∷ m
        ∷ bit_xor a m
        ∷ bit_xor b m
        ∷ bit_xor c m
        ∷ bit_xor d m
        ∷ bit_xor e m
        ∷ bit_xor f m
        ∷ bit_xor g m
        ∷ bit_xor h m
        ∷ bit_xor i m
        ∷ bit_xor j m
        ∷ bit_xor k m
        ∷ bit_xor l m
        ∷ []
unfolding encrypt mask_loop copy_at
encrypt_bytes m a b c d e f g h i j k l = refl

decrypt_bytes :
    (s u n m a b c d e f g h i j k l : ℕ)
    → decrypt 12 (s ∷ u ∷ n ∷ m ∷ a ∷ b ∷ c ∷ d ∷ e ∷ f ∷ g ∷ h ∷ i ∷ j ∷ k ∷ l ∷ []) ≡ (
        if has_prefix secret (bit_xor s m ∷ bit_xor u m ∷ bit_xor n m ∷ [])
        then some (
            bit_xor a m
            ∷ bit_xor b m
            ∷ bit_xor c m
            ∷ bit_xor d m
            ∷ bit_xor e m
            ∷ bit_xor f m
            ∷ bit_xor g m
            ∷ bit_xor h m
            ∷ bit_xor i m
            ∷ bit_xor j m
            ∷ bit_xor k m
            ∷ bit_xor l m
            ∷ [])
        else none)
unfolding decrypt mask_loop has_prefix
decrypt_bytes s u n m a b c d e f g h i j k l = refl

secret_back :
    (m : ℕ)
    → has_prefix secret
        (bit_xor (bit_xor b'S' m) m ∷ bit_xor (bit_xor b'U' m) m ∷ bit_xor (bit_xor b'N' m) m ∷ [])
      ≡ true
unfolding has_prefix
secret_back m = rw (bit_xor-bit_xor b'S' m, bit_xor-bit_xor b'U' m, bit_xor-bit_xor b'N' m) refl

round_bytes :
    (m a b c d e f g h i j k l : ℕ)
    → decrypt 12 (encrypt m (a ∷ b ∷ c ∷ d ∷ e ∷ f ∷ g ∷ h ∷ i ∷ j ∷ k ∷ l ∷ []))
      ≡ some (a ∷ b ∷ c ∷ d ∷ e ∷ f ∷ g ∷ h ∷ i ∷ j ∷ k ∷ l ∷ [])
round_bytes m a b c d e f g h i j k l =
    ap (decrypt 12) (encrypt_bytes m a b c d e f g h i j k l)
    ∙ decrypt_bytes _ _ _ m _ _ _ _ _ _ _ _ _ _ _ _
    ∙ rw
        (
          secret_back m,
          bit_xor-bit_xor a m,
          bit_xor-bit_xor b m,
          bit_xor-bit_xor c m,
          bit_xor-bit_xor d m,
          bit_xor-bit_xor e m,
          bit_xor-bit_xor f m,
          bit_xor-bit_xor g m,
          bit_xor-bit_xor h m,
          bit_xor-bit_xor i m,
          bit_xor-bit_xor j m,
          bit_xor-bit_xor k m,
          bit_xor-bit_xor l m,
        )
        refl

-- The values of the fields of a record.
abbrev pub IsData : Data → Type 0
IsData d = d.a < 2 ^ 32 × d.b < 2 ^ 64

-- Whatever the mask, a record comes back from its frame.
pub decrypt-encrypt :
    (mask : ℕ) (d : Data) → decrypt 12 (encrypt mask (data_bytes d)) ≡ some (data_bytes d)
unfolding data_bytes le_bytes
decrypt-encrypt mask d = round_bytes mask _ _ _ _ _ _ _ _ _ _ _ _

pub bytes_data-data_bytes : (d : Data) → IsData d → bytes_data (data_bytes d) ≡ d
unfolding bytes_data data_bytes le_bytes
bytes_data-data_bytes d h =
    ap₂ (λ x y. record { a = x; b = y }) (le_value-le_bytes 4 d.a (omega arith))
      (le_value-le_bytes 8 d.b (omega arith))

abbrev option_length : Option (List ℕ) → ℕ
option_length none = 0
option_length (some x) = length x

length-mask_loop : (fuel i m : ℕ) (p : List ℕ) → length (mask_loop fuel i m p) ≡ length p
unfolding mask_loop
length-mask_loop zero i m p = refl
length-mask_loop (suc fuel) i m p =
    let j = if i == data_len then 0 else i in
    if_intro (λ (s : List ℕ). length s ≡ length p) (i == secret_len) (λ _. refl)
      (λ _. length-mask_loop fuel (suc j) m (set p j (bit_xor (get_or p j 0) m)) ∙ length-set p j _)

-- What is accepted is as long as what was asked for.
pub length-decrypt : (s x : List ℕ) → decrypt 12 s ≡ some x → length x ≡ 12
unfolding decrypt
length-decrypt s x h =
    let p = mask_loop mask_fuel (suc secret_len) (get_or s secret_len 0) s in
    elim (Bool-cases (length s == data_len)) [
      | inl e ↦
          let k : (if has_prefix secret p then some (take 12 (drop (suc secret_len) p)) else none)
              ≡ some x =
            rw e at h in
          accepted p x
            (length-mask_loop mask_fuel (suc secret_len) _ s ∙ ==→eq (length s) data_len e)
            (has_prefix secret p) k
      | inr e ↦ let k : none ≡ some x = rw e at h in absurd (ground (arith, k))
    ]
  where
    accepted :
        (p x : List ℕ)
        → length p ≡ 16
        → (b : Bool) → (if b then some (take 12 (drop 4 p)) else none) ≡ some x
        → length x ≡ 12
    accepted p x e true k =
        ap (λ o. option_length o) (sym k)
        ∙ omega (arith, e, length-take 12 (drop 4 p), length-drop 4 p)
    accepted p x e false k = absurd (ground (arith, k))

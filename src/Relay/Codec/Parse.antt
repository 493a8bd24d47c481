-- ===== src/Relay/Codec/Parse.antt =====
-- What is read from the text `serial@block@weight` and from a dotted address.
use c_playground.Common.{
  ℕ, suc, ◌-◌, ◌%◌, ◌^◌, ◌<◌, ◌≡◌, ◌≢◌, refl, ap, ◌∙◌, List, [], ◌∷◌, ◌++◌, All, All-weaken,
  bit_and, some, arith, sym, append-nil, append_assoc,
}
use c_playground.Common.Int.{ℤ, pos, negsuc}
use c_playground.Common.Bits.{bit_and_low}
use c_playground.Common.Words.{IsInt}
use c_playground.Relay.Text.{
  decimal, decimal_int, decimal_digits, has_prefix, behind_last, low_bits, strtol,
}
use c_playground.Relay.Text.Numbers.{
  IsDigit, IsShort, decimal_digits-IsDigit, strtol-decimal_int, strtoull-decimal,
  has_prefix-decimal_int,
}
use c_playground.Relay.Text.Behind.{behind_first-append, behind_last-append}
use c_playground.Relay.Codec.{
  Input, blank_input, at_sign, bad, ip_from, parse_ip, weight_from, parse_weight, block_from,
  parse_block, parse_serial, group_input,
}

-- The datagram of a serial number, a block and the text of a weight.
abbrev pub message : ℕ → ℤ → List ℕ → List ℕ
message serial block weight =
    decimal serial ++ (at_sign ∷ (decimal_int block ++ (at_sign ∷ weight)))

abbrev IsPlain : ℕ → Type 0
IsPlain c = (c ≢ at_sign) × (c ≢ b'.')

digit-IsPlain : (c : ℕ) → IsDigit c → IsPlain c
digit-IsPlain c h = (ground (arith, h), ground (arith, h))

decimal-IsPlain : (n : ℕ) → All IsPlain (decimal n)
decimal-IsPlain n =
    All-weaken IsDigit IsPlain (decimal n) digit-IsPlain (decimal_digits-IsDigit 20 n)

decimal_int-IsPlain : (z : ℤ) → All IsPlain (decimal_int z)
decimal_int-IsPlain (pos n) = decimal-IsPlain n
decimal_int-IsPlain (negsuc n) = ((ground arith, ground arith), decimal-IsPlain (suc n))

no_at : (s : List ℕ) → All IsPlain s → All (λ c. c ≢ at_sign) s
no_at s = All-weaken IsPlain (λ c. c ≢ at_sign) s (λ c h. h.0)

module _ (serial : ℕ) (block : ℤ) (weight : List ℕ) where
  parse_weight-message :
      (i : Input)
      → All (λ c. c ≢ at_sign) weight
      → parse_weight (message serial block weight) i ≡ weight_from (some weight) i
  unfolding parse_weight
  parse_weight-message i h =
      ap (λ o. weight_from o i)
        (ap (λ t. behind_last at_sign t)
            (sym (append_assoc (decimal serial) (at_sign ∷ decimal_int block) (at_sign ∷ weight)))
          ∙ behind_last-append at_sign (decimal serial ++ at_sign ∷ decimal_int block) weight h)

  parse_block-message :
      (i : Input)
      → IsInt block
      → parse_block (message serial block weight) i ≡ record i { block = low_bits 32 block }
  unfolding parse_block block_from
  parse_block-message i h =
      ap (λ o. block_from o i)
        (behind_first-append at_sign (decimal serial) _
          (no_at (decimal serial) (decimal-IsPlain serial)))
      ∙ ap (λ z. record i { block = low_bits 32 z })
          (strtol-decimal_int block (at_sign ∷ weight) h refl)

  parse_serial-message :
      (i : Input)
      → serial < 2 ^ 32
      → parse_serial (message serial block weight) i ≡ record i { serial = serial }
  unfolding parse_serial
  parse_serial-message i h =
      ap (λ n. record i { serial = n % 2 ^ 32 }) (strtoull-decimal serial _ (omega arith) refl)
      ∙ ap (λ n. record i { serial = n }) (omega arith)

parse_ip-dotted :
    (p : List ℕ) (w : ℕ) (i : Input)
    → w < 256
    → parse_ip (p ++ b'.' ∷ decimal w) i ≡ record i { ip = w }
unfolding parse_ip ip_from low_bits
parse_ip-dotted p w i h =
    ap (λ o. ip_from o i)
      (behind_last-append b'.' p (decimal w)
        (All-weaken IsPlain (λ c. c ≢ b'.') (decimal w) (λ c k. k.1) (decimal-IsPlain w)))
    ∙ ap (λ z. record i { ip = bit_and (low_bits 32 z) 0xff })
        (ap strtol (sym (append-nil (decimal w))) ∙ strtol-decimal_int (pos w) [] (omega arith) tt)
    ∙ ap (λ n. record i { ip = n }) (bit_and_low 8 (w % 2 ^ 32) ∙ omega arith)

-- The 16 bits of a `short`.
low_16 : (z : ℤ) → IsShort z → bit_and (low_bits 32 z) 0xffff ≡ low_bits 16 z
unfolding low_bits
low_16 (pos n) h = bit_and_low 16 (n % 2 ^ 32) ∙ omega arith
low_16 (negsuc n) h = bit_and_low 16 (2 ^ 32 - 1 - n % 2 ^ 32) ∙ omega arith

IsShort-IsInt : (z : ℤ) → IsShort z → IsInt z
IsShort-IsInt (pos n) h = omega arith
IsShort-IsInt (negsuc n) h = omega arith

weight_from-int :
    (z : ℤ) (i : Input)
    → IsShort z
    → weight_from (some (decimal_int z)) i ≡ record i { weight = low_bits 16 z }
unfolding weight_from
weight_from-int z i h = rw (has_prefix-decimal_int z h) (
    ap (λ n. record i { weight = bit_and (low_bits 32 n) 0xffff })
      (ap strtol (sym (append-nil (decimal_int z)))
        ∙ strtol-decimal_int z [] (IsShort-IsInt z h) tt)
    ∙ ap (λ n. record i { weight = n }) (low_16 z h))

weight_bad :
    {w : ℕ}
    → weight_from (some bad) (record blank_input { ip = w })
      ≡ record { error = 1; ip = w; weight = 0xffff; block = 0; serial = 0 }
unfolding weight_from has_prefix
weight_bad = refl

module _ (p : List ℕ) (w serial : ℕ) (block : ℤ) (hw : w < 256) (hs : serial < 2 ^ 32)
    (hb : IsInt block) where
  group_input_fields :
      (weight : List ℕ) (e v : ℕ)
      → All (λ c. c ≢ at_sign) weight
      → (weight_from (some weight) (record blank_input { ip = w })
          ≡ record { error = e; ip = w; weight = v; block = 0; serial = 0 })
      → group_input (p ++ b'.' ∷ decimal w) (message serial block weight)
        ≡ record { error = e; ip = w; weight = v; block = low_bits 32 block; serial = serial }
  unfolding group_input
  group_input_fields weight e v hn hv =
      let text = message serial block weight in
      ap (λ i. parse_serial text (parse_block text (parse_weight text i)))
        (parse_ip-dotted p w blank_input hw)
      ∙ ap (λ i. parse_serial text (parse_block text i))
          (parse_weight-message serial block weight (record blank_input { ip = w }) hn ∙ hv)
      ∙ ap (λ i. parse_serial text i) (parse_block-message serial block weight _ hb)
      ∙ parse_serial-message serial block weight _ hs

  -- From the address `p.w` and the datagram `serial@block@weight`, a weight within 16 bits, every field
  -- is read: the error is 0, the weight its 16 bits, the block its 32.
  pub group_input-message :
      (z : ℤ)
      → IsShort z
      → group_input (p ++ b'.' ∷ decimal w) (message serial block (decimal_int z)) ≡ record {
        error = 0;
        ip = w;
        weight = low_bits 16 z;
        block = low_bits 32 block;
        serial = serial;
      }
  group_input-message z h =
      group_input_fields (decimal_int z) 0 (low_bits 16 z)
        (no_at (decimal_int z) (decimal_int-IsPlain z))
        (weight_from-int z (record blank_input { ip = w }) h)

  -- The text "-65535" for the weight sets the error and the weight 0xffff.
  pub group_input-message_refused :
      group_input (p ++ b'.' ∷ decimal w) (message serial block bad)
      ≡ record { error = 1; ip = w; weight = 0xffff; block = low_bits 32 block; serial = serial }
  unfolding decimal_digits
  group_input-message_refused =
      group_input_fields bad 1 0xffff (no_at bad (decimal_int-IsPlain (negsuc 65534))) weight_bad

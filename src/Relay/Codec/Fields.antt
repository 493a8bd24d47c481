-- ===== src/Relay/Codec/Fields.antt =====
-- The record of an input, and its fields read back.
use c_playground.Common.{ℕ, ◌+◌, ◌*◌, ◌/◌, ◌%◌, ◌^◌, ◌<◌, ◌≡◌, refl, ◌∙◌, bit_and, bit_or, arith}
use c_playground.Common.Bits.{bit_or_disjoint, bit_and_low}
use c_playground.Relay.Codec.{Input, encode, IsInput, shl}

or_three :
    (e p w k : ℕ)
    → e < 2 ^ 8
    → p < 2 ^ 8
    → w < 2 ^ 16
    → k < 2 ^ 32
    → bit_or (bit_or (bit_or (e * 2 ^ 56) (p * 2 ^ 48)) (w * 2 ^ 32)) k
      ≡ e * 2 ^ 56 + p * 2 ^ 48 + w * 2 ^ 32 + k
or_three e p w k he hp hw hk =
    let one = bit_or_disjoint 56 e (p * 2 ^ 48) (omega arith) in
    let two = bit_or_disjoint 48 (e * 2 ^ 8 + p) (w * 2 ^ 32) (omega arith) in
    let three = bit_or_disjoint 32 (e * 2 ^ 24 + p * 2 ^ 16 + w) k (omega arith) in
    let f1 : e * 2 ^ 56 + p * 2 ^ 48 ≡ (e * 2 ^ 8 + p) * 2 ^ 48 = omega arith in
    let f2 : (e * 2 ^ 8 + p) * 2 ^ 48 + w * 2 ^ 32 ≡ (e * 2 ^ 24 + p * 2 ^ 16 + w) * 2 ^ 32 =
      omega arith in
    rw (one, f1, two, f2, three) (omega arith)

pub encode_serial : (i : Input) → (encode i).a ≡ i.serial
unfolding encode
encode_serial i = refl

pub encode_sum :
    (i : Input)
    → IsInput i
    → (encode i).b ≡ i.error * 2 ^ 56 + i.ip * 2 ^ 48 + i.weight * 2 ^ 32 + i.block
unfolding encode
encode_sum i (he, hp, hw, hk, hs) =
    let e : shl i.error 56 ≡ i.error * 2 ^ 56 = omega arith in
    let p : shl i.ip 48 ≡ i.ip * 2 ^ 48 = omega arith in
    let w : shl i.weight 32 ≡ i.weight * 2 ^ 32 = omega arith in
    rw (e, p, w) (or_three i.error i.ip i.weight i.block he hp hw hk)

-- The fields of the word, as `load` takes them.
pub word_error :
    (e p w k : ℕ)
    → e < 2 ^ 8
    → p < 2 ^ 8
    → w < 2 ^ 16
    → k < 2 ^ 32
    → (e * 2 ^ 56 + p * 2 ^ 48 + w * 2 ^ 32 + k) / 2 ^ 56 % 2 ^ 8 ≡ e
word_error e p w k he hp hw hk = omega arith

pub word_ip :
    (e p w k : ℕ)
    → e < 2 ^ 8
    → p < 2 ^ 8
    → w < 2 ^ 16
    → k < 2 ^ 32
    → (e * 2 ^ 56 + p * 2 ^ 48 + w * 2 ^ 32 + k) / 2 ^ 48 % 2 ^ 8 ≡ p
word_ip e p w k he hp hw hk = omega arith

pub word_weight :
    (e p w k : ℕ)
    → e < 2 ^ 8
    → p < 2 ^ 8
    → w < 2 ^ 16
    → k < 2 ^ 32
    → bit_and ((e * 2 ^ 56 + p * 2 ^ 48 + w * 2 ^ 32 + k) / 2 ^ 32) 0xffff ≡ w
word_weight e p w k he hp hw hk = bit_and_low 16 _ ∙ omega arith

pub word_block :
    (e p w k : ℕ)
    → e < 2 ^ 8
    → p < 2 ^ 8
    → w < 2 ^ 16
    → k < 2 ^ 32
    → bit_and (e * 2 ^ 56 + p * 2 ^ 48 + w * 2 ^ 32 + k) 0xffffffff ≡ k
word_block e p w k he hp hw hk = bit_and_low 32 _ ∙ omega arith

-- ===== src/Relay/Codec/Buffer.antt =====
-- The 64 bytes of `buf` in `load`: which records fit, and which are written past its end.
use c_playground.Common.{
  ℕ, suc, ◌+◌, ◌-◌, ◌/◌, ◌%◌, ◌^◌, ◌≤◌, ◌<◌, ◌≡◌, ◌≢◌, refl, ap, List, ◌++◌, true, false, some,
  none, bit_and, codes, length, length-append, if_intro, leb, ◌==◌, ltb, ne→==, if◌then◌else◌,
  arith,
}
use c_playground.Common.Int.{ℤ, negsuc}
use c_playground.Common.Bits.{bit_and_low}
use c_playground.Common.Words.{le_bytes}
use c_playground.Relay.Text.{decimal, decimal_int}
use c_playground.Relay.Text.Numbers.{length-digits, digits-length}
use c_playground.Relay.Codec.{
  Input, Data, IsInput, encode, json, printed, load, retrieve_topic, weight_of, short_of, id_of,
  i2s, hex_loop,
}
use c_playground.Relay.Codec.Fields.{
  encode_serial, encode_sum, word_error, word_ip, word_weight, word_block,
}

-- The fixed part of the text has 40 characters.
length-json :
    (serial : ℕ) (topic : List ℕ) (weight : ℤ) (id : List ℕ)
    → length (json serial topic weight id)
      ≡ 40 + length (decimal serial) + length topic + length (decimal_int weight) + length id
unfolding json
length-json serial topic weight id =
    let e = length-append id (codes "\"}") in
    let d = length-append (decimal_int weight) (codes ",\"id\":\"" ++ (id ++ codes "\"}")) in
    let c = length-append topic (
      codes "\",\"weight\":"
      ++ (decimal_int weight ++ (codes ",\"id\":\"" ++ (id ++ codes "\"}")))) in
    let b = length-append (decimal serial) (
      codes ",\"topic\":\""
      ++ (topic
          ++ (codes "\",\"weight\":"
              ++ (decimal_int weight ++ (codes ",\"id\":\"" ++ (id ++ codes "\"}")))))) in
    omega arith

length-i2s : (x : ℕ) → length (i2s x) ≡ 8
unfolding i2s hex_loop le_bytes
length-i2s x = refl

-- The printed text is that of the input's fields.
pub printed-encode :
    (i : Input)
    → IsInput i
    → printed (encode i)
      ≡ json i.serial
          (decimal i.ip)
          (if i.error == 0 then short_of i.weight else negsuc 65534)
          (id_of i.block)
unfolding printed retrieve_topic weight_of
printed-encode i (he, hp, hw, hk, hs) =
    rw
      (
        encode_serial i,
        encode_sum i (he, hp, hw, hk, hs),
        word_error i.error i.ip i.weight i.block he hp hw hk,
        word_ip i.error i.ip i.weight i.block he hp hw hk,
        word_weight i.error i.ip i.weight i.block he hp hw hk,
        word_block i.error i.ip i.weight i.block he hp hw hk,
      )
      refl

length-short : (w : ℕ) → w < 2 ^ 16 → length (decimal_int (short_of w)) ≤ 6
unfolding short_of
length-short w h =
    if_intro (λ (z : ℤ). length (decimal_int z) ≤ 6) (ltb w (2 ^ 15))
      (λ b. omega (arith, length-digits 4 20 w (omega arith) (omega arith)))
      (λ b.
        let n = length-digits 4 20 (suc (2 ^ 16 - 1 - w)) (ground arith) (omega arith) in
        omega arith)

length-weight_of : (x : ℕ) → length (decimal_int (weight_of x)) ≤ 6
unfolding weight_of
length-weight_of x =
    if_intro (λ (z : ℤ). length (decimal_int z) ≤ 6) (x / 2 ^ 56 % 2 ^ 8 == 0)
      (λ _. length-short _ (omega (arith, bit_and_low 16 (x / 2 ^ 32))))
      (λ _. omega (arith, length-digits 4 20 65535 (omega arith) (omega arith)))

length-id_of : (k : ℕ) → length (id_of k) ≤ 8
unfolding id_of
length-id_of k =
    if_intro (λ (s : List ℕ). length s ≤ 8) (k == 0) (λ _. omega arith)
      (λ _. omega (arith, length-i2s k))

length-retrieve_topic : (x : ℕ) → length (retrieve_topic x) ≤ 3
unfolding retrieve_topic
length-retrieve_topic x = length-digits 2 20 (x / 2 ^ 48 % 2 ^ 8) (omega arith) (omega arith)

length-printed : (d : Data) → d.a < 10 ^ 6 → length (printed d) ≤ 63
unfolding printed
length-printed d h = omega (
  arith,
  length-json d.a (retrieve_topic d.b) (weight_of d.b) (id_of (bit_and d.b 0xffffffff)),
  length-digits 5 20 d.a h (omega arith),
  length-retrieve_topic d.b,
  length-weight_of d.b,
  length-id_of (bit_and d.b 0xffffffff),
)

id_length : (k : ℕ) → k ≢ 0 → length (id_of k) ≡ 8
unfolding id_of
id_length k h = rw (ne→== k 0 h) (length-i2s k)

short_enough : (a b : ℕ) → a ≤ b → leb a b ≡ true
short_enough a b h = ground arith

too_long : (a b : ℕ) → b < a → leb a b ≡ false
too_long a b h = ground arith

-- With a serial number below 10^6 the text of any record has at most 63 characters, and `load`
-- answers it, with the topic.
pub load-printed :
    (d : Data)
    → d.a < 10 ^ 6
    → (load d ≡ some (record { payload = printed d; topic = retrieve_topic d.b }))
      × length (printed d) ≤ 63
unfolding load
load-printed d h =
    let short : length (printed d) ≤ 63 = length-printed d h in
    (rw (short_enough (suc (length (printed d))) 64 (omega arith)) refl, short)

-- A record with the error set, a topic of three digits, a block and a serial number of seven digits or
-- more is written past the end of `buf`.
pub load_overrun :
    (i : Input)
    → IsInput i
    → i.error ≢ 0
    → 100 ≤ i.ip
    → i.block ≢ 0
    → 10 ^ 6 ≤ i.serial
    → load (encode i) ≡ none
unfolding load
load_overrun i h e p k s =
    let text = ap length (printed-encode i h) in
    let shown : (if i.error == 0 then short_of i.weight else negsuc 65534) ≡ negsuc 65534 =
      rw (ne→== i.error 0 e) refl in
    let long : 64 ≤ length (printed (encode i)) = omega (
      arith,
      text,
      length-json i.serial (decimal i.ip) (if i.error == 0 then short_of i.weight else negsuc 65534)
          (id_of i.block),
      ap (λ z. length (decimal_int z)) shown,
      digits-length 4 20 65535 (omega arith) (omega arith),
      digits-length 2 20 i.ip (omega arith) (omega arith),
      digits-length 6 20 i.serial (omega arith) (omega arith),
      id_length i.block k,
    ) in
    rw (too_long (suc (length (printed (encode i)))) 64 (omega arith)) refl

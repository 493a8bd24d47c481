-- ===== src/Relay/EndToEnd.antt =====
-- From a datagram that the collector receives to the text that the notifier gives its consumers.
use c_playground.Common.{
  ℕ, ◌^◌, ◌≤◌, ◌<◌, ◌≡◌, refl, ap, ◌∙◌, Option, none, some, List, ◌∷◌, ◌++◌, arith,
}
use c_playground.Common.Int.{ℤ, pos, negsuc}
use c_playground.Common.Words.{IsInt}
use c_playground.Relay.Text.{decimal, decimal_int, low_bits}
use c_playground.Relay.Text.Numbers.{IsShort}
use c_playground.Relay.Codec.{
  Input, Output, IsInput, encode, group_input, json, printed, load, retrieve_topic, short_of, id_of,
}
use c_playground.Relay.Codec.Fields.{encode_serial, encode_sum, word_ip}
use c_playground.Relay.Codec.Parse.{message, group_input-message}
use c_playground.Relay.Codec.Buffer.{printed-encode, load-printed}
use c_playground.Relay.Secure.{encrypt, decrypt, data_bytes, bytes_data}
use c_playground.Relay.Secure.RoundTrip.{IsData, decrypt-encrypt, bytes_data-data_bytes}

-- The frame that `HandleGroupMsg` adds, with the mask that is drawn for it.
unfoldable pub group_frame : (mask : ℕ) (ip buf : List ℕ) → List ℕ
group_frame mask ip buf = encrypt mask (data_bytes (encode (group_input ip buf)))

unfoldable pub load_record : Option (List ℕ) → Option Output
load_record none = none
load_record (some x) = load (bytes_data x)

-- What the relay's side makes of a frame: `Decrypt`, and `Decode` of the record.
unfoldable pub frame_output : List ℕ → Option Output
frame_output buf = load_record (decrypt 12 buf)

short_back : (z : ℤ) → IsShort z → short_of (low_bits 16 z) ≡ z
unfolding short_of low_bits
short_back (pos n) h = ground arith
short_back (negsuc n) h = ground arith

low_bound : (k : ℕ) (z : ℤ) → 1 ≤ 2 ^ k → low_bits k z < 2 ^ k
unfolding low_bits
low_bound k (pos n) h = omega arith
low_bound k (negsuc n) h = omega arith

encode-IsData : (i : Input) → IsInput i → IsData (encode i)
encode-IsData i (he, hp, hw, hk, hs) =
    (omega (arith, encode_serial i), omega (arith, encode_sum i (he, hp, hw, hk, hs)))

retrieve_topic-encode : (i : Input) → IsInput i → retrieve_topic (encode i).b ≡ decimal i.ip
unfolding retrieve_topic
retrieve_topic-encode i (he, hp, hw, hk, hs) =
    rw (encode_sum i (he, hp, hw, hk, hs), word_ip i.error i.ip i.weight i.block he hp hw hk) refl

-- The output of the frame of an input, when its serial number has at most six digits.
frame_output-encode :
    (mask : ℕ) (i : Input)
    → IsInput i
    → i.serial < 10 ^ 6
    → frame_output (encrypt mask (data_bytes (encode i)))
      ≡ some (record { payload = printed (encode i); topic = decimal i.ip })
unfolding frame_output load_record
frame_output-encode mask i h s =
    ap load_record (decrypt-encrypt mask (encode i))
    ∙ ap load (bytes_data-data_bytes (encode i) (encode-IsData i h))
    ∙ (load-printed (encode i) (omega (arith, encode_serial i))).0
    ∙ ap (λ t. some (record { payload = printed (encode i); topic = t }))
        (retrieve_topic-encode i h)

module _ (mask : ℕ) (p : List ℕ) (w serial : ℕ) (block z : ℤ) where
  abbrev seen : Input
  seen = record {
    error = 0;
    ip = w;
    weight = low_bits 16 z;
    block = low_bits 32 block;
    serial = serial;
  }

  -- A datagram `serial@block@weight` from the address `p.w`, its serial number of at most six digits,
  -- its block an `int` and its weight within 16 bits, reaches the relay's side of the connection,
  -- whatever mask was drawn, as the topic `w` and the text of these numbers, the block in hexadecimal, or NONE for
  -- a block of 0.
  pub frame_output-group_frame :
      w < 256
      → serial < 10 ^ 6
      → IsInt block
      → IsShort z
      → frame_output
          (group_frame mask (p ++ b'.' ∷ decimal w) (message serial block (decimal_int z)))
        ≡ some (record {
          payload = json serial (decimal w) z (id_of (low_bits 32 block));
          topic = decimal w;
        })
  unfolding group_frame
  frame_output-group_frame hw hs hb hz =
      let seen-IsInput : IsInput seen = (
        omega arith,
        hw,
        low_bound 16 z (omega arith),
        low_bound 32 block (omega arith),
        omega arith,
      ) in
      ap (λ i. frame_output (encrypt mask (data_bytes (encode i))))
        (group_input-message p w serial block hw (omega arith) hb z hz)
      ∙ frame_output-encode mask seen seen-IsInput hs
      ∙ ap (λ t. some (record { payload = t; topic = decimal w }))
          (printed-encode seen seen-IsInput
            ∙ ap (λ x. json serial (decimal w) x (id_of (low_bits 32 block))) (short_back z hz))

-- ===== src/Relay/Tests.antt =====
-- Concrete runs of the relay's parts.
use c_playground.Common.{ℕ, ◌≤◌, ◌≡◌, refl, none, some, ◌∷◌, ◌++◌, codes, length, arith}
use c_playground.Common.Int.{pos, negsuc}
use c_playground.Relay.Text.{
  decimal, decimal_int, low_bits, behind_first, behind_last, has_prefix, digit_run, skip_blanks,
  signed_run,
}
use c_playground.Relay.Codec.{
  Input, Data, encode, json, id_of, load, printed, retrieve_topic, ip_from, parse_ip, weight_from,
  parse_weight, block_from, parse_block, parse_serial, group_input,
}
use c_playground.Relay.Codec.Parse.{message}
use c_playground.Relay.Codec.Buffer.{load-printed, load_overrun}
use c_playground.Relay.EndToEnd.{group_frame, frame_output, frame_output-group_frame}

mask : ℕ
mask = 77

-- "12@179@-345" from 192.168.10.182 reaches the consumers of topic 182.
frame_output-group_frame_example :
    frame_output (
      group_frame mask
        (codes "192.168.10" ++ b'.' ∷ decimal 182)
        (message 12 (pos 179) (decimal_int (negsuc 344))))
    ≡ some (record {
      payload = json 12 (decimal 182) (negsuc 344) (id_of (low_bits 32 (pos 179)));
      topic = decimal 182;
    })
frame_output-group_frame_example =
    frame_output-group_frame mask (codes "192.168.10") 182 12 (pos 179) (negsuc 344) (omega arith)
      (omega arith) (omega arith) (omega arith)

-- What is read from the same datagram, and the text.
read_datagram :
    group_input (codes "192.168.10.182") (codes "12@179@-345")
    ≡ record { error = 0; ip = 182; weight = 65191; block = 179; serial = 12 }
unfolding group_input parse_ip parse_weight parse_block parse_serial ip_from weight_from block_from
    behind_first behind_last has_prefix digit_run skip_blanks signed_run low_bits
read_datagram = refl

read_bad_datagram :
    group_input (codes "192.168.10.182") (codes " +7@-1@-65535x")
    ≡ record { error = 1; ip = 182; weight = 65535; block = 4294967295; serial = 7 }
unfolding group_input parse_ip parse_weight parse_block parse_serial ip_from weight_from block_from
    behind_first behind_last has_prefix digit_run skip_blanks signed_run low_bits
read_bad_datagram = refl

abbrev long_input : Input
long_input = record { error = 1; ip = 182; weight = 0xffff; block = 179; serial = 1000000 }

load_overrun_example : load (encode long_input) ≡ none
load_overrun_example =
    load_overrun long_input (omega arith, omega arith, omega arith, omega arith, omega arith)
      (omega arith) (omega arith) (omega arith) (omega arith)

abbrev short_data : Data
short_data = record { a = 12; b = 179 }

load-printed_example :
    (load short_data ≡ some (record { payload = printed short_data; topic = retrieve_topic 179 }))
    × length (printed short_data) ≤ 63
load-printed_example = load-printed short_data (omega arith)

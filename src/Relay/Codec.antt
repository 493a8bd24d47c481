-- ===== src/Relay/Codec.antt =====
-- The packet format: codec.h and codec.cpp, from a group message to the record and to the JSON text.
pub mod Fields
pub mod Parse
pub mod Buffer
use c_playground.Common.{
  ℕ, zero, suc, ◌+◌, ◌-◌, ◌*◌, ◌/◌, ◌%◌, ◌^◌, ◌<◌, bit_and, bit_or, Bool, true, false, Option, none,
  some, List, [], ◌∷◌, ◌++◌, leb, ltb, ◌==◌, if◌then◌else◌, codes, length, get_or,
}
use c_playground.Common.Int.{ℤ, pos, negsuc}
use c_playground.Common.Words.{le_bytes}
use c_playground.Relay.Text.{
  behind_first, behind_last, has_prefix, strtol, strtoull, low_bits, decimal, decimal_int,
}

pub record Data : Type 0 where
  pub a : ℕ
  pub b : ℕ

pub record Input : Type 0 where
  pub error : ℕ
  pub ip : ℕ
  pub weight : ℕ
  pub block : ℕ
  pub serial : ℕ

pub record Output : Type 0 where
  pub payload : List ℕ
  pub topic : List ℕ

abbrev pub blank_input : Input
blank_input = record { error = 0; ip = 0; weight = 0; block = 0; serial = 0 }

-- The values the fields' types have.
abbrev pub IsInput : Input → Type 0
IsInput i =
    i.error < 2 ^ 8 × i.ip < 2 ^ 8 × i.weight < 2 ^ 16 × i.block < 2 ^ 32 × i.serial < 2 ^ 32

abbrev pub at_sign : ℕ
at_sign = b'@'

abbrev pub bad : List ℕ
bad = codes "-65535"

unfoldable pub ip_from : Option (List ℕ) → Input → Input
ip_from none i = i
ip_from (some s) i = record i { ip = bit_and (low_bits 32 (strtol s)) 0xff }

unfoldable pub parse_ip : List ℕ → Input → Input
parse_ip text = ip_from (behind_last b'.' text)

unfoldable pub weight_from : Option (List ℕ) → Input → Input
weight_from none i = i
weight_from (some s) i =
    if has_prefix bad s
    then record i { error = 1; weight = 0xffff }
    else record i { weight = bit_and (low_bits 32 (strtol s)) 0xffff }

unfoldable pub parse_weight : List ℕ → Input → Input
parse_weight text = weight_from (behind_last at_sign text)

unfoldable pub block_from : Option (List ℕ) → Input → Input
block_from none i = i
block_from (some s) i = record i { block = low_bits 32 (strtol s) }

unfoldable pub parse_block : List ℕ → Input → Input
parse_block text = block_from (behind_first at_sign text)

unfoldable pub parse_serial : List ℕ → Input → Input
parse_serial text i = record i { serial = strtoull text % 2 ^ 32 }

-- The input that `HandleGroupMsg` reads from the sender's address and from the datagram.
unfoldable pub group_input : (ip buf : List ℕ) → Input
group_input ip buf = parse_serial buf (parse_block buf (parse_weight buf (parse_ip ip blank_input)))

-- A shift to the left in 64 bits.
abbrev pub shl : ℕ → ℕ → ℕ
shl x k = (x * 2 ^ k) % 2 ^ 64

unfoldable pub encode : Input → Data
encode i = record {
  a = i.serial;
  b = bit_or (bit_or (bit_or (shl i.error 56) (shl i.ip 48)) (shl i.weight 32)) i.block;
}

-- "0123456789ABCDEF"
abbrev pub hex_digits : List ℕ
hex_digits = codes "0123456789ABCDEF"

-- The two digits of each byte, written from the back of the buffer to its front.
unfoldable pub hex_loop : List ℕ → List ℕ → List ℕ
hex_loop [] done = done
hex_loop (i ∷ p) done =
    hex_loop p
      (get_or hex_digits (bit_and (i / 2 ^ 4) 0xf) 0 ∷ get_or hex_digits (bit_and i 0xf) 0 ∷ done)

unfoldable pub i2s : ℕ → List ℕ
i2s x = hex_loop (le_bytes 4 x) []

unfoldable pub retrieve_topic : ℕ → List ℕ
retrieve_topic x = decimal (x / 2 ^ 48 % 2 ^ 8)

-- The bits of a `short`.
unfoldable pub short_of : ℕ → ℤ
short_of w = if ltb w (2 ^ 15) then pos w else negsuc (2 ^ 16 - 1 - w)

unfoldable pub weight_of : ℕ → ℤ
weight_of x =
    if x / 2 ^ 56 % 2 ^ 8 == 0 then short_of (bit_and (x / 2 ^ 32) 0xffff) else negsuc 65534

unfoldable pub id_of : ℕ → List ℕ
id_of block = if block == 0 then codes "NONE" else i2s block

unfoldable pub json : ℕ → List ℕ → ℤ → List ℕ → List ℕ
json serial topic weight id =
    codes "{\"serial\":"
    ++ (decimal serial
        ++ (codes ",\"topic\":\""
            ++ (topic
                ++ (codes "\",\"weight\":"
                    ++ (decimal_int weight ++ (codes ",\"id\":\"" ++ (id ++ codes "\"}")))))))

-- What the `sprintf` of `load` writes, less the NUL.
unfoldable pub printed : Data → List ℕ
printed d = json d.a (retrieve_topic d.b) (weight_of d.b) (id_of (bit_and d.b 0xffffffff))

-- `load`; nothing, when the text and its NUL do not fit the 64 bytes of `buf`.
unfoldable pub load : Data → Option Output
load d =
    if leb (suc (length (printed d))) 64
    then some (record { payload = printed d; topic = retrieve_topic d.b })
    else none

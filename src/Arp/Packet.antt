-- ===== src/Arp/Packet.antt =====
-- socket/arp-demo.c: the request that is built, the reply that is read, and addresses in hexadecimal.
use c_playground.Common.{ℕ, ◌+◌, ◌-◌, ◌*◌, ◌/◌, ◌%◌, ◌≡◌, refl}
use c_playground.Common.{
  List, [], ◌∷◌, ◌++◌, Option, none, some, Bool, ◌||◌, ◌&&◌, ltb, ◌==◌, if◌then◌else◌, length,
  get_or, take, drop, replicate,
}

-- `unsigned char[MAC_LENGTH]`
pub record Mac : Type 0 where
  pub m0 : ℕ
  pub m1 : ℕ
  pub m2 : ℕ
  pub m3 : ℕ
  pub m4 : ℕ
  pub m5 : ℕ

-- `uint32_t` in network order, by its bytes in memory.
pub record Ip : Type 0 where
  pub i0 : ℕ
  pub i1 : ℕ
  pub i2 : ℕ
  pub i3 : ℕ

abbrev pub mac_bytes : Mac → List ℕ
mac_bytes m = m.m0 ∷ m.m1 ∷ m.m2 ∷ m.m3 ∷ m.m4 ∷ m.m5 ∷ []

abbrev pub ip_bytes : Ip → List ℕ
ip_bytes a = a.i0 ∷ a.i1 ∷ a.i2 ∷ a.i3 ∷ []

-- `dst == 0 || dst == 0xffffffff`
unfoldable pub is_invalid : Ip → Bool
is_invalid a =
    (a.i0 == 0 && a.i1 == 0 && a.i2 == 0 && a.i3 == 0)
    || (a.i0 == 255 && a.i1 == 255 && a.i2 == 255 && a.i3 == 255)

-- `memcpy(buffer + at, bytes, n)` inside of the buffer.
unfoldable pub copy_to : List ℕ → ℕ → List ℕ → List ℕ
copy_to buffer at bytes = take at buffer ++ bytes ++ drop (at + length bytes) buffer

-- `*(unsigned short*)(buffer + at) = htons(x)`
unfoldable pub store_short : List ℕ → ℕ → ℕ → List ℕ
unfolding copy_to
store_short buffer at x = copy_to buffer at (x / 256 % 256 ∷ x % 256 ∷ [])

-- `ntohs(*(unsigned short*)(buffer + at))`
unfoldable pub load_short : List ℕ → ℕ → ℕ
load_short buffer at = get_or buffer at 0 * 256 + get_or buffer (at + 1) 0

-- The offsets of the members of `struct ethhdr`, and of `struct arp_header` behind it.
abbrev h_dest : ℕ
h_dest = 0

abbrev h_source : ℕ
h_source = 6

abbrev h_proto : ℕ
h_proto = 12

abbrev hardware_type : ℕ
hardware_type = 14

abbrev protocol_type : ℕ
protocol_type = 16

abbrev hardware_len : ℕ
hardware_len = 18

abbrev protocol_len : ℕ
protocol_len = 19

abbrev opcode : ℕ
opcode = 20

abbrev sender_mac : ℕ
sender_mac = 22

abbrev sender_ip : ℕ
sender_ip = 28

abbrev target_mac : ℕ
target_mac = 32

abbrev target_ip : ℕ
target_ip = 38

-- The buffer of `send_arp` after `memset` and the stores.
unfoldable pub arp_buffer : Mac → Ip → Ip → List ℕ
unfolding copy_to store_short
arp_buffer mac src dst =
    let b0 : List ℕ = replicate 60 0 in
    let b1 : List ℕ = copy_to b0 h_dest (replicate 6 255) in
    let b2 : List ℕ = copy_to b1 target_mac (replicate 6 0) in
    let b3 : List ℕ = copy_to b2 h_source (mac_bytes mac) in
    let b4 : List ℕ = copy_to b3 sender_mac (mac_bytes mac) in
    let b5 : List ℕ = store_short b4 h_proto 0x0806 in
    let b6 : List ℕ = store_short b5 hardware_type 1 in
    let b7 : List ℕ = store_short b6 protocol_type 0x0800 in
    let b8 : List ℕ = copy_to b7 hardware_len (6 ∷ []) in
    let b9 : List ℕ = copy_to b8 protocol_len (4 ∷ []) in
    let b10 : List ℕ = store_short b9 opcode 1 in
    let b11 : List ℕ = copy_to b10 sender_ip (ip_bytes src) in copy_to b11 target_ip (ip_bytes dst)

-- The bytes that `send_arp` gives to `sendto`.
unfoldable pub arp_packet : Mac → Ip → Ip → List ℕ
unfolding arp_buffer
arp_packet mac src dst = take 42 (arp_buffer mac src dst)

unfoldable pub load_mac : List ℕ → ℕ → Mac
load_mac b at = record {
  m0 = get_or b at 0;
  m1 = get_or b (at + 1) 0;
  m2 = get_or b (at + 2) 0;
  m3 = get_or b (at + 3) 0;
  m4 = get_or b (at + 4) 0;
  m5 = get_or b (at + 5) 0;
}

unfoldable pub load_ip : List ℕ → ℕ → Ip
load_ip b at = record {
  i0 = get_or b at 0;
  i1 = get_or b (at + 1) 0;
  i2 = get_or b (at + 2) 0;
  i3 = get_or b (at + 3) 0;
}

-- What `read_arp` prints of a reply.
pub record Report : Type 0 where
  pub from_ip : Ip
  pub from_mac : Mac
  pub to_ip : Ip
  pub to_mac : Mac

unfoldable pub read_buffer : List ℕ → Option Report
unfolding load_short load_mac load_ip
read_buffer b =
    if load_short b h_proto == 0x0806
    then (if load_short b opcode == 2
        then some (record {
          from_ip = load_ip b sender_ip;
          from_mac = load_mac b sender_mac;
          to_ip = load_ip b target_ip;
          to_mac = load_mac b target_mac;
        })
        else none)
    else none

-- `read_arp`: the answer of `recvfrom` is stored over the old content of the buffer.
unfoldable pub read_arp : List ℕ → Option (List ℕ) → Option Report
unfolding read_buffer copy_to
read_arp stack none = none
read_arp stack (some datagram) = read_buffer (copy_to stack 0 (take 60 datagram))

-- `%02X`
unfoldable pub hex_digit : ℕ → ℕ
hex_digit d = if ltb d 10 then b'0' + d else b'A' + (d - 10)

unfoldable pub format_byte : ℕ → List ℕ
unfolding hex_digit
format_byte b = hex_digit (b / 16) ∷ hex_digit (b % 16) ∷ []

unfoldable pub format_mac : Mac → List ℕ
unfolding format_byte
format_mac m =
    format_byte m.m0
    ++ b':' ∷ format_byte m.m1
    ++ b':' ∷ format_byte m.m2
    ++ b':' ∷ format_byte m.m3
    ++ b':' ∷ format_byte m.m4
    ++ b':' ∷ format_byte m.m5

-- The request is an Ethernet broadcast from `mac` of an ARP message for Ethernet and IPv4: a request
-- from `mac` and `src` to `dst`, with the target's hardware address left zero.
pub arp_packet_fields :
    (mac : Mac) (src dst : Ip)
    → arp_packet mac src dst
      ≡ replicate 6 255
        ++ mac_bytes mac
        ++ (8 ∷ 6 ∷ [])
        ++ (0 ∷ 1 ∷ 8 ∷ 0 ∷ 6 ∷ 4 ∷ 0 ∷ 1 ∷ [])
        ++ mac_bytes mac
        ++ ip_bytes src
        ++ replicate 6 0
        ++ ip_bytes dst
unfolding arp_packet
arp_packet_fields mac src dst = refl

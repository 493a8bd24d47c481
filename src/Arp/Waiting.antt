-- ===== src/Arp/Waiting.antt =====
-- Which datagrams `read_arp` takes as a reply, and that the wait ends at the first reply.
use c_playground.Common.{
  ℕ, zero, suc, ◌+◌, ◌-◌, ◌/◌, ◌%◌, ◌*◌, ◌<◌, ◌≡◌, ◌≢◌, ne→==, Option, refl, sym, ap, ◌∙◌, arith,
  List, [], ◌∷◌, ◌++◌, none, some, ltb, if◌then◌else◌, get_or,
}
use c_playground.Arp.Packet.{
  Mac, Ip, mac_bytes, ip_bytes, arp_packet, read_arp, format_mac, hex_digit,
}
use c_playground.Arp.{Fd, Event, received, Kernel, wait_reply}
use c_playground.Arp.Descriptors.{wait_reply_step, wait_reply_end}

-- The reply of a host with `mac` and `src` to `to_mac` and `dst`: an Ethernet frame for the latter.
abbrev pub reply_packet : Mac → Ip → Mac → Ip → List ℕ
reply_packet mac src to_mac dst =
    mac_bytes to_mac
    ++ mac_bytes mac
    ++ (8 ∷ 6 ∷ [])
    ++ (0 ∷ 1 ∷ 8 ∷ 0 ∷ 6 ∷ 4 ∷ 0 ∷ 2 ∷ [])
    ++ mac_bytes mac
    ++ ip_bytes src
    ++ mac_bytes to_mac
    ++ ip_bytes dst

-- A reply, whatever padding follows it, is read, with the addresses of its sender and its target.
pub read_arp-reply_packet :
    (mac : Mac) (src : Ip) (to_mac : Mac) (dst : Ip) (padding stack : List ℕ)
    → read_arp stack (some (reply_packet mac src to_mac dst ++ padding))
      ≡ some (record { from_ip = src; from_mac = mac; to_ip = dst; to_mac = to_mac })
unfolding read_arp
read_arp-reply_packet mac src to_mac dst padding stack = refl

-- The program's own request, whatever padding follows it, is not taken as a reply.
pub read_arp-arp_packet :
    (mac : Mac) (src dst : Ip) (padding stack : List ℕ)
    → read_arp stack (some (arp_packet mac src dst ++ padding)) ≡ none
unfolding read_arp arp_packet
read_arp-arp_packet mac src dst padding stack = refl

-- A datagram without bytes is read as the reply that the buffer held before, if it did.
pub read_arp_stale :
    (mac : Mac) (src : Ip) (to_mac : Mac) (dst : Ip) (stack : List ℕ)
    → read_arp (reply_packet mac src to_mac dst ++ stack) (some [])
      ≡ some (record { from_ip = src; from_mac = mac; to_ip = dst; to_mac = to_mac })
unfolding read_arp
read_arp_stale mac src to_mac dst stack = refl

-- The calls after `n` further receptions.
abbrev pub after : ℕ → Fd → List Event → List Event
after zero fd t = t
after (suc n) fd t = after n fd (received fd ∷ t)

-- What the wait passes over: a reception that failed, a frame of another protocol than ARP, and an ARP
-- message that is no reply. The frames have the bytes that are tested.
pub data Ignored : Option (List ℕ) → Type 0 where
  failed : Ignored none
  other_protocol :
      (to from : Mac) (p q : ℕ) (rest : List ℕ)
      → p * 256 + q ≢ 0x0806
      → Ignored (some (mac_bytes to ++ mac_bytes from ++ (p ∷ q ∷ rest)))
  no_reply :
      (to from types : Mac) (p q : ℕ) (rest : List ℕ)
      → p * 256 + q ≢ 2
      → Ignored (
          some
            (mac_bytes to ++ mac_bytes from ++ (8 ∷ 6 ∷ []) ++ mac_bytes types ++ (p ∷ q ∷ rest)))

read_arp-Ignored : (stack : List ℕ) (d : Option (List ℕ)) → Ignored d → read_arp stack d ≡ none
unfolding read_arp
read_arp-Ignored stack d failed = refl
read_arp-Ignored stack d (other_protocol to from p q rest h) =
    rw (ne→== (p * 256 + q) 0x0806 h) refl
read_arp-Ignored stack d (no_reply to from types p q rest h) = rw (ne→== (p * 256 + q) 2 h) refl

-- With fuel for more than `n` receptions, when the first `n` fail or give frames of another protocol
-- or ARP messages with another opcode than that of a reply, with the bytes that are tested in each, and the next gives the reply of a host, with
-- any padding: the wait ends with the addresses of that host and of its target, after exactly these receptions.
pub wait_reply-first :
    (n fuel : ℕ) (k : Kernel) (fd : Fd) (t : List Event)
    → (mac : Mac) (src : Ip) (to_mac : Mac) (dst : Ip) (padding : List ℕ)
    → ((i : ℕ) → i < n → Ignored (k.receive (after i fd t) fd))
    → k.receive (after n fd t) fd ≡ some (reply_packet mac src to_mac dst ++ padding)
    → n < fuel
    → wait_reply fuel k fd t
      ≡ some (
        record { from_ip = src; from_mac = mac; to_ip = dst; to_mac = to_mac },
        received fd ∷ after n fd t,
      )
wait_reply-first n zero k fd t mac src to_mac dst padding silent reply h = absurd (omega arith)
wait_reply-first zero (suc fuel) k fd t mac src to_mac dst padding silent reply h =
    wait_reply_end fuel k fd t _ (
      ap (read_arp (k.stack t)) reply
      ∙ read_arp-reply_packet mac src to_mac dst padding (k.stack t))
wait_reply-first (suc n) (suc fuel) k fd t mac src to_mac dst padding silent reply h =
    wait_reply_step fuel k fd t
      (read_arp-Ignored (k.stack t) (k.receive t fd) (silent 0 (omega arith)))
    ∙ wait_reply-first n fuel k fd (received fd ∷ t) mac src to_mac dst padding
        (λ i l. silent (suc i) (omega arith)) reply (omega arith)

-- The value of a hexadecimal digit.
digit_value : ℕ → ℕ
digit_value c = if ltb c b'A' then c - b'0' else c - b'A' + 10

digit_value-hex_digit : (d : ℕ) → d < 16 → digit_value (hex_digit d) ≡ d
unfolding digit_value hex_digit
digit_value-hex_digit d h = ground arith

hex_digit-injective : (d e : ℕ) → d < 16 → e < 16 → hex_digit d ≡ hex_digit e → d ≡ e
hex_digit-injective d e h k s =
    sym (digit_value-hex_digit d h) ∙ ap digit_value s ∙ digit_value-hex_digit e k

format_byte-injective :
    (b c : ℕ)
    → b < 256
    → c < 256
    → hex_digit (b / 16) ≡ hex_digit (c / 16)
    → hex_digit (b % 16) ≡ hex_digit (c % 16)
    → b ≡ c
format_byte-injective b c h k high low =
    let p = hex_digit-injective (b / 16) (c / 16) (omega arith) (omega arith) high in
    let q = hex_digit-injective (b % 16) (c % 16) (omega arith) (omega arith) low in omega arith

abbrev pub IsMac : Mac → Type 0
IsMac m = (m.m0 < 256) × (m.m1 < 256) × (m.m2 < 256) × (m.m3 < 256) × (m.m4 < 256) × (m.m5 < 256)

mac_ext :
    (m n : Mac)
    → m.m0 ≡ n.m0
    → m.m1 ≡ n.m1
    → m.m2 ≡ n.m2
    → m.m3 ≡ n.m3
    → m.m4 ≡ n.m4
    → m.m5 ≡ n.m5
    → m ≡ n
mac_ext m n a b c d e f = λ i. record { m0 = a i; m1 = b i; m2 = c i; m3 = d i; m4 = e i; m5 = f i }

-- Addresses of bytes that are printed alike are the same.
pub format_mac-injective : (m n : Mac) → IsMac m → IsMac n → format_mac m ≡ format_mac n → m ≡ n
unfolding format_mac
format_mac-injective m n (h0, h1, h2, h3, h4, h5) (k0, k1, k2, k3, k4, k5) e =
    mac_ext m n (format_byte-injective _ _ h0 k0 (at 0) (at 1))
      (format_byte-injective _ _ h1 k1 (at 3) (at 4))
      (format_byte-injective _ _ h2 k2 (at 6) (at 7))
      (format_byte-injective _ _ h3 k3 (at 9) (at 10))
      (format_byte-injective _ _ h4 k4 (at 12) (at 13))
      (format_byte-injective _ _ h5 k5 (at 15) (at 16))
  where
    at : (i : ℕ) → get_or (format_mac m) i 0 ≡ get_or (format_mac n) i 0
    at i = ap (λ s. get_or s i 0) e

-- ===== src/Arp.antt =====
-- socket/arp-demo.c: the interface queries, the descriptors, and the wait for a reply. What the kernel
-- answers is a parameter, a function of the calls made before; the calls are kept, the latest first.
pub mod Packet
pub mod Descriptors
pub mod Waiting
mod Tests
use c_playground.Common.{
  ℕ, zero, suc, ◌+◌, List, [], ◌∷◌, Option, none, some, Bool, true, false, length, leb, ◌==◌, ◌||◌,
  if◌then◌else◌,
}
use c_playground.Common.Int.{ℤ, pos, negsuc}
use c_playground.Arp.Packet.{Mac, Ip, arp_packet, read_arp, is_invalid, Report}

-- A descriptor as the calls return it; `none` is -1.
abbrev pub Fd : Type 0
Fd = Option ℕ

-- The calls that the program makes.
pub data Event : Type 0 where
  opened : Fd → Event
  queried : ℕ → Event
  bound : ℕ → Event
  sent : Fd → List ℕ → Event
  received : Fd → Event
  closed : Fd → Event

-- The kernel: `socket`, the three `ioctl`s (a family and an address for the last), `bind`, `sendto` and
-- `recvfrom`; and what two places of the stack hold that nothing was stored in: the buffer of `read_arp`, and
-- `arp_fd` of `test_arping` where it is read behind a failing `get_if_info`.
pub record Kernel : Type 0 where
  pub socket : List Event → Fd
  pub if_index : List Event → ℕ → List ℕ → Option ℤ
  pub if_hwaddr : List Event → ℕ → List ℕ → Option Mac
  pub if_addr : List Event → ℕ → List ℕ → Option (ℕ × Ip)
  pub bind : List Event → ℕ → ℤ → Bool
  pub send : List Event → Fd → ℤ → List ℕ → Bool
  pub receive : List Event → Fd → Option (List ℕ)
  pub stack : List Event → List ℕ
  pub stack_fd : List Event → Fd

-- `AF_INET` and `IFNAMSIZ` of the system's headers.
abbrev af_inet : ℕ
af_inet = 2

abbrev if_name_size : ℕ
if_name_size = 16

-- `int_ip4`: the address, if it is one of IPv4.
unfoldable pub int_ip4 : ℕ × Ip → Option Ip
int_ip4 (family, ip) = if family == af_inet then some ip else none

-- `get_if_ip4` from the answer to SIOCGIFADDR on.
unfoldable pub answer_ip4 : Option (ℕ × Ip) → Option Ip
unfolding int_ip4
answer_ip4 none = none
answer_ip4 (some addr) = int_ip4 addr

-- `get_if_ip4`; its result, and the calls made.
unfoldable pub get_if_ip4 : Kernel → ℕ → List ℕ → List Event → Option Ip × List Event
unfolding answer_ip4
get_if_ip4 k fd name t =
    if leb if_name_size (length name)
    then (none, t)
    else (answer_ip4 (k.if_addr t fd name), queried fd ∷ t)

-- What `get_if_info` writes out.
pub record Info : Type 0 where
  pub index : ℤ
  pub mac : Mac
  pub ip : Ip

unfoldable pub with_ip : ℤ → Mac → Option Ip → Option Info
with_ip i m none = none
with_ip i m (some a) = some (record { index = i; mac = m; ip = a })

-- `get_if_info` from the answer to SIOCGIFHWADDR on.
unfoldable pub info_hwaddr :
    Kernel → ℕ → List ℕ → ℤ → Option Mac → List Event → Option Info × List Event
unfolding with_ip get_if_ip4
info_hwaddr k fd name i none t = (none, t)
info_hwaddr k fd name i (some m) t =
    let (found, t') = get_if_ip4 k fd name t in (with_ip i m found, t')

-- From the answer to SIOCGIFINDEX on.
unfoldable pub info_index : Kernel → ℕ → List ℕ → Option ℤ → List Event → Option Info × List Event
unfolding info_hwaddr
info_index k fd name none t = (none, t)
info_index k fd name (some i) t = info_hwaddr k fd name i (k.if_hwaddr t fd name) (queried fd ∷ t)

-- From the test of the name on.
unfoldable pub info_query : Kernel → ℕ → List ℕ → List Event → Option Info × List Event
unfolding info_index
info_query k fd name t =
    if leb if_name_size (length name)
    then (none, t)
    else info_index k fd name (k.if_index t fd name) (queried fd ∷ t)

-- From the socket on, with the label `out`.
unfoldable pub info_socket : Kernel → List ℕ → Fd → List Event → Option Info × List Event
unfolding info_query
info_socket k name none t = (none, t)
info_socket k name (some zero) t = (none, t)
info_socket k name (some (suc n)) t =
    let (found, t') = info_query k (suc n) name t in (found, closed (some (suc n)) ∷ t')

unfoldable pub get_if_info : Kernel → List ℕ → List Event → Option Info × List Event
unfolding info_socket
get_if_info k name t = info_socket k name (k.socket t) (opened (k.socket t) ∷ t)

-- `bind_arp` from its socket on: whether it returns 0, and the calls made.
unfoldable pub bind_socket : Kernel → ℤ → Fd → List Event → Bool × List Event
bind_socket k i none t = (false, t)
bind_socket k i (some zero) t = (false, t)
bind_socket k i (some (suc n)) t =
    if k.bind t (suc n) i
    then (true, bound (suc n) ∷ t)
    else (false, closed (some (suc n)) ∷ bound (suc n) ∷ t)

-- `bind_arp`: the descriptor that it writes out comes first.
unfoldable pub bind_arp : Kernel → ℤ → List Event → Fd × (Bool × List Event)
unfolding bind_socket
bind_arp k i t = (k.socket t, bind_socket k i (k.socket t) (opened (k.socket t) ∷ t))

-- `send_arp`: 42 bytes of the buffer are sent.
unfoldable pub send_arp : Kernel → Fd → Info → Ip → List Event → Bool × List Event
send_arp k fd info dst t =
    let packet : List ℕ = arp_packet info.mac info.ip dst in
    (k.send t fd info.index packet, sent fd packet ∷ t)

-- The test of `read_arp`'s status in the loop: leave it, or go on.
unfoldable pub unless_reply :
    Option Report → List Event → Option (Report × List Event) → Option (Report × List Event)
unless_reply none t rest = rest
unless_reply (some report) t rest = some (report, t)

-- The loop of `test_arping`; `none` when the fuel is spent without a reply.
unfoldable pub wait_reply : ℕ → Kernel → Fd → List Event → Option (Report × List Event)
unfolding unless_reply
wait_reply zero k fd t = none
wait_reply (suc fuel) k fd t =
    let rest = wait_reply fuel k fd (received fd ∷ t) in
    unless_reply (read_arp (k.stack t) (k.receive t fd)) (received fd ∷ t) rest

-- How `test_arping` ends: with a status, or not yet.
pub data Ending : Type 0 where
  returned : ℤ → List Event → Ending
  waiting : Ending

-- The label `out` of `test_arping`.
unfoldable pub close_arp : Fd → List Event → List Event
close_arp (some zero) t = t
close_arp none t = closed none ∷ t
close_arp (some (suc n)) t = closed (some (suc n)) ∷ t

unfoldable pub after_wait : Fd → Option (Report × List Event) → Ending
unfolding close_arp
after_wait fd none = waiting
after_wait fd (some (report, t)) = returned (pos 0) (close_arp fd t)

unfoldable pub after_send : ℕ → Kernel → Fd → Bool × List Event → Ending
unfolding after_wait
after_send fuel k fd (false, t) = returned (negsuc 0) (close_arp fd t)
after_send fuel k fd (true, t) = after_wait fd (wait_reply fuel k fd t)

unfoldable pub after_bind : ℕ → Kernel → Info → Ip → Fd → Bool × List Event → Ending
unfolding after_send
after_bind fuel k info dst fd (false, t) = returned (negsuc 0) (close_arp fd t)
after_bind fuel k info dst fd (true, t) = after_send fuel k fd (send_arp k fd info dst t)

-- When `get_if_info` fails the label is reached with whatever `arp_fd` holds.
unfoldable pub after_info : ℕ → Kernel → Ip → Option Info × List Event → Ending
unfolding after_bind close_arp
after_info fuel k dst (none, t) = returned (negsuc 0) (close_arp (k.stack_fd t) t)
after_info fuel k dst (some info, t) =
    let (fd, bind) = bind_arp k info.index t in after_bind fuel k info dst fd bind

-- `test_arping` on the bytes `inet_addr` gives for the address.
unfoldable pub test_arping : ℕ → Kernel → List ℕ → Ip → Ending
unfolding after_info
test_arping fuel k name dst =
    if is_invalid dst then returned (pos 1) [] else after_info fuel k dst (get_if_info k name [])

-- `main` with the interface and the address, if there are two arguments.
unfoldable pub main : (List ℕ → Ip) → ℕ → Kernel → Option (List ℕ × List ℕ) → Ending
main inet_addr fuel k none = returned (pos 1) []
main inet_addr fuel k (some (name, ip)) = test_arping fuel k name (inet_addr ip)

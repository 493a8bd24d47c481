-- ===== src/Arp/Tests.antt =====
-- Runs of socket/arp-demo.c, and its theorems at concrete inputs.
use c_playground.Common.{
  ℕ, zero, suc, ◌<◌, ◌≡◌, ◌≢◌, refl, arith, List, [], ◌∷◌, ◌++◌, Option, none, some, Bool, true,
  false, replicate, codes,
}
use c_playground.Common.Int.{ℤ, pos}
use c_playground.Arp.Packet.{Mac, Ip, arp_packet, format_mac}
use c_playground.Arp.{
  Event, received, Kernel, Info, get_if_info, returned, wait_reply, test_arping, main,
}
use c_playground.Arp.Descriptors.{AllClosed, test_arping-AllClosed}
use c_playground.Arp.Waiting.{reply_packet, Ignored, no_reply, after, wait_reply-first}

abbrev here : Mac
here = record { m0 = 2; m1 = 0; m2 = 0xab; m3 = 0x10; m4 = 1; m5 = 7 }

abbrev there : Mac
there = record { m0 = 6; m1 = 5; m2 = 4; m3 = 3; m4 = 2; m5 = 1 }

abbrev here_ip : Ip
here_ip = record { i0 = 10; i1 = 0; i2 = 0; i3 = 5 }

abbrev there_ip : Ip
there_ip = record { i0 = 10; i1 = 0; i2 = 0; i3 = 9 }

abbrev heard : List Event → Option (List ℕ)
heard (received fd ∷ t) = some (reply_packet there there_ip here here_ip)
heard t = some (arp_packet here here_ip there_ip ++ [])

-- A kernel with an interface; the second datagram is the reply.
abbrev kernel : Bool → Option ℤ → Kernel
kernel binds index = record {
  socket = λ t. some 3;
  if_index = λ t fd name. index;
  if_hwaddr = λ t fd name. some here;
  if_addr = λ t fd name. some (2, here_ip);
  bind = λ t fd i. binds;
  send = λ t fd i p. true;
  receive = λ t fd. heard t;
  stack = λ t. replicate 60 0;
  stack_fd = λ t. some 7;
}

socket_ne : (t : List Event) → (kernel true (some (pos 2))).socket t ≢ some 0
socket_ne t e = cc e

abbrev eth : List ℕ
eth = codes "eth0"

abbrev arp_types : Mac
arp_types = record { m0 = 0; m1 = 1; m2 = 8; m3 = 0; m4 = 6; m5 = 4 }

one_silent : (i : ℕ) → i < 1 → Ignored (heard (after i (some 3) []))
unfolding arp_packet
one_silent zero h =
    no_reply (record { m0 = 255; m1 = 255; m2 = 255; m3 = 255; m4 = 255; m5 = 255 }) here arp_types
      0 1 _ (λ e. absurd (omega (arith, e)))
one_silent (suc i) h = absurd (omega arith)

wait_reply-first_example :
    wait_reply 5 (kernel true (some (pos 2))) (some 3) []
    ≡ some (
      record { from_ip = there_ip; from_mac = there; to_ip = here_ip; to_mac = here },
      received (some 3) ∷ after 1 (some 3) [],
    )
wait_reply-first_example =
    wait_reply-first 1 5 (kernel true (some (pos 2))) (some 3) [] there there_ip here here_ip []
      one_silent refl (omega arith)

kernel_finds : (get_if_info (kernel true (some (pos 2))) eth []).0 ≢ none
unfolding get_if_info
kernel_finds e = cc e

test_arping-AllClosed_example :
    AllClosed 3 (test_arping 5 (kernel true (some (pos 2))) eth there_ip)
test_arping-AllClosed_example =
    test_arping-AllClosed 3 5 (kernel true (some (pos 2))) eth there_ip socket_ne (λ t m i. refl)
      (λ e. absurd (kernel_finds e))

no_index : (get_if_info (kernel true none) eth []).0 ≡ none
unfolding get_if_info
no_index = refl

abbrev eth_info : Info
eth_info = record { index = pos 2; mac = here; ip = here_ip }

abbrev asked : List Event
asked = (get_if_info (kernel false (some (pos 2))) eth []).1

eth_found : get_if_info (kernel false (some (pos 2))) eth [] ≡ (some eth_info, asked)
unfolding get_if_info
eth_found = refl

format_run : format_mac here ≡ codes "02:00:AB:10:01:07"
unfolding format_mac
format_run = refl

main_usage : main (λ s. there_ip) 5 (kernel true none) none ≡ returned (pos 1) []
unfolding main
main_usage = refl

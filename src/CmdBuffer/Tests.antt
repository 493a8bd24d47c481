-- ===== src/CmdBuffer/Tests.antt =====
-- The run of main in trivial/cmd-buffer.c, and the conditions of the theorems at its commands.
use c_playground.Common.{◌+◌, ◌≡◌, refl, arith, [], ◌∷◌, ◌++◌, true, get_or}
use c_playground.CmdBuffer.{
  Buffer, IsBuffer, buffer_new, move_forward, destroyed_by, buffer_offer, buffer_poll,
}
use c_playground.CmdBuffer.Order.{buffer_poll-buffer_offer}
use c_playground.CmdBuffer.Owners.{makes, offers, polls, count_cmd, Uses-count_cmd}

abbrev three_offers : Buffer
three_offers = buffer_offer (buffer_offer (buffer_offer buffer_new 1) 2) 3

abbrev five_offers : Buffer
five_offers = buffer_offer (buffer_offer three_offers 4) 5

-- Behind the five offers of main it prints 5 and 4, and then finds nothing.
main_polls :
    ((buffer_poll five_offers).0 ≡ 5)
    × ((buffer_poll (buffer_poll five_offers).1).0 ≡ 4)
    × ((buffer_poll (buffer_poll (buffer_poll five_offers).1).1).0 ≡ 0)
unfolding buffer_new buffer_offer buffer_poll move_forward
main_polls = (refl, refl, refl)

three_IsBuffer : IsBuffer three_offers
unfolding buffer_new buffer_offer move_forward
three_IsBuffer = (refl, omega arith, omega arith)

buffer_poll-buffer_offer_example :
    ((buffer_poll (buffer_offer (buffer_offer three_offers 4) 5)).0 ≡ 5)
    × ((buffer_poll (buffer_poll (buffer_offer (buffer_offer three_offers 4) 5)).1).0 ≡ 4)
buffer_poll-buffer_offer_example =
    buffer_poll-buffer_offer three_offers 4 5 three_IsBuffer (omega arith) (omega arith)

abbrev one_offer : Buffer
one_offer = buffer_offer buffer_new 7

abbrev polled_once : Buffer
polled_once = (buffer_poll one_offer).1

Uses-count_cmd_example :
    count_cmd 7 ((buffer_poll one_offer).0 ∷ [])
      + count_cmd 7 (destroyed_by true (get_or buffer_new.cmds buffer_new.nw 0) ++ [])
      + count_cmd 7 polled_once.cmds
    ≡ count_cmd 7 (7 ∷ [])
Uses-count_cmd_example =
    Uses-count_cmd 7 (7 ∷ []) ((buffer_poll one_offer).0 ∷ [])
      (destroyed_by true (get_or buffer_new.cmds buffer_new.nw 0) ++ []) polled_once (omega arith)
      (polls (offers 7 makes))

-- ===== src/Monitor/Forwarder/Tests.antt =====
-- The claims on the forwarder, at concrete inputs.
use c_playground.Common.{◌≡◌, refl, arith, [], ◌∷◌, some}
use c_playground.Common.Int.{pos}
use c_playground.Monitor.Forwarder.{
  Follower, Forwarder, no_dialogue, find_follower, handle_notify, peek_header,
}
use c_playground.Monitor.Forwarder.Matching.{handle_notify-peek_header}

abbrev worker : Follower
worker = record { pid = 41; fd = 9; dialogue = no_dialogue }

-- One follower, and a client of another dialogue.
abbrev waiting_client : Forwarder
waiting_client = record {
  clients = record { fd = 12; dialogue = pos 5; timestamp = 100 } ∷ [];
  followers = worker ∷ [];
  sent = [];
  closed = [];
}

worker_found : find_follower 41 waiting_client.followers ≡ some worker
unfolding find_follower
worker_found = refl

handle_notify-peek_header_example :
    ((handle_notify 4000 41 (pos 7) (peek_header 1000 13 (pos 7) waiting_client)).sent
      ≡ (9, 13) ∷ [])
    × ((handle_notify 4000 41 (pos 7) (peek_header 1000 13 (pos 7) waiting_client)).closed
        ≡ 13 ∷ [])
    × ((peek_header 4000 13 (pos 7) (handle_notify 1000 41 (pos 7) waiting_client)).sent
        ≡ (9, 13) ∷ [])
    × ((peek_header 4000 13 (pos 7) (handle_notify 1000 41 (pos 7) waiting_client)).closed
        ≡ 13 ∷ [])
handle_notify-peek_header_example =
    handle_notify-peek_header waiting_client worker (pos 7) 13 1000 4000 worker_found
      ((refl, tt), (refl, tt)) (omega arith)

abbrev empty_forwarder : Forwarder
empty_forwarder = record { clients = []; followers = []; sent = []; closed = [] }

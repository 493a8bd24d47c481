-- ===== src/Monitor/Message/Tests.antt =====
-- Runs of the messages of socket/monitor, and their theorems at concrete inputs.
use c_playground.Common.{ℕ, ◌≡◌, refl, arith, List, [], ◌∷◌, ◌++◌, true, codes}
use c_playground.Common.Int.{pos, negsuc}
use c_playground.Monitor.Message.{
  accepted, MsgHeartbeat, MsgRaw, request, response, pack_request, pack_response, unpack_response,
  write_raw, read_raw, msg_response,
}
use c_playground.Monitor.Message.RoundTrip.{over, unpack_response-pack_response}
use c_playground.Monitor.Message.Frame.{read_raw-write_raw}

pack_run :
    pack_response (response (codes "hi") (9 ∷ []))
    ≡ 2 ∷ 0 ∷ 0 ∷ 0 ∷ b'h' ∷ b'i' ∷ 0 ∷ 1 ∷ 0 ∷ 0 ∷ 0 ∷ 9 ∷ []
unfolding pack_response
pack_run = refl

request_run :
    pack_request (request (pos 258) (negsuc 1)) ≡ 2 ∷ 1 ∷ 0 ∷ 0 ∷ 254 ∷ 255 ∷ 255 ∷ 255 ∷ []
unfolding pack_request
request_run = refl

-- A response with an empty text keeps the text that the message held.
stale_run :
    unpack_response (response (codes "old") []) (pack_response (response [] (9 ∷ [])))
    ≡ accepted (response (codes "old") (9 ∷ [])) []
unfolding unpack_response pack_response
stale_run = refl

unpack_response-pack_response_example :
    unpack_response
      (response [] [])
      (pack_response (response (codes "hair") (9 ∷ 9 ∷ [])) ++ 7 ∷ [])
    ≡ accepted (response (over [] (codes "hair")) (over [] (9 ∷ 9 ∷ []))) (7 ∷ [])
unpack_response-pack_response_example =
    unpack_response-pack_response (response [] []) (response (codes "hair") (9 ∷ 9 ∷ [])) (7 ∷ [])
      (omega arith) (omega arith)

abbrev beat : MsgHeartbeat
beat = record { timestamp = 0x4059000000000000 }

abbrev raw : List ℕ → MsgRaw
raw p = record { type = msg_response; payload = p }

read_raw-write_raw_example :
    read_raw (raw []) ((write_raw (raw (codes "abc")) 11).1 ++ 5 ∷ [])
    ≡ (true, (raw (codes "abc"), 5 ∷ []))
read_raw-write_raw_example =
    read_raw-write_raw (raw []) (raw (codes "abc")) 11 (5 ∷ []) refl (omega arith) (omega arith)
      (unfold write_raw in refl)

-- ===== src/Relay/ThreadTests.antt =====
-- Concrete runs of the collector's threads, of its connection, of its ports and of the logger.
use c_playground.Common.{
  ℕ, ◌+◌, ◌*◌, ◌<◌, ◌≤◌, ◌≡◌, ◌⊎◌, refl, true, some, All, List, [], ◌∷◌, ◌++◌, codes, length, arith,
}
use c_playground.Relay.Collector.{
  Collector, push_payload, write_ready, consume, new_collector, reading,
}
use c_playground.Relay.Collector.Order.{
  Runs, starts, pushes, signals, consumes, payloads, waiting, sent_of, Runs-IsOrdered,
}
use c_playground.Relay.Collector.Wakeup.{readies, Runs-readies}
use c_playground.Relay.Link.{
  Handler, source, Link, Answers, on_connect, server_closed, timer_fired, constructed,
  on_disconnect, erase_handler, disarm, connect, open_socket, with_socket, after_connect,
}
use c_playground.Relay.Link.Reconnect.{
  Links, starts as link_starts, closes, fires, IsUp, IsDown, Links-IsUp-IsDown,
}
use c_playground.Relay.Ports.{split, split_loop, push_field}
use c_playground.Relay.Topics.{
  topics, overrun, parse_topic, query_of, topic_loop, topic_turn, scan_pair, span_until, scan_key,
  scan_behind_key, scan_value, fits_array, push_old, with_topic,
}
use c_playground.Relay.Topics.Query.{IsPair, body, values, parse_topic-values}
use c_playground.Relay.Logger.{run_logger, create_logger, mb, move_logger}
use c_playground.Relay.Logger.Rotation.{IsCycle, run_logger-IsCycle}

abbrev payload : List ℕ
payload = codes "abc"

-- A payload is added, and the consumer goes to its read.
abbrev added : Collector
added =
    write_ready (push_payload payload new_collector).unsignalled
      (push_payload payload new_collector)

abbrev at_read : Collector
at_read = consume added.consumer added

at_read_run : Runs ([] ++ (payload ∷ [])) ([] ++ []) at_read
unfolding push_payload write_ready
at_read_run = consumes (signals (pushes payload starts))

at_reading : at_read.consumer ≡ reading
unfolding consume write_ready push_payload
at_reading = refl

signalled : at_read.unsignalled ≡ 0
unfolding consume write_ready push_payload
signalled = refl

one_pending : 1 ≤ length at_read.pv
unfolding consume write_ready push_payload
one_pending = omega arith

Runs-readies_example : 1 ≤ readies at_read.channel
Runs-readies_example =
    Runs-readies ([] ++ (payload ∷ [])) ([] ++ []) at_read at_read_run at_reading signalled
      one_pending

Runs-IsOrdered_example :
    (payloads ([] ++ []) ++ (waiting at_read.consumer ++ at_read.pv) ≡ [] ++ (payload ∷ []))
    × (at_read.sent ≡ sent_of ([] ++ []))
Runs-IsOrdered_example = Runs-IsOrdered ([] ++ (payload ∷ [])) ([] ++ []) at_read at_read_run

abbrev sources : List Handler
sources = source 5 ∷ source 6 ∷ []

abbrev answers : Answers
answers = record { socket = some 9; options = true; connects = true }

abbrev lost : Link
lost = server_closed (on_connect (constructed 3 sources))

lost_run : Links sources lost
unfolding on_connect disarm
lost_run = closes (omega arith) (link_starts 3)

abbrev reconnected : Link
reconnected = timer_fired 2 answers lost

reconnected_run : Links sources reconnected
unfolding server_closed on_disconnect on_connect disarm erase_handler
reconnected_run = fires 2 answers (omega arith) lost_run

Links-IsUp-IsDown_example : IsUp reconnected ⊎ IsDown reconnected
Links-IsUp-IsDown_example = Links-IsUp-IsDown sources refl refl reconnected reconnected_run

reconnected_fd : reconnected.fd ≡ some 9
unfolding timer_fired connect open_socket with_socket after_connect server_closed on_disconnect
    on_connect disarm erase_handler
reconnected_fd = refl

abbrev same_field : List ℕ → List ℕ
same_field s = s

abbrev two_fields : List (List ℕ × ℕ)
two_fields = (codes "ab", 1) ∷ (codes "c", 0) ∷ []

split_ports : split b',' same_field (codes ",ab,,c,de") ≡ codes "ab" ∷ codes "c" ∷ codes "de" ∷ []
unfolding split split_loop push_field
split_ports = refl

abbrev texts : List (List ℕ)
texts = codes "one" ∷ codes "two" ∷ []

run_logger-IsCycle_example :
    let l = run_logger texts (create_logger 10 1) in
    (l.size ≤ 1 * mb + 99 * 1024)
    × All (λ s. s ≤ 1 * mb + 100 * 1024) l.tested
    × All (λ s. (1 * mb < s) × (s ≤ 1 * mb + 100 * 1024)) l.closed
    × IsCycle 10 l.opened
run_logger-IsCycle_example =
    run_logger-IsCycle 10 1 texts (omega arith) (omega arith, (omega arith, tt))

-- A logger that was moved rotates at every test: its limit is the place of its file.
moved_limit : (move_logger (create_logger 10 1)).filesize ≡ 0
unfolding move_logger create_logger
moved_limit = refl

abbrev two_topics : List (List ℕ × List ℕ)
two_topics = (codes "w2", codes "184") ∷ []

one-IsPair : IsPair (codes "w1", codes "182")
one-IsPair = omega arith

other-IsPair : IsPair (codes "w2", codes "184")
other-IsPair = omega arith

parse_topic-values_example :
    parse_topic (codes "ws:" ++ (b'?' ∷ body (codes "w1", codes "182") two_topics))
    ≡ topics (codes "182" ∷ values two_topics)
parse_topic-values_example =
    parse_topic-values (codes "ws:") (codes "w1", codes "182") two_topics
      (omega arith, (omega arith, (omega arith, tt))) one-IsPair (other-IsPair, tt)

-- An empty key leaves the last value in place, and it is pushed again for each character.
stale_topic :
    parse_topic (codes "?w1=182&=x") ≡ topics (codes "182" ∷ codes "182" ∷ codes "182" ∷ [])
unfolding parse_topic query_of topic_loop topic_turn scan_pair span_until scan_key scan_behind_key
    scan_value fits_array push_old with_topic
stale_topic = refl

-- The value is cut at its NUL; behind it nothing is stored, and the value is pushed again.
nul_topic : parse_topic (codes "?w=a" ++ 0 ∷ codes "b") ≡ topics (codes "a" ∷ codes "a" ∷ [])
unfolding parse_topic query_of topic_loop topic_turn scan_pair span_until scan_key scan_behind_key
    scan_value fits_array push_old with_topic
nul_topic = refl

long_topic : parse_topic (codes "?w=1234567890123456") ≡ overrun
unfolding parse_topic query_of topic_loop topic_turn scan_pair span_until scan_key scan_behind_key
    scan_value fits_array
long_topic = refl

-- ===== src/Relay/Collector.antt =====
-- The collector: collector.h, the payloads between the producer and the consumer thread.
pub mod Order
pub mod Wakeup
use c_playground.Common.{
  ℕ, zero, suc, ◌+◌, Bool, true, false, Option, none, some, List, [], ◌∷◌, ◌++◌, ◌==◌,
  if◌then◌else◌, codes,
}

pub data State : Type 0 where
  uninitialized : State
  ready : State
  disconnected : State
  done : State

-- Where the consumer thread is: at the test of the state, at the read, at the swap, in the loop over
-- the payloads still to go, or out of the loop.
pub data Consumer : Type 0 where
  testing : Consumer
  reading : Consumer
  swapping : Consumer
  sending : List (List ℕ) → Consumer
  ended : Consumer

-- `cv` is the payloads of `sending`, and empty otherwise; `channel` is the bytes in the socket pair;
-- `unsignalled` counts the payloads that were pushed and whose byte was not written yet.
pub record Collector : Type 0 where
  pub pv : List (List ℕ)
  pub channel : List ℕ
  pub unsignalled : ℕ
  pub consumer : Consumer
  pub state : State
  pub sent : List (List ℕ)

abbrev pub ready_char : ℕ
ready_char = b'R'

-- `addPayload`, under the lock.
unfoldable pub push_payload : List ℕ → Collector → Collector
push_payload payload c = record c { pv = c.pv ++ (payload ∷ []); unsignalled = suc c.unsignalled }

-- `addPayload`, the write behind the lock.
unfoldable pub write_ready : ℕ → Collector → Collector
write_ready zero c = c
write_ready (suc n) c = record c { channel = c.channel ++ (ready_char ∷ []); unsignalled = n }

-- The write of `quit`, with its NUL.
unfoldable pub write_quit : Collector → Collector
write_quit c = record c { channel = c.channel ++ (codes "QUIT" ++ (0 ∷ [])) }

unfoldable pub set_state : State → Collector → Collector
set_state s c = record c { state = s }

abbrev pub is_done : State → Bool
is_done done = true
is_done _ = false

abbrev pub is_ready : State → Bool
is_ready ready = true
is_ready _ = false

-- `read` of one byte, which blocks on an empty channel.
unfoldable pub read_byte : List ℕ → Collector → Collector
read_byte [] c = c
read_byte (b ∷ bytes) c = record c {
  channel = bytes;
  consumer = if b == ready_char then swapping else ended;
}

-- The swap under the lock, and what follows when there is nothing.
unfoldable pub swap_payloads : List (List ℕ) → Collector → Collector
swap_payloads [] c = record c { consumer = testing }
swap_payloads (p ∷ ps) c = record c { pv = []; consumer = sending (p ∷ ps) }

-- One turn of the loop over `cv`; behind the last, `cv` is cleared.
unfoldable pub send_payload : List (List ℕ) → Collector → Collector
send_payload [] c = record c { consumer = testing }
send_payload (p ∷ ps) c = record c {
  consumer = sending ps;
  sent = if is_ready c.state then c.sent ++ (p ∷ []) else c.sent;
}

-- The next step of `Consume`.
unfoldable pub consume : Consumer → Collector → Collector
consume testing c = record c { consumer = if is_done c.state then ended else reading }
consume reading c = read_byte c.channel c
consume swapping c = swap_payloads c.pv c
consume (sending ps) c = send_payload ps c
consume ended c = c

abbrev pub new_collector : Collector
new_collector = record {
  pv = [];
  channel = [];
  unsignalled = 0;
  consumer = testing;
  state = ready;
  sent = [];
}

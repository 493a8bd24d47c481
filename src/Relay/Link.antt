-- ===== src/Relay/Link.antt =====
-- The collector's connection to the relay: collector.cpp, Connect, OnConnect, OnDisconnect and the
-- events that call them (connection.cpp).
pub mod Reconnect
use c_playground.Common.{
  ℕ, zero, suc, ◌+◌, Bool, true, false, Option, none, some, List, [], ◌∷◌, if◌then◌else◌,
}
use c_playground.Relay.Collector.{State, uninitialized, ready, disconnected, done}

-- A registered connection: that of the server, the timer, or a group or the signals.
pub data Handler : Type 0 where
  server : Option ℕ → Handler
  timer : Handler
  source : ℕ → Handler

-- `fd_` is nothing for -1; `polled_timer` says that epoll watches the timer.
pub record Link : Type 0 where
  pub fd : Option ℕ
  pub state : State
  pub armed : Bool
  pub polled_timer : Bool
  pub handlers : List Handler
  pub retry_count : ℕ

-- What the kernel answers: the socket, whether its options are set, and whether it connects.
pub record Answers : Type 0 where
  pub socket : Option ℕ
  pub options : Bool
  pub connects : Bool

-- With a new socket: its options, and the connection.
unfoldable pub with_socket : Answers → Link → Option ℕ → Bool × Link
with_socket k l none = (false, l)
with_socket k l (some s) = (if k.options then k.connects else false, record l { fd = some s })

unfoldable pub open_socket : Answers → Link → Option ℕ → Bool × Link
open_socket k l (some s) = (k.connects, l)
open_socket k l none = with_socket k l k.socket

-- `Connect`
unfoldable pub connect : Answers → Link → Bool × Link
connect k l = open_socket k l l.fd

abbrev pub is_timer : Handler → Bool
is_timer timer = true
is_timer _ = false

abbrev pub is_server : Handler → Bool
is_server (server s) = true
is_server _ = false

-- The first of the handlers that the test takes goes.
unfoldable pub erase_handler : (Handler → Bool) → List Handler → List Handler
erase_handler p [] = []
erase_handler p (h ∷ hs) = let rest = erase_handler p hs in if p h then hs else h ∷ rest

unfoldable pub disarm : State → Link → Link
disarm disconnected l = record l {
  armed = false;
  polled_timer = false;
  handlers = erase_handler is_timer l.handlers;
}
disarm _ l = l

-- `OnConnect`
unfoldable pub on_connect : Link → Link
on_connect l =
    let d = disarm l.state l in
    record d { handlers = server d.fd ∷ d.handlers; retry_count = 0; state = ready }

-- `OnDisconnect`
unfoldable pub on_disconnect : Link → Link
on_disconnect l = record l {
  armed = true;
  polled_timer = true;
  handlers = timer ∷ l.handlers;
  state = disconnected;
}

-- EPOLLRDHUP of the server's connection.
unfoldable pub server_closed : Link → Link
server_closed l =
    on_disconnect (record l { handlers = erase_handler is_server l.handlers; fd = none })

unfoldable pub after_connect : Bool × Link → Link
after_connect (true, l) = on_connect l
after_connect (false, l) = l

-- EPOLLIN of the timer, with the expirations that were read.
unfoldable pub timer_fired : (expiration : ℕ) → Answers → Link → Link
timer_fired expiration k l =
    after_connect (connect k (record l { retry_count = l.retry_count + expiration }))

-- The collector when `Produce` begins: constructed, connected, with its sources.
abbrev pub constructed : ℕ → List Handler → Link
constructed s sources = record {
  fd = some s;
  state = ready;
  armed = false;
  polled_timer = false;
  handlers = sources;
  retry_count = 0;
}

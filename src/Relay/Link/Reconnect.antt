-- ===== src/Relay/Link/Reconnect.antt =====
-- The connection's states: watched when it is up, the timer armed when it is down.
use c_playground.Common.{
  ℕ, suc, ◌+◌, ◌-◌, ◌≤◌, ◌≡◌, ◌⊎◌, inl, inr, refl, ap, sym, Bool, true, false, Option, none, some,
  List, [], ◌∷◌, if◌then◌else◌, Bool-cases, arith,
}
use mathlib.Core.Path.{subst}
use c_playground.Relay.Collector.{ready, disconnected}
use c_playground.Relay.Link.{
  Handler, server, timer, source, Link, Answers, open_socket, with_socket, connect, is_timer,
  is_server, erase_handler, disarm, on_connect, on_disconnect, server_closed, after_connect,
  timer_fired, constructed,
}

-- How many handlers the test takes.
abbrev pub count_handlers : (Handler → Bool) → List Handler → ℕ
count_handlers p [] = 0
count_handlers p (h ∷ hs) = let rest = count_handlers p hs in if p h then suc rest else rest

-- The connection is up: its one handler watches for its end, and the timer rests.
pub record IsUp (l : Link) : Type 0 where
  pub at_state : l.state ≡ ready
  pub open_fd : (s : ℕ) × (l.fd ≡ some s)
  pub at_rest : (l.armed ≡ false) × (l.polled_timer ≡ false)
  pub servers : count_handlers is_server l.handlers ≡ 1
  pub timers : count_handlers is_timer l.handlers ≡ 0

-- The connection is down: no handler of it is left, and the timer is armed and watched by one handler.
pub record IsDown (l : Link) : Type 0 where
  pub at_state : l.state ≡ disconnected
  pub at_work : (l.armed ≡ true) × (l.polled_timer ≡ true)
  pub servers : count_handlers is_server l.handlers ≡ 0
  pub timers : count_handlers is_timer l.handlers ≡ 1

-- What the events of a collector with these sources reach: an event comes to a handler that is there.
pub data Links (sources : List Handler) : Link → Type 0 where
  starts : (s : ℕ) → Links sources (on_connect (constructed s sources))
  closes :
      {l : Link}
      → 1 ≤ count_handlers is_server l.handlers
      → Links sources l
      → Links sources (server_closed l)
  fires :
      (n : ℕ) (k : Answers) {l : Link}
      → 1 ≤ count_handlers is_timer l.handlers
      → Links sources l
      → Links sources (timer_fired n k l)

count-erase :
    (p : Handler → Bool) (hs : List Handler)
    → count_handlers p (erase_handler p hs) ≡ count_handlers p hs - 1
unfolding erase_handler
count-erase p [] = omega arith
count-erase p (h ∷ hs) = elim (Bool-cases (p h)) [
  | inl e ↦ rw e (omega arith)
  | inr e ↦ rw e (rw e (count-erase p hs))
]

timers-erase_server :
    (hs : List Handler)
    → count_handlers is_timer (erase_handler is_server hs) ≡ count_handlers is_timer hs
unfolding erase_handler
timers-erase_server [] = refl
timers-erase_server (server s ∷ hs) = refl
timers-erase_server (timer ∷ hs) = ap suc (timers-erase_server hs)
timers-erase_server (source s ∷ hs) = timers-erase_server hs

servers-erase_timer :
    (hs : List Handler)
    → count_handlers is_server (erase_handler is_timer hs) ≡ count_handlers is_server hs
unfolding erase_handler
servers-erase_timer [] = refl
servers-erase_timer (server s ∷ hs) = ap suc (servers-erase_timer hs)
servers-erase_timer (timer ∷ hs) = refl
servers-erase_timer (source s ∷ hs) = servers-erase_timer hs

server_closed-IsDown : (l : Link) → IsUp l → IsDown (server_closed l)
unfolding server_closed on_disconnect
server_closed-IsDown l u = record {
  at_state = refl;
  at_work = (refl, refl);
  servers = omega (arith, count-erase is_server l.handlers, u.servers);
  timers = omega (arith, timers-erase_server l.handlers, u.timers);
}

-- `OnConnect` behind the disarming.
abbrev resume : Link → Link
resume d = record d { handlers = server d.fd ∷ d.handlers; retry_count = 0; state = ready }

disarm_down :
    (l : Link)
    → l.state ≡ disconnected
    → disarm l.state l ≡ record l {
      armed = false;
      polled_timer = false;
      handlers = erase_handler is_timer l.handlers;
    }
unfolding disarm
disarm_down l e = rw e refl

on_connect-IsUp : (l : Link) → IsDown l → (s : ℕ) → l.fd ≡ some s → IsUp (on_connect l)
unfolding on_connect
on_connect-IsUp l d s e =
    subst (λ x. IsUp (resume x)) (sym (disarm_down l d.at_state))
      (record {
        at_state = refl;
        open_fd = (s, e);
        at_rest = (refl, refl);
        servers = omega (arith, servers-erase_timer l.handlers, d.servers);
        timers = omega (arith, count-erase is_timer l.handlers, d.timers);
      })

start-IsUp :
    (s : ℕ) (sources : List Handler)
    → count_handlers is_server sources ≡ 0
    → count_handlers is_timer sources ≡ 0
    → IsUp (on_connect (constructed s sources))
unfolding on_connect disarm
start-IsUp s sources h k = record {
  at_state = refl;
  open_fd = (s, refl);
  at_rest = (refl, refl);
  servers = ap suc h;
  timers = k;
}

tried :
    (b : Bool) (l : Link) (s : ℕ)
    → l.fd ≡ some s
    → IsDown l
    → IsUp (after_connect (b, l)) ⊎ IsDown (after_connect (b, l))
unfolding after_connect
tried true l s e d = inl (on_connect-IsUp l d s e)
tried false l s e d = inr d

with_socket_tried :
    (k : Answers) (l : Link) (o : Option ℕ)
    → IsDown l
    → IsUp (after_connect (with_socket k l o)) ⊎ IsDown (after_connect (with_socket k l o))
unfolding with_socket after_connect
with_socket_tried k l none d = inr d
with_socket_tried k l (some s) d =
    tried (if k.options then k.connects else false) (record l { fd = some s }) s refl
      (record {
        at_state = d.at_state;
        at_work = d.at_work;
        servers = d.servers;
        timers = d.timers;
      })

connect_tried :
    (k : Answers) (l : Link) (o : Option ℕ)
    → l.fd ≡ o
    → IsDown l
    → IsUp (after_connect (open_socket k l o)) ⊎ IsDown (after_connect (open_socket k l o))
unfolding open_socket
connect_tried k l none e d = with_socket_tried k l k.socket d
connect_tried k l (some s) e d = tried k.connects l s e d

module _ (sources : List Handler) where
  -- With sources that are neither, after any closing of the connection and any ticks of the timer that
  -- come to a handler that is there: either the connection is up, open, watched by one handler and the
  -- timer at rest, or it is down, not watched, and the timer armed with one handler to try again.
  pub Links-IsUp-IsDown :
      count_handlers is_server sources ≡ 0
      → count_handlers is_timer sources ≡ 0
      → (l : Link) → Links sources l
      → IsUp l ⊎ IsDown l
  unfolding timer_fired connect
  Links-IsUp-IsDown h k l (starts s) = inl (start-IsUp s sources h k)
  Links-IsUp-IsDown h k l (closes {l = m} e r) = elim (Links-IsUp-IsDown h k m r) [
    | inl u ↦ inr (server_closed-IsDown m u)
    | inr d ↦ absurd (omega (arith, d.servers))
  ]
  Links-IsUp-IsDown h k l (fires n a {l = m} e r) = elim (Links-IsUp-IsDown h k m r) [
    | inl u ↦ absurd (omega (arith, u.timers))
    | inr d ↦
        connect_tried a (record m { retry_count = m.retry_count + n }) m.fd refl
          (record {
            at_state = d.at_state;
            at_work = d.at_work;
            servers = d.servers;
            timers = d.timers;
          })
  ]

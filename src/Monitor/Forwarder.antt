-- ===== src/Monitor/Forwarder.antt =====
-- socket/monitor/examples/forwarder.h and forwarder.cpp: clients are handed to the followers that were told
-- of their dialogues. Times are whole milliseconds, where the source has `double`s.
pub mod Matching
mod Tests
use c_playground.Common.{
  ℕ, ◌+◌, List, [], ◌∷◌, ◌++◌, Option, none, some, Bool, true, false, ltb, ◌==◌, if◌then◌else◌,
}
use c_playground.Common.Int.{ℤ, pos, negsuc}

-- `PAYLOADHEADER_partial`
pub record Client : Type 0 where
  pub fd : ℕ
  pub dialogue : ℤ
  pub timestamp : ℕ

-- `FollowerContext`; its `timestamp` is never read.
pub record Follower : Type 0 where
  pub pid : ℕ
  pub fd : ℕ
  pub dialogue : ℤ

-- `Forwarder`: `list_client`, `map_follower` in the order of its iteration, the descriptors that `SendFd`
-- sent, each with the follower's that it was sent over, and those that were closed.
pub record Forwarder : Type 0 where
  pub clients : List Client
  pub followers : List Follower
  pub sent : List (ℕ × ℕ)
  pub closed : List ℕ

-- `==` of two `int`s
abbrev pub is_same : ℤ → ℤ → Bool
is_same (pos m) (pos n) = m == n
is_same (negsuc m) (negsuc n) = m == n
is_same (pos m) (negsuc n) = false
is_same (negsuc m) (pos n) = false

-- `CLIENTINFO_EXPIREDTHRESHOLD`
abbrev pub expired_threshold : ℕ
expired_threshold = 5000

-- The dialogue of a follower that waits for none: -1.
abbrev pub no_dialogue : ℤ
no_dialogue = negsuc 0

-- `MAPFOLLOWER.find`
unfoldable pub find_follower : ℕ → List Follower → Option Follower
find_follower pid [] = none
find_follower pid (f ∷ fs) = if f.pid == pid then some f else find_follower pid fs

-- `map_follower.insert`, which leaves a pid that is there as it is.
unfoldable pub insert_unless : Option Follower → Follower → List Follower → List Follower
insert_unless none f fs = f ∷ fs
insert_unless (some g) f fs = fs

-- `accept_follower` with the descriptor that `accept` gives and the pid that is read from it.
unfoldable pub accept_follower : ℕ → ℕ → Forwarder → Forwarder
unfolding insert_unless find_follower
accept_follower fd pid s = record s {
  followers =
      insert_unless (find_follower pid s.followers)
        (record { pid = pid; fd = fd; dialogue = no_dialogue }) s.followers;
}

-- The dialogue of the follower `pid` is set.
unfoldable pub set_dialogue : ℕ → ℤ → List Follower → List Follower
set_dialogue pid d [] = []
set_dialogue pid d (f ∷ fs) =
    if f.pid == pid then record f { dialogue = d } ∷ fs else f ∷ set_dialogue pid d fs

-- `FollowerContext::publish` of a client, and the client's descriptor is closed.
unfoldable pub publish_client : Follower → ℕ → Forwarder → Forwarder
unfolding set_dialogue
publish_client f fd s = record s {
  followers = set_dialogue f.pid no_dialogue s.followers;
  sent = s.sent ++ (f.fd, fd) ∷ [];
  closed = s.closed ++ fd ∷ [];
}

-- A client that stays, before what the loop finds behind it.
unfoldable pub stays : Client → Option Client × List Client → Option Client × List Client
stays c r = (r.0, c ∷ r.1)

-- The loop of `handle_notify`: the client of the dialogue, and the clients that are left without it and
-- without those that expired before it.
unfoldable pub match_client : ℕ → ℤ → List Client → Option Client × List Client
unfolding stays
match_client now d [] = (none, [])
match_client now d (c ∷ cs) =
    let rest = match_client now d cs in
    if ltb (c.timestamp + expired_threshold) now
    then rest
    else if is_same c.dialogue d
    then (some c, cs)
    else stays c rest

unfoldable pub publish_matched : Follower → Option Client × List Client → Forwarder → Forwarder
unfolding publish_client
publish_matched f (none, cs) s = record s { clients = cs }
publish_matched f (some c, cs) s = publish_client f c.fd (record s { clients = cs })

unfoldable pub notify_found : Option Follower → ℕ → ℤ → Forwarder → Forwarder
unfolding publish_matched match_client set_dialogue
notify_found none now d s = s
notify_found (some f) now d s =
    publish_matched f (match_client now d s.clients)
      (record s { followers = set_dialogue f.pid d s.followers })

-- `handle_notify` at `now`
unfoldable pub handle_notify : ℕ → ℕ → ℤ → Forwarder → Forwarder
unfolding notify_found find_follower
handle_notify now pid d s = notify_found (find_follower pid s.followers) now d s

-- The loop of `peek_header` over the followers.
unfoldable pub find_waiting : ℤ → List Follower → Option Follower
find_waiting d [] = none
find_waiting d (f ∷ fs) = if is_same f.dialogue d then some f else find_waiting d fs

unfoldable pub publish_waiting : Option Follower → Client → Forwarder → Forwarder
unfolding publish_client
publish_waiting none c s = record s { clients = c ∷ s.clients }
publish_waiting (some f) c s = publish_client f c.fd s

-- `peek_header` of a client on `fd` whose header has the dialogue `d`, at `now`.
unfoldable pub peek_header : ℕ → ℕ → ℤ → Forwarder → Forwarder
unfolding publish_waiting find_waiting
peek_header now fd d s =
    publish_waiting (find_waiting d s.followers) (record { fd = fd; dialogue = d; timestamp = now })
      s

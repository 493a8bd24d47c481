-- ===== src/Monitor/Listener/Tests.antt =====
-- Runs of the listener of socket/monitor, and its theorems at concrete inputs.
use c_playground.Common.{◌≡◌, refl, arith, [], ◌∷◌, ◌++◌, none, some, Bool, true, false}
use c_playground.Common.Int.{pos, negsuc}
use c_playground.Monitor.Message.{MsgRaw, request, msg_response}
use c_playground.Monitor.Heartbeat.{fresh, never}
use c_playground.Monitor.Listener.{
  idle, work, Listener, Doubles, Poll, running, on_hub, turn, on_job,
}
use c_playground.Monitor.Listener.Sound.{IsSound, resting}
use c_playground.Monitor.Listener.Rounds.{
  After, turn-IsSound, round, worked, Reach, here, next, Reach-IsSound,
}
use c_playground.Monitor.Listener.Wakeup.{on_hub-written}

abbrev doubles : Doubles
doubles = record { value = λ b. pos b; bits = λ z. elim z [ pos n ↦ n | negsuc n ↦ 0 ] }

abbrev start : Listener
start = record {
  state = idle;
  peerfd = none;
  msghub = 0;
  heartbeat = fresh;
  msgreq = request (pos 0) (pos 0);
  msght = record { timestamp = 0 };
  lastest_readts = never;
  msgs = [];
  metrics = record { work_ms = 0; idle_ms = 0; times = 0; ops = 0 };
  closures = [];
  posted = 0;
  pokes = 0;
  ran = [];
  closed = [];
  round = 0;
  written = [];
}

abbrev poll : Bool → Bool → Bool → Poll
poll hub active peer = record {
  hub_in = hub;
  timer_in = false;
  active_in = active;
  peer_in = peer;
  timer_work = true;
  peer = some 7;
  now = pos 100;
  stream = 1 ∷ 0 ∷ 0 ∷ 0 ∷ 8 ∷ 0 ∷ 0 ∷ 0 ∷ 5 ∷ 0 ∷ 0 ∷ 0 ∷ 6 ∷ 0 ∷ 0 ∷ 0 ∷ [];
  ok = λ i. true;
  call = λ c s. s;
  doubles = doubles;
}

abbrev serving_seven : Listener
serving_seven = record start { state = work; peerfd = some 7 }

-- A request that the peer sends is given to the worker.
request_run :
    turn (poll false false true) serving_seven
    ≡ running (record serving_seven {
      msgreq = request (pos 5) (pos 6);
      lastest_readts = pos 100;
      posted = 1;
      metrics = record { work_ms = 0; idle_ms = 0; times = 0; ops = 0x8000000000000000 };
    })
unfolding turn
request_run = refl

turn-IsSound_example : After IsSound (turn (poll true true true) start)
turn-IsSound_example =
    turn-IsSound (poll true true true) start (resting refl refl) (λ c s. (refl, refl)) (λ w. cc w)

abbrev connected : Listener
connected = record start {
  state = work;
  peerfd = some 7;
  metrics = record { work_ms = 0; idle_ms = 0; times = 1; ops = 0 };
}

connect_run : turn (poll false true false) start ≡ running connected
unfolding turn
connect_run = refl

one_job : Reach start (on_job connected)
one_job =
    next (next here (round (poll false true false) (λ c s. (refl, refl)) (λ w. cc w) connect_run))
      (worked refl)

Reach-IsSound_example : IsSound (on_job connected)
Reach-IsSound_example = Reach-IsSound (resting refl refl) one_job

abbrev word : MsgRaw
word = record { type = msg_response; payload = 1 ∷ [] }

abbrev queued : Listener
queued = record serving_seven { msgs = word ∷ []; msghub = 1 }

on_hub-written_example :
    (t : Listener) × ((on_hub (poll true false false) queued ≡ running t)
      × (t.written ≡ [] ++ word ∷ [])
      × (t.msgs ≡ [])
      × (t.msghub ≡ 0))
on_hub-written_example =
    on_hub-written (poll true false false) queued (λ j. refl) (omega arith) (omega arith)

-- ===== src/Monitor/Listener.antt =====
-- socket/monitor/listener.h and listener.cpp: the listener, one round of its loop, and what its other
-- threads do to it. A call that logs only is left out.
pub mod Sound
pub mod Rounds
pub mod Wakeup
pub mod Pairing
mod Tests
use c_playground.Common.{
  ℕ, zero, suc, ◌+◌, ◌-◌, ◌*◌, ◌^◌, List, [], ◌∷◌, ◌++◌, Option, none, some, get_or, Bool, true,
  false, ◌&&◌, codes, ltb, leb, ◌==◌, if◌then◌else◌,
}
use c_playground.Common.Int.{ℤ, pos, negsuc}
use c_playground.Monitor.Message.{
  Unpacked, accepted, refused, undefined, MsgRequest, MsgHeartbeat, MsgRaw, request, response,
  pack_response, pack_heartbeat, unpack_request, unpack_heartbeat, read_raw, msg_nothing,
  msg_request, msg_response, msg_ping, msg_pong,
}
use c_playground.Monitor.Heartbeat.{Heartbeat, fresh, never, ping, on_pong, heartbeat_duration}

-- `stateful::State`
pub data State : Type 0 where
  nothingness initialized transferred idle work terminated : State

abbrev pub is_idle : State → Bool
is_idle idle = true
is_idle _ = false

abbrev pub is_work : State → Bool
is_work work = true
is_work _ = false

abbrev pub is_terminated : State → Bool
is_terminated terminated = true
is_terminated _ = false

-- `kNotifySmall`, `kNotifyMedium`, `kNotifyLarge`
abbrev pub notify_small : ℕ
notify_small = 1

abbrev pub notify_medium : ℕ
notify_medium = 2 ^ 31

abbrev pub notify_large : ℕ
notify_large = 2 ^ 63

-- `OPMASK`
abbrev pub op_mask : ℕ
op_mask = 2 ^ 63

pub record Metrics : Type 0 where
  pub work_ms : ℕ
  pub idle_ms : ℕ
  pub times : ℕ
  pub ops : ℕ

-- `Listener` with its `Reader` and `Writer`. `msghub` is the counter of its event descriptor (a write that
-- would take it past its limit waits); `posted` counts the tasks given to the worker, `pokes` the
-- tasks `Nil` given to the timer; `closures` are known by a number, and `ran` are those that ran;
-- `closed` are the descriptors of peers that were closed, the latest first; `round` is one more than the
-- `static` counter of `Work`; `written` are the messages that were written to peers, in order.
pub record Listener : Type 0 where
  pub state : State
  pub peerfd : Option ℕ
  pub msghub : ℕ
  pub heartbeat : Heartbeat
  pub msgreq : MsgRequest
  pub msght : MsgHeartbeat
  pub lastest_readts : ℤ
  pub msgs : List MsgRaw
  pub metrics : Metrics
  pub closures : List ℕ
  pub posted : ℕ
  pub pokes : ℕ
  pub ran : List ℕ
  pub closed : List ℕ
  pub round : ℕ
  pub written : List MsgRaw

-- A `double` of milliseconds, by its bits, and the nanoseconds that it stands for.
pub record Doubles : Type 0 where
  pub value : ℕ → ℤ
  pub bits : ℤ → ℕ

-- `Writer::pub`
unfoldable pub publish : MsgRaw → Listener → Listener
publish m s = record s { msgs = s.msgs ++ m ∷ []; msghub = s.msghub + notify_small }

-- `runOnLoop` with a closure that is not empty.
unfoldable pub run_on_loop : ℕ → Listener → Listener
run_on_loop c s = record s { closures = s.closures ++ c ∷ []; msghub = s.msghub + notify_medium }

abbrev raw : ℤ → List ℕ → MsgRaw
raw type payload = record { type = type; payload = payload }

unfoldable pub on_unpack_error : Listener → Listener
unfolding publish pack_response
on_unpack_error s =
    publish (raw msg_response (pack_response (response (codes "invalid message") []))) s

abbrev close_peer : Option ℕ → List ℕ → List ℕ
close_peer none closed = closed
close_peer (some fd) closed = fd ∷ closed

unfoldable pub on_disconnect : Listener → Listener
unfolding fresh
on_disconnect s = record s {
  closed = close_peer s.peerfd s.closed;
  peerfd = none;
  state = idle;
  lastest_readts = never;
  heartbeat = fresh;
  metrics = record s.metrics { ops = 0 };
}

-- `onConnect`, with what `accept` returns.
unfoldable pub on_connect : Option ℕ → Listener → Listener
on_connect fd s = record s { peerfd = fd }

-- `ops |= OPMASK`
abbrev mark : ℕ → ℕ
mark ops = if ltb ops op_mask then ops + op_mask else ops

-- A request that was unpacked, or was not.
unfoldable pub on_request : ℤ → Unpacked MsgRequest → Listener → Listener
unfolding on_unpack_error
on_request now (accepted m rest) s = record s {
  msgreq = m;
  lastest_readts = now;
  metrics = record s.metrics { ops = mark s.metrics.ops };
  posted = s.posted + 1;
}
on_request now (refused m rest) s = on_unpack_error (record s { msgreq = m })
on_request now undefined s = s

unfoldable pub on_pong_message : Doubles → ℤ → Unpacked MsgHeartbeat → Listener → Listener
unfolding on_unpack_error on_pong
on_pong_message d now (accepted m rest) s = record s {
  msght = m;
  heartbeat = on_pong now (d.value m.timestamp) s.heartbeat;
}
on_pong_message d now (refused m rest) s = on_unpack_error (record s { msght = m })
on_pong_message d now undefined s = s

-- The `switch` of `Reader::read` on the type.
unfoldable pub on_message : Doubles → ℤ → ℤ → List ℕ → Listener → Listener
unfolding on_request on_pong_message unpack_request unpack_heartbeat
on_message d now (negsuc n) p s = s
on_message d now (pos zero) p s = s
on_message d now (pos (suc zero)) p s = on_request now (unpack_request s.msgreq p) s
on_message d now (pos (suc (suc zero))) p s = s
on_message d now (pos (suc (suc (suc zero)))) p s = s
on_message d now (pos (suc (suc (suc (suc zero))))) p s =
    on_pong_message d now (unpack_heartbeat s.msght p) s
on_message d now (pos (suc (suc (suc (suc (suc n)))))) p s = s

-- `Reader::read` on the bytes that the peer sends.
unfoldable pub on_read : Doubles → ℤ → Bool × (MsgRaw × List ℕ) → Listener → Listener
unfolding on_message on_disconnect
on_read d now (true, (m, rest)) s = on_message d now m.type m.payload s
on_read d now (false, (m, rest)) s = on_disconnect s

unfoldable pub reader_read : Doubles → ℤ → List ℕ → Listener → Listener
unfolding on_read read_raw
reader_read d now stream s = on_read d now (read_raw (raw msg_nothing []) stream) s

-- `ops &= ~OPMASK; ops++`, for a response that was written.
unfoldable pub count_op : ℤ → Listener → Listener
count_op (pos (suc (suc zero))) s =
    if ltb s.metrics.ops op_mask
    then s
    else record s { metrics = record s.metrics { ops = s.metrics.ops - op_mask + 1 } }
count_op (pos zero) s = s
count_op (pos (suc zero)) s = s
count_op (pos (suc (suc (suc n)))) s = s
count_op (negsuc n) s = s

-- The loop of `Writer::write`; `ok i` tells whether the `i`th write succeeds.
unfoldable pub write_all : (ℕ → Bool) → ℕ → List MsgRaw → Listener → Listener
unfolding count_op on_disconnect
write_all ok i [] s = s
write_all ok i (m ∷ ms) s =
    let rest : Listener =
      write_all ok (i + 1) ms (count_op m.type (record s { written = s.written ++ m ∷ [] })) in
    if ok i then rest else on_disconnect s

-- `Writer::write`
unfoldable pub writer_write : (ℕ → Bool) → Listener → Listener
unfolding write_all
writer_write ok s = write_all ok 0 s.msgs (record s { msgs = [] })

-- What one round of `run` meets: the events that `poll` reports, whether the timer's state is `WORK`,
-- what `accept` returns, the time, what the peer sends, which writes succeed and what a closure does.
pub record Poll : Type 0 where
  pub hub_in : Bool
  pub timer_in : Bool
  pub active_in : Bool
  pub peer_in : Bool
  pub timer_work : Bool
  pub peer : Option ℕ
  pub now : ℤ
  pub stream : List ℕ
  pub ok : ℕ → Bool
  pub call : ℕ → Listener → Listener
  pub doubles : Doubles

unfoldable pub call_all : (ℕ → Listener → Listener) → List ℕ → Listener → Listener
call_all call [] s = s
call_all call (c ∷ cs) s = call_all call cs (call c (record s { ran = c ∷ s.ran }))

pub data Turn : Type 0 where
  running : Listener → Turn
  stopped : Listener → Turn

-- The event of `msghub`, of which `retrieve` gives the count and sets it to 0.
unfoldable pub on_hub : Poll → Listener → Turn
unfolding call_all writer_write
on_hub p s =
    let s' : Listener = record s { msghub = 0 } in
    if leb notify_large s.msghub
    then stopped s'
    else if leb notify_medium s.msghub
    then running (call_all p.call s.closures (record s' { closures = [] }))
    else if leb notify_small s.msghub
    then running (writer_write p.ok s')
    else running s'

unfoldable pub read_peer : Poll → Listener → Listener
unfolding reader_read
read_peer p s = if is_work s.state && p.peer_in then reader_read p.doubles p.now p.stream s else s

unfoldable pub on_work : Listener → Listener
on_work s = record s { state = work }

-- The event of the listening socket; `onWork` is deferred to the end of the round.
unfoldable pub on_active : Poll → Option ℕ → Listener → Listener
unfolding on_connect on_work read_peer
on_active p none s = on_connect none s
on_active p (some fd) s = on_work (
    read_peer p (record (on_connect (some fd) s) {
      metrics = record s.metrics { times = s.metrics.times + 1 };
    }))

unfoldable pub after_timer : Poll → Listener → Listener
unfolding on_active read_peer
after_timer p s = if p.active_in then on_active p p.peer s else read_peer p s

unfoldable pub after_hub : Poll → Turn → Turn
unfolding after_timer
after_hub p (stopped s) = stopped s
after_hub p (running s) =
    if is_terminated s.state
    then stopped s
    else running
        (after_timer p (if p.timer_work && p.timer_in then record s { pokes = s.pokes + 1 } else s))

-- One round of the loop of `run`.
unfoldable pub turn : Poll → Listener → Turn
unfolding on_hub after_hub
turn p s = after_hub p (if p.hub_in then on_hub p s else running s)

-- `Ping` on the timer's thread, for what `Heartbeat::ping` gave.
unfoldable pub after_ping : Doubles → Bool × (Heartbeat × Option ℤ) → Listener → Listener
unfolding publish on_disconnect
after_ping d (false, (h, sent)) s = on_disconnect (record s { heartbeat = h })
after_ping d (true, (h, none)) s = record s { heartbeat = h }
after_ping d (true, (h, some now)) s =
    publish (raw msg_ping (pack_heartbeat (record { timestamp = d.bits now })))
      (record s { heartbeat = h })

unfoldable pub on_ping : Doubles → ℤ → Listener → Listener
unfolding after_ping
on_ping d now s =
    if is_idle s.state
    then record s { metrics = record s.metrics { idle_ms = s.metrics.idle_ms + 5000 } }
    else after_ping d (ping s.lastest_readts now s.heartbeat)
        (record s { metrics = record s.metrics { work_ms = s.metrics.work_ms + 5000 } })

-- The words of `Work`.
abbrev words : List (List ℕ)
words =
    codes "photo"
    ∷ codes "view"
    ∷ codes "cave"
    ∷ codes "run"
    ∷ codes "maximum"
    ∷ codes "hair"
    ∷ codes "chef"
    ∷ codes "horror"
    ∷ codes "hand"
    ∷ codes "frozen"
    ∷ []

-- `Work` on the worker's thread: the next word, published as a response.
unfoldable pub on_job : Listener → Listener
unfolding publish pack_response
on_job s =
    let round : ℕ = if s.round == 10 then 1 else s.round + 1 in
    publish
      (raw msg_response
        (pack_response (response (get_or words (round - 1) []) (9 ∷ 9 ∷ 6 ∷ 5 ∷ []))))
      (record s { round = round })

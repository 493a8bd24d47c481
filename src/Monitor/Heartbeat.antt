-- ===== src/Monitor/Heartbeat.antt =====
-- socket/monitor/listener.h and listener.cpp: the heartbeat of a session. Times are whole nanoseconds, where
-- the source has `double`s of milliseconds, -1 for none; how they are rounded is left out.
pub mod Silence
mod Tests
use c_playground.Common.{
  ℕ, suc, ◌+◌, ◌-◌, ◌*◌, Bool, true, false, Option, none, some, ◌&&◌, ◌||◌, ltb, ◌==◌,
  if◌then◌else◌,
}
use c_playground.Common.Int.{ℤ, pos, negsuc, pos_part, neg_part, ◌+ℤ◌, ◌-ℤ◌}

-- A millisecond.
abbrev pub ms : ℕ
ms = 1000000

-- `HEARTBEAT_DURATION` and `HEARTBEAT_MAXRETRY`
abbrev pub heartbeat_duration : ℕ
heartbeat_duration = 5000 * ms

abbrev pub heartbeat_max_retry : ℕ
heartbeat_max_retry = 5

abbrev pub ltz : ℤ → ℤ → Bool
ltz a b = ltb (pos_part a + neg_part b) (pos_part b + neg_part a)

-- -1 millisecond, for a time that is not known.
abbrev pub never : ℤ
never = negsuc (ms - 1)

pub record Heartbeat : Type 0 where
  pub lastest_pingts : ℤ
  pub lastest_pongts : ℤ
  pub rtt : ℤ
  pub minrtt : ℤ
  pub maxrtt : ℤ
  pub retry : ℕ

-- The constructor, and `reset`, which sets the same.
unfoldable pub fresh : Heartbeat
fresh = record {
  lastest_pingts = never;
  lastest_pongts = never;
  rtt = never;
  minrtt = pos heartbeat_duration;
  maxrtt = negsuc (heartbeat_duration - 1);
  retry = heartbeat_max_retry;
}

unfoldable pub reset : Heartbeat → Heartbeat
unfolding fresh
reset h = fresh

-- `10 * maxrtt`
unfoldable pub ten_times : ℤ → ℤ
ten_times (pos n) = pos (10 * n)
ten_times (negsuc n) = negsuc (10 * n + 9)

-- The peer did not answer: the first ping has no pong yet, or the last pong is too old.
unfoldable pub is_late : Heartbeat → ℤ → Bool
unfolding ten_times
is_late h now =
    ltz (pos 0) h.lastest_pingts
    && (ltz h.rtt (pos 0)
        || ltz (pos heartbeat_duration +ℤ ten_times h.maxrtt) (now -ℤ h.lastest_pongts))

unfoldable pub count_retry : Heartbeat → ℤ → Heartbeat
unfolding is_late
count_retry h now = if is_late h now then record h { retry = h.retry - 1 } else h

-- `ping` at `now`, when the peer was last read at `readts`: whether it returns true, the heartbeat, and
-- the timestamp of the ping that it publishes.
unfoldable pub ping : ℤ → ℤ → Heartbeat → Bool × (Heartbeat × Option ℤ)
unfolding count_retry
ping readts now h =
    if ltz (now -ℤ readts) (pos heartbeat_duration)
    then (true, (h, none))
    else if h.retry == 0
    then (false, (h, none))
    else (true, (record (count_retry h now) { lastest_pingts = now }, some now))

-- `updateRTT(d)`; `HEARTBEAT_DURATION / 20.` is 250 milliseconds.
unfoldable pub update_rtt : ℤ → Heartbeat → Heartbeat
update_rtt d h = record h {
  rtt = d;
  minrtt = if ltz d h.minrtt then d else h.minrtt;
  maxrtt = if ltz h.maxrtt d && ltz d (pos (250 * ms)) then d else h.maxrtt;
  retry = heartbeat_max_retry;
}

-- What `Reader::read` does with a pong of timestamp `sent`, at `now`.
unfoldable pub on_pong : ℤ → ℤ → Heartbeat → Heartbeat
unfolding update_rtt
on_pong now sent h = update_rtt (now -ℤ sent) (record h { lastest_pongts = now })

-- ===== src/Monitor/Timers/Setting.antt =====
-- `Timer::Config` and the `struct itimerspec` made of it.
use c_playground.Common.{ℕ, ◌+◌, ◌*◌, ◌/◌, ◌^◌, ◌<◌, ◌≡◌, arith}
use c_playground.Monitor.Timers.{TimeSpec, set_timespec, Config, itimerspec}

abbrev pub nanoseconds : TimeSpec → ℕ
nanoseconds t = t.tv_sec * 1000000000 + t.tv_nsec

-- What `timerfd_settime` takes: less than a second of nanoseconds.
abbrev pub IsValid : TimeSpec → Type 0
IsValid t = t.tv_nsec < 1000000000

set_timespec_time :
    (x y : ℕ)
    → x + y / 1000 < 2 ^ 32
    → (nanoseconds (set_timespec x y) ≡ (x * 1000 + y) * 1000000) × IsValid (set_timespec x y)
unfolding set_timespec
set_timespec_time x y h = ground arith

-- When the seconds fit in 32 bits, both times of the `struct itimerspec` are those of the `Config`, and
-- both are valid for the kernel.
pub itimerspec_time :
    (c : Config)
    → c.interval_second + c.interval_millisecond / 1000 < 2 ^ 32
    → c.value_second + c.value_millisecond / 1000 < 2 ^ 32
    → (nanoseconds (itimerspec c).it_interval
        ≡ (c.interval_second * 1000 + c.interval_millisecond) * 1000000)
      × (nanoseconds (itimerspec c).it_value
          ≡ (c.value_second * 1000 + c.value_millisecond) * 1000000)
      × IsValid (itimerspec c).it_interval
      × IsValid (itimerspec c).it_value
unfolding itimerspec
itimerspec_time c h k =
    let i = set_timespec_time c.interval_second c.interval_millisecond h in
    let v = set_timespec_time c.value_second c.value_millisecond k in (i.0, v.0, i.1, v.1)

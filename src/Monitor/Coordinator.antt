-- ===== src/Monitor/Coordinator.antt =====
-- socket/monitor/time_wheel.h and examples/coordinator.cpp: the wheel of heartbeats, and the workers that
-- the coordinator kicks out. A `shared_ptr` is known by the number of its object and by its `handler`, so that
-- its uses can be counted; the pid and the timestamp, which are only logged and sent, are left out.
pub mod Held
pub mod Missed
mod Tests
use c_playground.Common.{
  ℕ, zero, suc, ◌+◌, ◌-◌, List, [], ◌∷◌, ◌++◌, Option, none, some, get_or, set, replicate, Bool,
  ◌==◌, if◌then◌else◌,
}

-- `WorkerHeartBeatInfo`
pub record Info : Type 0 where
  pub id : ℕ
  pub handler : ℕ

-- The `N` of `timeWheel`
abbrev pub wheel_size : ℕ
wheel_size = 10

-- `TimeWheel`: its slots and `i_`.
pub record TimeWheel : Type 0 where
  pub slots : List (List Info)
  pub at : ℕ

unfoldable pub new_wheel : TimeWheel
new_wheel = record { slots = replicate wheel_size []; at = wheel_size - 1 }

unfoldable pub tick : TimeWheel → List Info × TimeWheel
tick w =
    let at : ℕ = (if w.at == 0 then wheel_size else w.at) - 1 in
    (get_or w.slots at [], record { slots = set w.slots at []; at = at })

-- `current().push_back`
unfoldable pub push_current : Info → TimeWheel → TimeWheel
push_current x w = record w { slots = set w.slots w.at (get_or w.slots w.at [] ++ x ∷ []) }

-- The coordinator: the wheel, `heartBeatInfo` by its values (a key is its value's `handler`), the
-- handlers that were taken out of the poll, the latest first, and how many objects were made.
pub record Coordinator : Type 0 where
  pub wheel : TimeWheel
  pub infos : List Info
  pub kicked : List ℕ
  pub made : ℕ

unfoldable pub new_coordinator : Coordinator
unfolding new_wheel
new_coordinator = record { wheel = new_wheel; infos = []; kicked = []; made = 0 }

unfoldable pub erase_info : ℕ → List Info → List Info
erase_info fd [] = []
erase_info fd (x ∷ xs) = if x.handler == fd then erase_info fd xs else x ∷ erase_info fd xs

unfoldable pub find_info : ℕ → List Info → Option Info
find_info fd [] = none
find_info fd (x ∷ xs) = if x.handler == fd then some x else find_info fd xs

-- `AcceptWorkerConnection`, where `accept` gives `fd`.
unfoldable pub accept_worker : ℕ → Coordinator → Coordinator
unfolding erase_info push_current
accept_worker fd s =
    let x : Info = record { id = s.made; handler = fd } in
    record s {
      wheel = push_current x s.wheel;
      infos = x ∷ erase_info fd s.infos;
      made = s.made + 1;
    }

unfoldable pub push_found : Option Info → Coordinator → Option Coordinator
unfolding push_current
push_found none s = none
push_found (some x) s = some (record s { wheel = push_current x s.wheel })

-- `OnRecvHeartBeat` of a `PING` on `fd`; without an info for `fd` it follows a null pointer.
unfoldable pub receive_ping : ℕ → Coordinator → Option Coordinator
unfolding find_info push_found
receive_ping fd s = push_found (find_info fd s.infos) s

-- How many of `xs` are the object `id`.
unfoldable pub count_id : ℕ → List Info → ℕ
count_id id [] = 0
count_id id (x ∷ xs) = (if x.id == id then 1 else 0) + count_id id xs

unfoldable pub count_slots : ℕ → List (List Info) → ℕ
unfolding count_id
count_slots id [] = 0
count_slots id (xs ∷ ss) = count_id id xs + count_slots id ss

-- `use_count`, while `slot` is held.
unfoldable pub use_count : ℕ → List Info → Coordinator → ℕ
unfolding count_id count_slots
use_count id slot s = count_id id s.infos + count_slots id s.wheel.slots + count_id id slot

unfoldable pub kick : Info → Coordinator → Coordinator
unfolding erase_info
kick x s = record s { infos = erase_info x.handler s.infos; kicked = x.handler ∷ s.kicked }

-- The loop of `OnWheelTick` over the rest of `slot`.
unfoldable pub kick_all : List Info → List Info → Coordinator → Coordinator
unfolding use_count kick
kick_all slot [] s = s
kick_all slot (x ∷ xs) s = kick_all slot xs (if use_count x.id slot s == 2 then kick x s else s)

unfoldable pub on_wheel_tick : Coordinator → Coordinator
unfolding tick kick_all
on_wheel_tick s = let t = tick s.wheel in kick_all t.0 t.0 (record s { wheel = t.1 })

unfoldable pub ticks : ℕ → Coordinator → Coordinator
unfolding on_wheel_tick
ticks zero s = s
ticks (suc n) s = ticks n (on_wheel_tick s)

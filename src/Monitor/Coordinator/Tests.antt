-- ===== src/Monitor/Coordinator/Tests.antt =====
-- Runs of the wheel, and the claims on it at concrete inputs.
use c_playground.Common.{◌<◌, ◌≡◌, refl, arith, [], ◌∷◌, All, some, inr, length}
use c_playground.Monitor.Coordinator.{
  wheel_size, new_wheel, tick, push_current, Coordinator, new_coordinator, erase_info, find_info,
  accept_worker, receive_ping, count_id, count_slots, use_count, kick, kick_all, on_wheel_tick,
  ticks,
}
use c_playground.Monitor.Coordinator.Held.{IsOwn, IsHeld, ticks-receive_ping-IsHeld}
use c_playground.Monitor.Coordinator.Missed.{first_info}

abbrev connected : Coordinator
connected = accept_worker 7 new_coordinator

-- A worker that never pings is kicked out by the tenth tick, not by the ninth.
nine_ticks : (ticks 9 connected).kicked ≡ []
unfolding new_wheel tick push_current new_coordinator erase_info accept_worker count_id count_slots
    use_count kick kick_all on_wheel_tick ticks
nine_ticks = refl

ten_ticks : (ticks 10 connected).kicked ≡ 7 ∷ []
unfolding new_wheel tick push_current new_coordinator erase_info accept_worker count_id count_slots
    use_count kick kick_all on_wheel_tick ticks
ten_ticks = refl

-- The same worker, after the wheel has ticked once.
abbrev ticked : Coordinator
ticked = ticks 1 connected

ticked-IsHeld : IsHeld (first_info 7) ticked
unfolding new_wheel tick push_current new_coordinator erase_info find_info accept_worker count_id
    count_slots use_count kick kick_all on_wheel_tick ticks
ticked-IsHeld = record { found = refl; spared = tt }

ticked_length : length ticked.wheel.slots ≡ wheel_size
unfolding new_wheel tick push_current new_coordinator erase_info accept_worker count_id count_slots
    use_count kick kick_all on_wheel_tick ticks
ticked_length = refl

ticked_at : ticked.wheel.at < wheel_size
unfolding new_wheel tick push_current new_coordinator erase_info accept_worker count_id count_slots
    use_count kick kick_all on_wheel_tick ticks
ticked_at = omega arith

ticked-IsOwn : All (All (IsOwn (first_info 7))) ticked.wheel.slots
unfolding new_wheel tick push_current new_coordinator erase_info accept_worker count_id count_slots
    use_count kick kick_all on_wheel_tick ticks
ticked-IsOwn = (tt, (tt, (tt, (tt, (tt, (tt, (tt, (tt, (tt, ((inr refl, tt), tt))))))))))

ticks-receive_ping-IsHeld_example :
    (t : Coordinator) × (receive_ping 7 ticked ≡ some t) × IsHeld (first_info 7) (ticks 9 t)
ticks-receive_ping-IsHeld_example =
    ticks-receive_ping-IsHeld (first_info 7) ticked 9 ticked-IsHeld ticked_length ticked_at
      ticked-IsOwn (omega arith)

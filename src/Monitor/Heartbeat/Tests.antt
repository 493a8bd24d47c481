-- ===== src/Monitor/Heartbeat/Tests.antt =====
-- Runs of the heartbeat of socket/monitor, and its theorems at concrete inputs.
use c_playground.Common.{ℕ, ◌*◌, ◌≡◌, refl, arith, List, [], ◌∷◌, All, false, length, leb, take}
use c_playground.Common.Int.{ℤ, pos, ◌+ℤ◌, ◌-ℤ◌}
use c_playground.Monitor.Heartbeat.{ms, never, fresh, ping}
use c_playground.Monitor.Heartbeat.Silence.{ping_all, IsDue, ping_all-fresh}

abbrev at : ℕ → ℤ
at n = pos (n * ms)

abbrev silence : List ℤ
silence = at 5000 ∷ at 10000 ∷ at 15000 ∷ at 20000 ∷ at 25000 ∷ at 30000 ∷ at 35000 ∷ []

due : All (IsDue never) silence
unfolding ◌+ℤ◌
due = omega arith

seventh : ping_all never silence fresh ≡ (false, take 6 silence)
unfolding ping fresh ◌+ℤ◌ ◌-ℤ◌
seventh = refl

ping_all-fresh_example : ping_all never silence fresh ≡ (leb (length silence) 6, take 6 silence)
ping_all-fresh_example = ping_all-fresh never silence due

abbrev late_answers : List (ℤ × ℤ)
late_answers = (at 5000, at 5300) ∷ (at 10000, at 90000) ∷ (at 95000, at 95001) ∷ []

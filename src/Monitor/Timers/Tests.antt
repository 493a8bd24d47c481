-- ===== src/Monitor/Timers/Tests.antt =====
-- The claims on the timer and its runner, at concrete inputs.
use c_playground.Common.{◌≡◌, refl, arith, [], ◌∷◌, ◌++◌, some, true, false, ◌&&◌}
use c_playground.Monitor.Timers.{
  push, is_in, is_top, notify, wake, enqueue, Config, Task, TimerRunner, new_timers, post, posts,
  call, timer_round,
}
use c_playground.Monitor.Timers.Awake.{Reach, starts, next, calls, IsReady, Reach-IsReady}
use c_playground.Monitor.Timers.Sorted.{IsSorted}
use c_playground.Monitor.Timers.Due.{select, is_due, is_marked, timer_round_ran}

abbrev quarter : Config
quarter = record {
  interval_second = 0;
  interval_millisecond = 0;
  value_second = 1;
  value_millisecond = 2250;
}

-- Two tasks of 20 and 50 milliseconds, made at 100.
abbrev soon : Task
soon = record {
  id = 0;
  runat = 120;
  duration = 20;
  repeated = false;
  callable = true;
  disposable = true;
}

abbrev late : Task
late = record {
  id = 0;
  runat = 150;
  duration = 50;
  repeated = true;
  callable = true;
  disposable = false;
}

abbrev two_posted : TimerRunner
two_posted = call (posts soon) (call (posts late) new_timers)

two_posted-Reach : Reach 100 two_posted
two_posted-Reach =
    next {c = 100} {s = two_posted}
      (next {c = 100} {s = call (posts late) new_timers} (starts 100) (omega arith)
        (calls (posts late) (omega arith) refl))
      (omega arith) (calls (posts soon) (omega arith) refl)

two_posted_last : two_posted.last_id ≡ 2
unfolding call post wake enqueue notify is_top push new_timers
two_posted_last = refl

Reach-IsReady_example : IsReady 100 two_posted
Reach-IsReady_example = Reach-IsReady two_posted-Reach

two_posted_events : two_posted.events ≡ 0
unfolding call post wake enqueue notify is_top push new_timers
two_posted_events = refl

timer_round_ran_example :
    IsSorted two_posted.tasks
    × ((s : TimerRunner) × (timer_round 125 126 (posts late ∷ []) two_posted ≡ some s)
        × (s.ran
            ≡ two_posted.ran
              ++ select (λ t. is_due 125 t && is_marked two_posted.marks t) two_posted.tasks))
timer_round_ran_example =
    timer_round_ran two_posted 125 126 (posts late ∷ []) two_posted-Reach
      (omega (arith, two_posted_events))

-- The sooner task is the one that is due.
due_task :
    select (λ t. is_due 125 t && is_marked two_posted.marks t) two_posted.tasks
    ≡ record soon { id = 2 } ∷ []
unfolding call post wake enqueue notify is_top push new_timers is_in
due_task = refl

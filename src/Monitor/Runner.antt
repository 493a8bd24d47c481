-- ===== src/Monitor/Runner.antt =====
-- socket/monitor/runner.h and runner.cpp: the ids that IdManager gives out, and the tasks that TaskRunner
-- takes from other threads. A task is known by a number; `Timers` has the other runner.
pub mod Ids
pub mod Counting
mod Tests
use c_playground.Common.{
  ℕ, zero, suc, ◌+◌, ◌-◌, List, [], ◌∷◌, ◌++◌, Option, none, some, Bool, true, false, length,
  get_or, set, take, drop, ltb, leb, if◌then◌else◌,
}

unfoldable pub one_more : Option ℕ → Option ℕ
one_more none = none
one_more (some i) = some (suc i)

-- The loop of `alloc` over the bits of `IdManager<N>`: the first id that is free.
unfoldable pub first_free : List Bool → Option ℕ
unfolding one_more
first_free [] = none
first_free (false ∷ s) = some 0
first_free (true ∷ s) = one_more (first_free s)

unfoldable pub take_id : List Bool → Option ℕ → Option (ℕ × List Bool)
take_id s none = none
take_id s (some i) = some (i, set s i true)

-- `alloc`; `none` is -1. (The lock makes each call one step.)
unfoldable pub alloc : List Bool → Option (ℕ × List Bool)
unfolding first_free take_id
alloc s = take_id s (first_free s)

-- `dealloc` and `is_valid`, for an `id` that is not negative.
unfoldable pub dealloc : ℕ → List Bool → List Bool
dealloc i s = if ltb i (length s) then set s i false else s

unfoldable pub is_valid : ℕ → List Bool → Bool
is_valid i s = if ltb i (length s) then get_or s i false else false

-- `Notifier::kNotifyQuit`
abbrev pub notify_quit : ℕ
notify_quit = 0x1ffffffff

-- `TaskRunner`: the deque from its front, the count of the event descriptor, the tasks that were pushed
-- by threads that have yet to notify, and the tasks that ran.
pub record TaskRunner : Type 0 where
  pub tasks : List ℕ
  pub events : ℕ
  pub unnotified : ℕ
  pub ran : List ℕ

unfoldable pub new_runner : TaskRunner
new_runner = record { tasks = []; events = 0; unnotified = 0; ran = [] }

-- The two steps of `post` for a task with a function.
unfoldable pub push_task : ℕ → TaskRunner → TaskRunner
push_task t r = record r { tasks = t ∷ r.tasks; unnotified = r.unnotified + 1 }

unfoldable pub notify_task : TaskRunner → TaskRunner
notify_task r = record r { events = r.events + 1; unnotified = r.unnotified - 1 }

-- `stop` notifies of the end.
unfoldable pub stop : TaskRunner → TaskRunner
stop r = record r { events = r.events + notify_quit }

-- A round of `Run`: on with the loop, out of it, or `front` of an empty deque.
pub data Round : Type 0 where
  goes_on : TaskRunner → Round
  quits : TaskRunner → Round
  undefined : Round

unfoldable pub run_round : TaskRunner → Round
run_round r =
    if leb notify_quit r.events
    then quits (record r { events = 0 })
    else if ltb (length r.tasks) r.events
    then undefined
    else goes_on (record r {
      tasks = drop r.events r.tasks;
      events = 0;
      ran = r.ran ++ take r.events r.tasks;
    })

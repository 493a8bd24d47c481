-- ===== src/Monitor/Timers.antt =====
-- socket/monitor/timer.h, timer.cpp, runner.h and runner.cpp: the timer's setting, and `tRunner`, which
-- runs tasks when they are due. Times are whole milliseconds, where the source has `double`s.
pub mod Setting
pub mod Calls
pub mod Awake
pub mod Sorted
pub mod Due
mod Tests
use c_playground.Common.{
  ℕ, zero, suc, ◌+◌, ◌-◌, ◌*◌, ◌/◌, ◌%◌, ◌^◌, List, [], ◌∷◌, ◌++◌, Option, none, some, Bool, true,
  false, not, ◌&&◌, ◌||◌, ◌==◌, ltb, leb, if◌then◌else◌,
}
use c_playground.Common.Int.{ℤ, pos, negsuc}
use c_playground.Monitor.Listener.{State, idle, work, is_idle, is_work}
use c_playground.Monitor.Runner.{notify_quit}

pub record TimeSpec : Type 0 where
  pub tv_sec : ℕ
  pub tv_nsec : ℕ

-- `SETTIMESPEC` on two `u32`
unfoldable pub set_timespec : ℕ → ℕ → TimeSpec
set_timespec x y =
    if leb 1000 y
    then record { tv_sec = (x + y / 1000) % 2 ^ 32; tv_nsec = y % 1000 * 1000000 }
    else record { tv_sec = x; tv_nsec = y * 1000000 }

-- `Timer::Config`
pub record Config : Type 0 where
  pub interval_second : ℕ
  pub interval_millisecond : ℕ
  pub value_second : ℕ
  pub value_millisecond : ℕ

-- `struct itimerspec`
pub record TimerSpec : Type 0 where
  pub it_interval : TimeSpec
  pub it_value : TimeSpec

unfoldable pub itimerspec : Config → TimerSpec
unfolding set_timespec
itimerspec c = record {
  it_interval = set_timespec c.interval_second c.interval_millisecond;
  it_value = set_timespec c.value_second c.value_millisecond;
}

-- `kLeastDuration`
abbrev pub least_duration : ℕ
least_duration = 10

-- `tTask`: `callable` when it has a function or a closure, `disposable` when it has a `dispose`.
pub record Task : Type 0 where
  pub id : ℕ
  pub runat : ℕ
  pub duration : ℕ
  pub repeated : Bool
  pub callable : Bool
  pub disposable : Bool

-- The id that `post` sets, and the time that a round sets.
abbrev pub with_id : ℕ → Task → Task
with_id i t = record t { id = i }

abbrev pub with_runat : ℕ → Task → Task
with_runat n t = record t { runat = n }

-- `tRunner`: the heap in the order in which `top` and `pop` take from it (of equal times, the earlier
-- pushed first; the C++ library leaves that open), the last id, the ids that are marked, the state, the
-- milliseconds that the timer was set to, the count of the event descriptor, and what was run and disposed.
pub record TimerRunner : Type 0 where
  pub tasks : List Task
  pub last_id : ℕ
  pub marks : List ℕ
  pub state : State
  pub timer : Option ℕ
  pub events : ℕ
  pub ran : List Task
  pub disposed : List Task

unfoldable pub new_timers : TimerRunner
new_timers = record {
  tasks = [];
  last_id = 0;
  marks = [];
  state = idle;
  timer = none;
  events = 0;
  ran = [];
  disposed = [];
}

-- `priority_queue::push`
unfoldable pub push : Task → List Task → List Task
push t [] = t ∷ []
push t (u ∷ ts) = if ltb t.runat u.runat then t ∷ u ∷ ts else u ∷ push t ts

-- `unordered_set::count` and `erase`
unfoldable pub is_in : ℕ → List ℕ → Bool
is_in i [] = false
is_in i (j ∷ s) = (i == j) || is_in i s

unfoldable pub erase : ℕ → List ℕ → List ℕ
erase i [] = []
erase i (j ∷ s) = if i == j then erase i s else j ∷ erase i s

-- `top.runat == task.runat`
unfoldable pub is_top : Task → List Task → Bool
is_top t [] = false
is_top t (u ∷ ts) = u.runat == t.runat

unfoldable pub notify : TimerRunner → TimerRunner
notify r = record r { events = r.events + 1 }

-- `post` of a task with a function once it is in the heap: what wakes the runner for it.
unfoldable pub wake : Task → TimerRunner → TimerRunner
unfolding notify is_top
wake t r =
    if ltb t.duration least_duration
    then notify r
    else if is_idle r.state
    then record r { timer = some t.duration; state = work }
    else if is_top t r.tasks
    then record r { timer = some t.duration }
    else r

unfoldable pub enqueue : Task → TimerRunner → TimerRunner
unfolding push
enqueue t r = record r { tasks = push t r.tasks; last_id = t.id; marks = t.id ∷ r.marks }

-- `post`, with the id or -1 (`none`) that it returns.
unfoldable pub post : Task → TimerRunner → Option ℕ × TimerRunner
unfolding enqueue wake notify
post t r =
    if t.callable
    then (some (r.last_id + 1), wake t (enqueue (with_id (r.last_id + 1) t) r))
    else (none, notify r)

unfoldable pub cancel : ℤ → TimerRunner → TimerRunner
unfolding erase
cancel (pos i) r = if ltb 0 i && ltb i r.last_id then record r { marks = erase i r.marks } else r
cancel (negsuc n) r = r

-- `dispose` of a task, when it has one.
unfoldable pub dispose : Task → TimerRunner → TimerRunner
dispose t r = if t.disposable then record r { disposed = r.disposed ++ (t ∷ []) } else r

-- A due task is kept for the run when it is marked.
unfoldable pub keep_task : Bool → Task → List Task → List Task
keep_task true t due = t ∷ due
keep_task false t due = due

unfoldable pub clear : Bool → Task → TimerRunner → TimerRunner
unfolding dispose
clear true t r = r
clear false t r = dispose t r

-- The loop of `Run` over the heap, `ts`, at `now`: the tasks to run, and the runner without those that are due.
unfoldable pub collect : ℕ → List Task → TimerRunner → List Task × TimerRunner
unfolding keep_task clear is_in
collect now [] r = ([], record r { tasks = [] })
collect now (t ∷ ts) r =
    let rest = collect now ts (clear (is_in t.id r.marks) t r) in
    if ltb t.runat (now + least_duration)
    then (keep_task (is_in t.id r.marks) t rest.0, rest.1)
    else ([], record r { tasks = t ∷ ts })

-- A task that was run is put back, or disposed of and no longer marked.
unfoldable pub put_back : ℕ → Task → TimerRunner → TimerRunner
unfolding push dispose erase
put_back now t r =
    if t.repeated
    then record r { tasks = push (with_runat (now + t.duration) t) r.tasks }
    else (let s = dispose t r in record s { marks = erase t.id s.marks })

unfoldable pub finish_tasks : ℕ → List Task → TimerRunner → TimerRunner
unfolding put_back
finish_tasks now [] r = r
finish_tasks now (t ∷ ts) r = finish_tasks now ts (put_back now t r)

-- The end of a round, with the heap `ts`: the timer is set for the top task.
unfoldable pub settle : ℕ → List Task → TimerRunner → TimerRunner
unfolding notify
settle now [] r = record r { timer = none; state = idle }
settle now (t ∷ ts) r =
    if ltb t.runat (now + least_duration)
    then notify r
    else record r { timer = some (t.runat - now) }

unfoldable pub finish_round : ℕ → List Task → TimerRunner → TimerRunner
unfolding finish_tasks settle
finish_round now due r = let s = finish_tasks now due r in settle now s.tasks s

-- What tasks and other threads call while the tasks of a round run.
pub data Call : Type 0 where
  posts : Task → Call
  cancels : ℤ → Call

unfoldable pub call : Call → TimerRunner → TimerRunner
unfolding post cancel
call (posts t) r = (post t r).1
call (cancels i) r = cancel i r

unfoldable pub make_calls : List Call → TimerRunner → TimerRunner
unfolding call
make_calls [] r = r
make_calls (k ∷ ks) r = make_calls ks (call k r)

unfoldable pub run_tasks : List Task → List Call → TimerRunner → TimerRunner
unfolding make_calls
run_tasks due calls r = make_calls calls (record r { ran = r.ran ++ due })

-- A round of `Run` at `now`, its tasks run by `later`; `none` when the count says to quit.
unfoldable pub timer_round : ℕ → ℕ → List Call → TimerRunner → Option TimerRunner
unfolding collect finish_round run_tasks
timer_round now later calls r =
    let c = collect now r.tasks (record r { events = 0 }) in
    if leb notify_quit r.events
    then none
    else some (finish_round later c.0 (run_tasks c.0 calls c.1))

-- The listener's answer to the timer's expiry, at work only: it reads it and posts `tTask::Nil`.
unfoldable pub on_expiry : TimerRunner → TimerRunner
unfolding notify
on_expiry r = if is_work r.state then notify (record r { timer = none }) else r

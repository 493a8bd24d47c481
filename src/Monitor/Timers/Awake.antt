-- ===== src/Monitor/Timers/Awake.antt =====
-- The timer runner with tasks left always has a wake-up under way.
use mathlib.Core.Path.{subst}
use c_playground.Common.{
  ℕ, ◌+◌, ◌-◌, ◌≤◌, ◌≡◌, refl, sym, ◌∙◌, arith, List, [], ◌∷◌, ◌++◌, All, All-weaken, Option, none,
  some, Bool, true, false, ltb, leb, if_intro,
}
use c_playground.Monitor.Listener.{idle, work, is_work}
use c_playground.Monitor.Runner.{notify_quit}
use c_playground.Monitor.Timers.{
  Task, least_duration, with_runat, TimerRunner, new_timers, is_in, notify, dispose, keep_task,
  clear, collect, put_back, finish_tasks, settle, finish_round, Call, call, make_calls, run_tasks,
  timer_round, on_expiry,
}
use c_playground.Monitor.Timers.Calls.{
  IsCurrent, IsShort, IsSettled, at_work, at_rest, IsAwake, nothing_left, notified, armed, All-push,
  IsCurrentCall, call-IsSettled, call-IsCurrent, call-IsAwake,
}

pub dispose-same :
    (t : Task) (r : TimerRunner) (P : TimerRunner → Type 0)
    → ((d : List Task) → P (record r { disposed = d }))
    → P (dispose t r)
dispose-same t r P h =
    unfold dispose in if_intro P t.disposable (λ q. h (r.disposed ++ (t ∷ []))) (λ q. h r.disposed)

pub clear-same :
    (b : Bool) (t : Task) (r : TimerRunner) (P : TimerRunner → Type 0)
    → ((d : List Task) → P (record r { disposed = d }))
    → P (clear b t r)
clear-same true t r P h = unfold clear in h r.disposed
clear-same false t r P h = unfold clear in dispose-same t r P h

keep_task-All :
    (P : Task → Type 0) (b : Bool) (t : Task) (due : List Task)
    → P t
    → All P due
    → All P (keep_task b t due)
keep_task-All P true t due h v = unfold keep_task in (h, v)
keep_task-All P false t due h v = unfold keep_task in v

collect_state : (now : ℕ) (ts : List Task) (r : TimerRunner) → (collect now ts r).1.state ≡ r.state
unfolding collect
collect_state now [] r = refl
collect_state now (t ∷ ts) r =
    if_intro (λ (p : List Task × TimerRunner). p.1.state ≡ r.state)
      (ltb t.runat (now + least_duration))
      (λ q.
        collect_state now ts (clear (is_in t.id r.marks) t r)
        ∙ clear-same (is_in t.id r.marks) t r (λ s. s.state ≡ r.state) (λ d. refl))
      (λ q. refl)

-- The tasks that a round runs and those that it leaves are from the heap.
collect-All :
    (P : Task → Type 0) (now : ℕ) (ts : List Task) (r : TimerRunner)
    → All P ts
    → All P (collect now ts r).0 × All P (collect now ts r).1.tasks
unfolding collect
collect-All P now [] r v = (tt, tt)
collect-All P now (t ∷ ts) r v =
    let h = collect-All P now ts (clear (is_in t.id r.marks) t r) v.1 in
    if_intro (λ (p : List Task × TimerRunner). All P p.0 × All P p.1.tasks)
      (ltb t.runat (now + least_duration))
      (λ q. (
        keep_task-All P (is_in t.id r.marks) t (collect now ts (clear (is_in t.id r.marks) t r)).0
            v.0 h.0,
        h.1,
      ))
      (λ q. (tt, v))

put_back-IsSettled :
    (now : ℕ) (t : Task) (due : List Task) (r : TimerRunner)
    → IsSettled (t ∷ due) r
    → IsSettled due (put_back now t r)
put_back-IsSettled now t due r (at_work w) =
    unfold put_back in
    if_intro (IsSettled due) t.repeated (λ q. at_work w)
      (λ q. at_work (dispose-same t r (λ s. s.state ≡ work) (λ d. w)))
put_back-IsSettled now t due r (at_rest i s d) =
    unfold put_back in
    if_intro (IsSettled due) t.repeated
      (λ q. at_rest i (All-push IsShort (with_runat (now + t.duration) t) r.tasks d.0 s) d.1)
      (λ q.
        at_rest (dispose-same t r (λ u. u.state ≡ idle) (λ e. i))
          (dispose-same t r (λ u. All IsShort u.tasks) (λ e. s)) d.1)

put_back-IsCurrent :
    (now : ℕ) (t : Task) (r : TimerRunner)
    → All (IsCurrent now) r.tasks
    → All (IsCurrent now) (put_back now t r).tasks
put_back-IsCurrent now t r v =
    unfold put_back in
    if_intro (λ (s : TimerRunner). All (IsCurrent now) s.tasks) t.repeated
      (λ q. All-push (IsCurrent now) (with_runat (now + t.duration) t) r.tasks (omega arith) v)
      (λ q. dispose-same t r (λ s. All (IsCurrent now) s.tasks) (λ d. v))

finish_tasks-IsSettled :
    (now : ℕ) (due : List Task) (r : TimerRunner)
    → IsSettled due r
    → All (IsCurrent now) r.tasks
    → IsSettled [] (finish_tasks now due r) × All (IsCurrent now) (finish_tasks now due r).tasks
unfolding finish_tasks
finish_tasks-IsSettled now [] r v h = (v, h)
finish_tasks-IsSettled now (t ∷ due) r v h =
    finish_tasks-IsSettled now due (put_back now t r) (put_back-IsSettled now t due r v)
      (put_back-IsCurrent now t r h)

-- What holds of the runner at a time between its steps.
pub record IsReady (c : ℕ) (r : TimerRunner) : Type 0 where
  pub settled : IsSettled [] r
  pub current : All (IsCurrent c) r.tasks
  pub awake : IsAwake r

-- The end of a round wakes for the top task.
settle-IsReady :
    (now : ℕ) (ts : List Task) (r : TimerRunner)
    → r.tasks ≡ ts
    → IsSettled [] r
    → All (IsCurrent now) r.tasks
    → IsReady now (settle now ts r)
settle-IsReady now [] r e v h =
    unfold settle in
    record {
      settled = at_rest refl (subst (All IsShort) (sym e) tt) tt;
      current = h;
      awake = nothing_left e;
    }
settle-IsReady now (t ∷ ts) r e v h =
    unfold settle notify in
    if_intro (IsReady now) (ltb t.runat (now + least_duration))
      (λ q. record { settled = same_events v; current = h; awake = notified (omega arith) })
      (λ q. record { settled = same_timer v; current = h; awake = set q v })
  where
    same_events : IsSettled [] r → IsSettled [] (record r { events = r.events + 1 })
    same_events (at_work w) = at_work w
    same_events (at_rest i s d) = at_rest i s d

    same_timer : IsSettled [] r → IsSettled [] (record r { timer = some (t.runat - now) })
    same_timer (at_work w) = at_work w
    same_timer (at_rest i s d) = at_rest i s d

    set :
        ltb t.runat (now + least_duration) ≡ false
        → IsSettled [] r
        → IsAwake (record r { timer = some (t.runat - now) })
    set q (at_work w) = armed (t.runat - now) w refl
    set q (at_rest i s d) =
        let short = (subst (All IsShort) e s).0 in
        let made = (subst (All (IsCurrent now)) e h).0 in absurd (ground (arith, q, short, made))

make_calls-IsSettled :
    (c : ℕ) (ks : List Call) (due : List Task) (r : TimerRunner)
    → All (IsCurrentCall c) ks
    → IsSettled due r
    → All (IsCurrent c) r.tasks
    → IsSettled due (make_calls ks r) × All (IsCurrent c) (make_calls ks r).tasks
unfolding make_calls
make_calls-IsSettled c [] due r h v w = (v, w)
make_calls-IsSettled c (k ∷ ks) due r h v w =
    make_calls-IsSettled c ks due (call k r) h.1 (call-IsSettled k due r v)
      (call-IsCurrent c k r h.0 w)

collect-IsSettled :
    (now : ℕ) (r : TimerRunner)
    → IsSettled [] r
    → IsSettled
        (collect now r.tasks (record r { events = 0 })).0
        (collect now r.tasks (record r { events = 0 })).1
collect-IsSettled now r (at_work w) =
    at_work (collect_state now r.tasks (record r { events = 0 }) ∙ w)
collect-IsSettled now r (at_rest i s d) =
    let h = collect-All IsShort now r.tasks (record r { events = 0 }) s in
    at_rest (collect_state now r.tasks (record r { events = 0 }) ∙ i) h.1 h.0

ran-IsSettled :
    (due ran : List Task) (r : TimerRunner)
    → IsSettled due r
    → IsSettled due (record r { ran = ran })
ran-IsSettled due ran r (at_work w) = at_work w
ran-IsSettled due ran r (at_rest i s d) = at_rest i s d

abbrev IfSome : (TimerRunner → Type 0) → Option TimerRunner → Type 0
IfSome P none = Unit {0}
IfSome P (some s) = P s

timer_round-IsReady :
    (now c : ℕ) (ks : List Call) (r : TimerRunner)
    → All (IsCurrentCall c) ks
    → IsSettled [] r
    → All (IsCurrent c) r.tasks
    → IfSome (IsReady c) (timer_round now c ks r)
timer_round-IsReady now c ks r h v w =
    unfold timer_round finish_round run_tasks in
    if_intro (IfSome (IsReady c)) (leb notify_quit r.events) (λ q. tt)
      (λ q.
        settle-IsReady c (finish_tasks c p.0 later).tasks (finish_tasks c p.0 later) refl ends.0
          ends.1)
  where
    p : List Task × TimerRunner
    p = collect now r.tasks (record r { events = 0 })

    later : TimerRunner
    later = make_calls ks (record p.1 { ran = p.1.ran ++ p.0 })

    called : IsSettled p.0 later × All (IsCurrent c) later.tasks
    called =
        make_calls-IsSettled c ks p.0 (record p.1 { ran = p.1.ran ++ p.0 }) h
          (ran-IsSettled p.0 (p.1.ran ++ p.0) p.1 (collect-IsSettled now r v))
          (collect-All (IsCurrent c) now r.tasks (record r { events = 0 }) w).1

    ends :
        IsSettled [] (finish_tasks c p.0 later) × All (IsCurrent c) (finish_tasks c p.0 later).tasks
    ends = finish_tasks-IsSettled c p.0 later called.0 called.1

-- What happens to the runner at time `c`, a round being one step that ends then.
pub data Step (c : ℕ) (r s : TimerRunner) : Type 0 where
  calls : (k : Call) → IsCurrentCall c k → s ≡ call k r → Step c r s
  expires : s ≡ on_expiry r → Step c r s
  runs :
      (now : ℕ) (ks : List Call)
      → All (IsCurrentCall c) ks
      → timer_round now c ks r ≡ some s
      → Step c r s

-- What is reached from the start, as time goes on.
pub data Reach : ℕ → TimerRunner → Type 0 where
  starts : (c : ℕ) → Reach c new_timers
  next : {c d : ℕ} {r s : TimerRunner} → Reach c r → c ≤ d → Step d r s → Reach d s

on_expiry-IsReady : (c : ℕ) (r : TimerRunner) → IsReady c r → IsReady c (on_expiry r)
on_expiry-IsReady c r v =
    unfold on_expiry notify in
    if_intro (IsReady c) (is_work r.state)
      (λ q. record {
        settled = same v.settled;
        current = v.current;
        awake = notified (omega arith);
      })
      (λ q. v)
  where
    same : IsSettled [] r → IsSettled [] (record r { timer = none; events = r.events + 1 })
    same (at_work w) = at_work w
    same (at_rest i s d) = at_rest i s d

later-IsReady : (c d : ℕ) (r : TimerRunner) → c ≤ d → IsReady c r → IsReady d r
later-IsReady c d r h v = record {
  settled = v.settled;
  current = All-weaken (IsCurrent c) (IsCurrent d) r.tasks (λ t k. omega arith) v.current;
  awake = v.awake;
}

Step-IsReady : {c : ℕ} {r s : TimerRunner} → Step c r s → IsReady c r → IsReady c s
Step-IsReady {c} {r} {s} (calls k h e) v = subst (IsReady c) (sym e) (record {
  settled = call-IsSettled k [] r v.settled;
  current = call-IsCurrent c k r h v.current;
  awake = call-IsAwake k r v.settled v.awake;
})
Step-IsReady {c} {r} {s} (expires e) v = subst (IsReady c) (sym e) (on_expiry-IsReady c r v)
Step-IsReady {c} {r} {s} (runs now ks h e) v =
    subst (IfSome (IsReady c)) e (timer_round-IsReady now c ks r h v.settled v.current)

-- However tasks are posted, no earlier than they were made, and cancelled, while rounds run too: whenever
-- a task is left, the runner is notified, or it is at work with its timer set; at rest it has tasks of
-- less than 10 milliseconds only; and no task is later than its duration from now.
pub Reach-IsReady : {c : ℕ} {r : TimerRunner} → Reach c r → IsReady c r
Reach-IsReady (starts c) =
    unfold new_timers in
    record { settled = at_rest refl tt tt; current = tt; awake = nothing_left refl }
Reach-IsReady (next {c} {d} {r} {s} p h st) =
    Step-IsReady st (later-IsReady c d r h (Reach-IsReady p))

-- ===== src/Monitor/Timers/Sorted.antt =====
-- The timer runner's heap stays in the order of its tasks' times.
use mathlib.Core.Path.{subst}
use c_playground.Common.{
  ℕ, ◌+◌, ◌≤◌, ◌≡◌, refl, sym, arith, List, [], ◌∷◌, ◌++◌, All, All-weaken, Option, none, some,
  true, ltb, leb, if_intro,
}
use c_playground.Monitor.Listener.{is_work}
use c_playground.Monitor.Runner.{notify_quit}
use c_playground.Monitor.Timers.{
  Task, least_duration, with_id, with_runat, TimerRunner, new_timers, push, is_in, notify, enqueue,
  post, clear, collect, put_back, finish_tasks, settle, finish_round, Call, posts, cancels, call,
  make_calls, run_tasks, timer_round, on_expiry,
}
use c_playground.Monitor.Timers.Calls.{wake_tasks, cancel-same, All-push}
use c_playground.Monitor.Timers.Awake.{dispose-same, calls, expires, runs, Reach, starts, next}

-- In the order of their times.
abbrev pub IsSorted : List Task → Type 0
IsSorted [] = Unit {0}
IsSorted (t ∷ ts) = All (λ u. t.runat ≤ u.runat) ts × IsSorted ts

push-IsSorted : (t : Task) (ts : List Task) → IsSorted ts → IsSorted (push t ts)
unfolding push
push-IsSorted t [] v = (tt, tt)
push-IsSorted t (u ∷ ts) v =
    if_intro IsSorted (ltb t.runat u.runat) (λ e. ((before e, below e), v))
      (λ e.
        (All-push (λ w. u.runat ≤ w.runat) t ts (ground (arith, e)) v.0, push-IsSorted t ts v.1))
  where
    before : ltb t.runat u.runat ≡ true → t.runat ≤ u.runat
    before e = ground (arith, e)

    below : ltb t.runat u.runat ≡ true → All (λ w. t.runat ≤ w.runat) ts
    below e =
        All-weaken (λ w. u.runat ≤ w.runat) (λ w. t.runat ≤ w.runat) ts
          (λ w h. omega (arith, before e)) v.0

collect-IsSorted :
    (now : ℕ) (ts : List Task) (r : TimerRunner) → IsSorted ts → IsSorted (collect now ts r).1.tasks
unfolding collect
collect-IsSorted now [] r v = tt
collect-IsSorted now (t ∷ ts) r v =
    if_intro (λ (p : List Task × TimerRunner). IsSorted p.1.tasks)
      (ltb t.runat (now + least_duration))
      (λ q. collect-IsSorted now ts (clear (is_in t.id r.marks) t r) v.1) (λ q. v)

call-IsSorted : (k : Call) (r : TimerRunner) → IsSorted r.tasks → IsSorted (call k r).tasks
call-IsSorted (posts t) r v =
    unfold call post notify in
    if_intro (λ (p : Option ℕ × TimerRunner). IsSorted p.1.tasks) t.callable
      (λ q.
        subst IsSorted (sym (wake_tasks u (enqueue u r)))
          (unfold enqueue in push-IsSorted u r.tasks v))
      (λ q. v)
  where
    u : Task
    u = with_id (r.last_id + 1) t
call-IsSorted (cancels i) r v = unfold call in cancel-same i r (λ s. IsSorted s.tasks) (λ m. v)

make_calls-IsSorted :
    (ks : List Call) (r : TimerRunner) → IsSorted r.tasks → IsSorted (make_calls ks r).tasks
unfolding make_calls
make_calls-IsSorted [] r v = v
make_calls-IsSorted (k ∷ ks) r v = make_calls-IsSorted ks (call k r) (call-IsSorted k r v)

finish_tasks-IsSorted :
    (now : ℕ) (due : List Task) (r : TimerRunner)
    → IsSorted r.tasks
    → IsSorted (finish_tasks now due r).tasks
unfolding finish_tasks
finish_tasks-IsSorted now [] r v = v
finish_tasks-IsSorted now (t ∷ due) r v = finish_tasks-IsSorted now due (put_back now t r) (back v)
  where
    back : IsSorted r.tasks → IsSorted (put_back now t r).tasks
    back w =
        unfold put_back in
        if_intro (λ (s : TimerRunner). IsSorted s.tasks) t.repeated
          (λ q. push-IsSorted (with_runat (now + t.duration) t) r.tasks w)
          (λ q. dispose-same t r (λ s. IsSorted s.tasks) (λ d. w))

pub settle-same :
    (now : ℕ) (ts : List Task) (r : TimerRunner)
    → ((settle now ts r).tasks ≡ r.tasks) × ((settle now ts r).ran ≡ r.ran)
settle-same now [] r = unfold settle in (refl, refl)
settle-same now (t ∷ ts) r =
    unfold settle notify in
    if_intro (λ (s : TimerRunner). (s.tasks ≡ r.tasks) × (s.ran ≡ r.ran))
      (ltb t.runat (now + least_duration)) (λ q. (refl, refl)) (λ q. (refl, refl))

abbrev SortedIfSome : Option TimerRunner → Type 0
SortedIfSome none = Unit {0}
SortedIfSome (some s) = IsSorted s.tasks

timer_round-IsSorted :
    (now c : ℕ) (ks : List Call) (r : TimerRunner)
    → IsSorted r.tasks
    → SortedIfSome (timer_round now c ks r)
timer_round-IsSorted now c ks r v =
    unfold timer_round finish_round run_tasks in
    if_intro SortedIfSome (leb notify_quit r.events) (λ q. tt)
      (λ q.
        subst IsSorted
          (sym (settle-same c (finish_tasks c p.0 later).tasks (finish_tasks c p.0 later)).0)
          (finish_tasks-IsSorted c p.0 later (
            make_calls-IsSorted ks (record p.1 { ran = p.1.ran ++ p.0 })
              (collect-IsSorted now r.tasks (record r { events = 0 }) v))))
  where
    p : List Task × TimerRunner
    p = collect now r.tasks (record r { events = 0 })

    later : TimerRunner
    later = make_calls ks (record p.1 { ran = p.1.ran ++ p.0 })

on_expiry_tasks : (r : TimerRunner) → (on_expiry r).tasks ≡ r.tasks
on_expiry_tasks r =
    unfold on_expiry notify in
    if_intro (λ (s : TimerRunner). s.tasks ≡ r.tasks) (is_work r.state) (λ q. refl) (λ q. refl)

pub Reach-IsSorted : {c : ℕ} {r : TimerRunner} → Reach c r → IsSorted r.tasks
Reach-IsSorted (starts c) = unfold new_timers in tt
Reach-IsSorted (next p h (calls k _ e)) =
    subst (λ (s : TimerRunner). IsSorted s.tasks) (sym e) (call-IsSorted k _ (Reach-IsSorted p))
Reach-IsSorted (next {r = r} p h (expires e)) =
    subst (λ (s : TimerRunner). IsSorted s.tasks) (sym e)
      (subst IsSorted (sym (on_expiry_tasks r)) (Reach-IsSorted p))
Reach-IsSorted (next {d = d} {r = r} p h (runs now ks _ e)) =
    subst SortedIfSome e (timer_round-IsSorted now d ks r (Reach-IsSorted p))

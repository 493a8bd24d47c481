-- ===== src/Monitor/Timers/Due.antt =====
-- A round runs the tasks that are due and not cancelled; `cancel` does not reach the latest task.
use mathlib.Core.Path.{subst}
use c_playground.Common.{
  ℕ, ◌+◌, ◌<◌, ◌≤◌, ◌≡◌, ◌≢◌, refl, sym, ap, ◌∙◌, arith, List, [], ◌∷◌, ◌++◌, All, Option, some,
  Bool, true, false, not, Bool-cases, inl, inr, ◌&&◌, ◌==◌, ltb, if◌then◌else◌, if_intro, le→ltb,
  lt→ltb,
}
use c_playground.Common.Int.{pos}
use c_playground.Monitor.Runner.{notify_quit}
use c_playground.Monitor.Timers.{
  Task, least_duration, with_id, TimerRunner, is_in, erase, notify, wake, enqueue, post, cancel,
  keep_task, clear, collect, put_back, finish_tasks, finish_round, Call, posts, cancels, call,
  make_calls, run_tasks, timer_round,
}
use c_playground.Monitor.Timers.Calls.{cancel-same}
use c_playground.Monitor.Timers.Awake.{dispose-same, clear-same, calls, Reach, next}
use c_playground.Monitor.Timers.Sorted.{IsSorted, Reach-IsSorted, settle-same}

abbrev pub select : (Task → Bool) → List Task → List Task
select p [] = []
select p (t ∷ ts) = if p t then t ∷ select p ts else select p ts

-- Due at `now`, and marked.
abbrev pub is_due : ℕ → Task → Bool
is_due now t = ltb t.runat (now + least_duration)

abbrev pub is_marked : List ℕ → Task → Bool
is_marked marks t = is_in t.id marks

none_due :
    (now : ℕ) (p : Task → Bool) (t : Task) (ts : List Task)
    → is_due now t ≡ false
    → All (λ u. t.runat ≤ u.runat) ts
    → select (λ u. is_due now u && p u) ts ≡ []
none_due now p t [] e v = refl
none_due now p t (u ∷ ts) e v =
    let late : is_due now u ≡ false =
      le→ltb u.runat (now + least_duration) (ground (arith, e, v.0)) in
    rw late (none_due now p t ts e v.1)

none_left :
    (now : ℕ) (t : Task) (ts : List Task)
    → is_due now t ≡ false
    → All (λ u. t.runat ≤ u.runat) ts
    → select (λ u. not (is_due now u)) ts ≡ ts
none_left now t [] e v = refl
none_left now t (u ∷ ts) e v =
    let late : is_due now u ≡ false =
      le→ltb u.runat (now + least_duration) (ground (arith, e, v.0)) in
    rw late (ap (λ r. u ∷ r) (none_left now t ts e v.1))

clear_marks : (b : Bool) (t : Task) (r : TimerRunner) → (clear b t r).marks ≡ r.marks
clear_marks b t r = clear-same b t r (λ s. s.marks ≡ r.marks) (λ d. refl)

keep_task_if :
    (b : Bool) (t : Task) (ts : List Task) → keep_task b t ts ≡ (if b then t ∷ ts else ts)
keep_task_if true t ts = unfold keep_task in refl
keep_task_if false t ts = unfold keep_task in refl

-- Of a heap in order, `collect` takes the tasks that are due and marked, and leaves those not due.
collect-select :
    (now : ℕ) (ts : List Task) (r : TimerRunner)
    → IsSorted ts
    → ((collect now ts r).0 ≡ select (λ t. is_due now t && is_marked r.marks t) ts)
      × ((collect now ts r).1.tasks ≡ select (λ t. not (is_due now t)) ts)
unfolding collect
collect-select now [] r v = (refl, refl)
collect-select now (t ∷ ts) r v = elim (Bool-cases (is_due now t)) [
  | inr q ↦ rw q (
    sym (none_due now (is_marked r.marks) t ts q v.0),
    ap (λ s. t ∷ s) (sym (none_left now t ts q v.0)),
  )
  | inl q ↦
      let h = collect-select now ts (clear (is_in t.id r.marks) t r) v.1 in
      let kept =
        h.0
        ∙ ap (λ m. select (λ u. is_due now u && is_marked m u) ts)
            (clear_marks (is_in t.id r.marks) t r) in
      rw q (
        ap (keep_task (is_in t.id r.marks) t) kept
            ∙ keep_task_if (is_in t.id r.marks) t
                (select (λ u. is_due now u && is_marked r.marks u) ts),
        h.1,
      )
]

collect_ran : (now : ℕ) (ts : List Task) (r : TimerRunner) → (collect now ts r).1.ran ≡ r.ran
unfolding collect
collect_ran now [] r = refl
collect_ran now (t ∷ ts) r =
    if_intro (λ (p : List Task × TimerRunner). p.1.ran ≡ r.ran) (ltb t.runat (now + least_duration))
      (λ q.
        collect_ran now ts (clear (is_in t.id r.marks) t r)
        ∙ clear-same (is_in t.id r.marks) t r (λ s. s.ran ≡ r.ran) (λ d. refl))
      (λ q. refl)

wake_ran : (t : Task) (r : TimerRunner) → (wake t r).ran ≡ r.ran
wake_ran t r = unfold wake notify in ground arith

call_ran : (k : Call) (r : TimerRunner) → (call k r).ran ≡ r.ran
call_ran (posts t) r =
    unfold call post notify in
    if_intro (λ (p : Option ℕ × TimerRunner). p.1.ran ≡ r.ran) t.callable
      (λ q. wake_ran u (enqueue u r) ∙ (unfold enqueue in refl)) (λ q. refl)
  where
    u : Task
    u = with_id (r.last_id + 1) t
call_ran (cancels i) r = unfold call in cancel-same i r (λ s. s.ran ≡ r.ran) (λ m. refl)

make_calls_ran : (ks : List Call) (r : TimerRunner) → (make_calls ks r).ran ≡ r.ran
unfolding make_calls
make_calls_ran [] r = refl
make_calls_ran (k ∷ ks) r = make_calls_ran ks (call k r) ∙ call_ran k r

put_back_ran : (now : ℕ) (t : Task) (r : TimerRunner) → (put_back now t r).ran ≡ r.ran
put_back_ran now t r =
    unfold put_back in
    if_intro (λ (s : TimerRunner). s.ran ≡ r.ran) t.repeated (λ q. refl)
      (λ q. dispose-same t r (λ s. s.ran ≡ r.ran) (λ d. refl))

finish_tasks_ran :
    (now : ℕ) (due : List Task) (r : TimerRunner) → (finish_tasks now due r).ran ≡ r.ran
unfolding finish_tasks
finish_tasks_ran now [] r = refl
finish_tasks_ran now (t ∷ due) r =
    finish_tasks_ran now due (put_back now t r) ∙ put_back_ran now t r

-- Before the end is notified, whatever is called while it runs, a round of the timer runner runs the
-- tasks of the heap that are due and not cancelled, in the order of their times, and no other.
pub timer_round_ran :
    {c : ℕ} (r : TimerRunner) (now later : ℕ) (ks : List Call)
    → Reach c r
    → r.events < notify_quit
    → IsSorted r.tasks
      × ((s : TimerRunner) × (timer_round now later ks r ≡ some s)
          × (s.ran ≡ r.ran ++ select (λ t. is_due now t && is_marked r.marks t) r.tasks))
timer_round_ran r now later ks p h = (Reach-IsSorted p, (after, going, ran))
  where
    q : List Task × TimerRunner
    q = collect now r.tasks (record r { events = 0 })

    during : TimerRunner
    during = make_calls ks (record q.1 { ran = q.1.ran ++ q.0 })

    after : TimerRunner
    after = finish_round later q.0 during

    going : timer_round now later ks r ≡ some after
    going = unfold timer_round run_tasks in ground arith

    ran : after.ran ≡ r.ran ++ select (λ t. is_due now t && is_marked r.marks t) r.tasks
    ran =
        unfold finish_round in
        (settle-same later (finish_tasks later q.0 during).tasks (finish_tasks later q.0 during)).1
        ∙ finish_tasks_ran later q.0 during
        ∙ make_calls_ran ks (record q.1 { ran = q.1.ran ++ q.0 })
        ∙ ap (λ l. l ++ q.0) (collect_ran now r.tasks (record r { events = 0 }))
        ∙ ap (λ l. r.ran ++ l)
            (collect-select now r.tasks (record r { events = 0 }) (Reach-IsSorted p)).0

wake_last_id : (t : Task) (r : TimerRunner) → (wake t r).last_id ≡ r.last_id
wake_last_id t r = unfold wake notify in ground arith

cancel_latest : (i : ℕ) (r : TimerRunner) → r.last_id ≤ i → cancel (pos i) r ≡ r
cancel_latest i r h =
    unfold cancel in
    if_intro (λ s. s ≡ r) (ltb 0 i && ltb i r.last_id) (λ q. absurd (ground (arith, q))) (λ q. refl)

-- The id that `post` has just returned, for a task with a function, is not cancelled: `cancel` of it
-- changes nothing.
pub post-cancel :
    (t : Task) (r : TimerRunner)
    → t.callable ≡ true
    → ((post t r).0 ≡ some (r.last_id + 1))
      × (cancel (pos (r.last_id + 1)) (post t r).1 ≡ (post t r).1)
post-cancel t r h = (returned, cancel_latest (r.last_id + 1) (post t r).1 (omega (arith, last)))
  where
    u : Task
    u = with_id (r.last_id + 1) t

    posted : post t r ≡ (some (r.last_id + 1), wake u (enqueue u r))
    posted =
        unfold post in
        if_intro (λ (p : Option ℕ × TimerRunner). p ≡ (some (r.last_id + 1), wake u (enqueue u r)))
          t.callable (λ q. refl) (λ q. cc (q, h))

    returned : (post t r).0 ≡ some (r.last_id + 1)
    returned = ap (λ (p : Option ℕ × TimerRunner). p.0) posted

    last : (post t r).1.last_id ≡ r.last_id + 1
    last =
        ap (λ (p : Option ℕ × TimerRunner). p.1.last_id) posted
        ∙ wake_last_id u (enqueue u r)
        ∙ (unfold enqueue in refl)

is_in-erase : (i : ℕ) (m : List ℕ) → is_in i (erase i m) ≡ false
unfolding is_in erase
is_in-erase i [] = refl
is_in-erase i (j ∷ m) = elim (Bool-cases (i == j)) [
  | inl e ↦ rw e (is_in-erase i m)
  | inr e ↦ rw e (rw e (is_in-erase i m))
]

-- What is selected of tasks whose mark was erased has other ids.
select_unmarked :
    (i now : ℕ) (m : List ℕ) (ts : List Task)
    → All (λ t. t.id ≢ i) (select (λ t. is_due now t && is_marked (erase i m) t) ts)
select_unmarked i now m [] = tt
select_unmarked i now m (t ∷ ts) =
    if_intro (All (λ (u : Task). u.id ≢ i)) (is_due now t && is_marked (erase i m) t)
      (λ q. ((λ e. other q e), select_unmarked i now m ts)) (λ q. select_unmarked i now m ts)
  where
    other : (is_due now t && is_marked (erase i m) t) ≡ true → t.id ≡ i → ⊥
    other q e = elim (Bool-cases (is_due now t)) [
      | inl d ↦ cc (
        q,
        ap (λ b. b && is_marked (erase i m) t) d,
        ap (λ j. is_in j (erase i m)) e,
        is_in-erase i m,
      )
      | inr d ↦ cc (q, ap (λ b. b && is_marked (erase i m) t) d)
    ]

cancel_earlier :
    (i : ℕ) (r : TimerRunner)
    → 0 < i
    → i < r.last_id
    → cancel (pos i) r ≡ record r { marks = erase i r.marks }
cancel_earlier i r a b = unfold cancel in rw (lt→ltb 0 i a, lt→ltb i r.last_id b) refl

-- After `cancel` of an id above 0 and below the latest, a round that starts then, before the end is
-- notified, runs no task of that id.
pub cancel-timer_round :
    {c : ℕ} (i : ℕ) (r : TimerRunner) (now later : ℕ) (ks : List Call)
    → Reach c r
    → 0 < i
    → i < r.last_id
    → r.events < notify_quit
    → (s : TimerRunner) × (timer_round now later ks (cancel (pos i) r) ≡ some s)
      × ((runs_now : List Task) × (s.ran ≡ r.ran ++ runs_now) × All (λ t. t.id ≢ i) runs_now)
cancel-timer_round {c} i r now later ks p a b h =
    let e = cancel_earlier i r a b in
    let z =
      timer_round_ran u now later ks reached
        (omega (arith, ap (λ (s : TimerRunner). s.events) e, h)) in
    let others =
      subst (λ m. All (λ t. t.id ≢ i) (select (λ t. is_due now t && is_marked m t) u.tasks))
        (sym (ap (λ (s : TimerRunner). s.marks) e)) (select_unmarked i now r.marks u.tasks) in
    (
      z.1.0,
      z.1.1,
      (
        select (λ t. is_due now t && is_marked u.marks t) u.tasks,
        z.1.2
            ∙ ap
                (λ (s : TimerRunner).
                  s.ran ++ select (λ t. is_due now t && is_marked u.marks t) u.tasks)
                e,
        others,
      ),
    )
  where
    u : TimerRunner
    u = cancel (pos i) r

    reached : Reach c u
    reached = next {s = u} p (omega arith) (calls (cancels (pos i)) tt (unfold call in refl))

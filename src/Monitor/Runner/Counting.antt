-- ===== src/Monitor/Runner/Counting.antt =====
-- The count of the event descriptor and the deque: `Run` never takes from an empty deque.
use mathlib.Core.Path.{subst}
use c_playground.Common.{
  ℕ, ◌+◌, ◌<◌, ◌≡◌, sym, arith, ◌++◌, length, length-drop, length-take, take, drop, ltb, leb,
  Bool-cases, inl, inr,
}
use c_playground.Monitor.Runner.{
  notify_quit, TaskRunner, new_runner, push_task, notify_task, Round, goes_on, quits, undefined,
  run_round,
}

-- The events and the notifications that are still to come are as many as the tasks in the deque; what
-- threads pushed and the rounds took is `posted`.
pub record IsCounted (r : TaskRunner) : Type 0 where
  pub counted : r.events + r.unnotified ≡ length r.tasks

-- What the threads that post do, and the thread that runs, before `stop`.
pub data Step (r s : TaskRunner) : Type 0 where
  pushes : (t : ℕ) → s ≡ push_task t r → Step r s
  notifies : 0 < r.unnotified → s ≡ notify_task r → Step r s
  runs : run_round r ≡ goes_on s → Step r s

pub data Reach (r : TaskRunner) : TaskRunner → Type 0 where
  here : Reach r r
  next : {s t : TaskRunner} → Reach r s → Step s t → Reach r t

run_round-counted :
    (r : TaskRunner)
    → IsCounted r
    → r.events < notify_quit
    → run_round r
      ≡ goes_on (record r {
        tasks = drop r.events r.tasks;
        events = 0;
        ran = r.ran ++ take r.events r.tasks;
      })
run_round-counted r v h = unfold run_round in ground (arith, v.counted)

abbrev IfGoesOn : (TaskRunner → Type 0) → Round → Type 0
IfGoesOn P (goes_on s) = P s
IfGoesOn P (quits s) = Unit {0}
IfGoesOn P undefined = Unit {0}

run_round-IsCounted : (r : TaskRunner) → IsCounted r → IfGoesOn IsCounted (run_round r)
run_round-IsCounted r v = elim (Bool-cases (leb notify_quit r.events)) [
  | inl q ↦ unfold run_round in rw q tt
  | inr q ↦ elim (Bool-cases (ltb (length r.tasks) r.events)) [
    | inl u ↦ unfold run_round in rw (q, u) tt
    | inr u ↦
        unfold run_round in
        rw (q, u) (record { counted = omega (arith, v.counted, length-drop r.events r.tasks) })
  ]
]

Step-IsCounted : {r s : TaskRunner} → Step r s → IsCounted r → IsCounted s
Step-IsCounted {r} {s} (pushes t e) v =
    subst IsCounted (sym e) (unfold push_task in record { counted = omega (arith, v.counted) })
Step-IsCounted {r} {s} (notifies h e) v =
    subst IsCounted (sym e) (unfold notify_task in record { counted = omega (arith, v.counted) })
Step-IsCounted {r} {s} (runs e) v = subst (IfGoesOn IsCounted) e (run_round-IsCounted r v)

Reach-IsCounted : {r s : TaskRunner} → IsCounted r → Reach r s → IsCounted s
Reach-IsCounted v here = v
Reach-IsCounted v (next p st) = Step-IsCounted st (Reach-IsCounted v p)

new_runner-IsCounted : IsCounted new_runner
new_runner-IsCounted = unfold new_runner in record { counted = omega arith }

-- However threads post, between their two steps too, and rounds run, while the count of the events is
-- below that of the end, a round of `Run` takes as many tasks as were notified, and never from an empty
-- deque.
pub Reach-run_round :
    (r : TaskRunner)
    → Reach new_runner r
    → r.events < notify_quit
    → (run_round r
        ≡ goes_on (record r {
          tasks = drop r.events r.tasks;
          events = 0;
          ran = r.ran ++ take r.events r.tasks;
        }))
      × (length (take r.events r.tasks) ≡ r.events)
Reach-run_round r p h =
    let v = Reach-IsCounted new_runner-IsCounted p in
    (run_round-counted r v h, omega (arith, v.counted, length-take r.events r.tasks))

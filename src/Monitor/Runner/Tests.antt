-- ===== src/Monitor/Runner/Tests.antt =====
-- The claims on the ids and on the runner's count, at concrete inputs.
use c_playground.Common.{◌≡◌, refl, arith, [], ◌∷◌, none, some, true, false, length, take}
use c_playground.Monitor.Runner.{
  one_more, first_free, take_id, alloc, TaskRunner, new_runner, push_task, notify_task, goes_on,
  run_round,
}
use c_playground.Monitor.Runner.Counting.{Reach, here, next, pushes, notifies, Reach-run_round}

alloc_two : alloc (true ∷ false ∷ []) ≡ some (1, true ∷ true ∷ [])
unfolding alloc first_free take_id one_more
alloc_two = refl

alloc_when_full : alloc (true ∷ true ∷ []) ≡ none
unfolding alloc first_free take_id one_more
alloc_when_full = refl

-- Two threads pushed, and one of them has notified.
abbrev half_posted : TaskRunner
half_posted = record { tasks = 7 ∷ 8 ∷ []; events = 1; unnotified = 1; ran = [] }

half_posted-Reach : Reach new_runner half_posted
unfolding new_runner push_task notify_task
half_posted-Reach =
    next (next (next here (pushes 8 refl)) (pushes 7 refl)) (notifies (omega arith) refl)

Reach-run_round_example :
    (run_round half_posted
      ≡ goes_on (record { tasks = 8 ∷ []; events = 0; unnotified = 1; ran = 7 ∷ [] }))
    × (length (take half_posted.events half_posted.tasks) ≡ half_posted.events)
Reach-run_round_example = Reach-run_round half_posted half_posted-Reach (omega arith)

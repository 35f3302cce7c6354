-- ===== src/Tests/Queues.antt =====
-- The queue, the scheduler, the clock and the next step at small inputs.
use whirl_matrix.Base.{ℕ, ◌≡◌, ◌≢◌, ◌⊎◌, Bool, Option, none, some, List, [], ◌∷◌, get_elem?, ltb}
use whirl_matrix.PriorityQueue
use whirl_matrix.PriorityQueue.{PriorityQueue, StrictWeak}
use whirl_matrix.PriorityQueue.Refinement
use whirl_matrix.PriorityQueue.Refinement.{
  Operation, inserts, extracts, run_stable, run-eq-run_stable,
}
use whirl_matrix.Network.{time_asym, time_cotrans}
use whirl_matrix.Scheduler.{ScheduledTask, resume, schedule}
use whirl_matrix.Scheduler.Pauses.{delay, tasks_where, resume-delay}
use whirl_matrix.World.{NextStep, find_next_step}
use whirl_matrix.World.Next.{NotAfter, find_next_step_lem}

instance abbrev keyed : StrictWeak (ℕ × ℕ)
keyed = record {
  less = λ a b. ltb a.0 b.0;
  asym = λ a b. time_asym a.0 b.0;
  cotrans = λ a b c. time_cotrans a.0 b.0 c.0;
}

abbrev calls : List (Operation (ℕ × ℕ))
calls = inserts (2, 0) ∷ inserts (1, 1) ∷ inserts (1, 2) ∷ extracts ∷ extracts ∷ []

run-eq-run_stable_example :
    PriorityQueue.Refinement.run (PriorityQueue.empty {T = ℕ × ℕ}) calls ≡ run_stable [] calls
run-eq-run_stable_example = run-eq-run_stable calls

abbrev two_tasks : PriorityQueue (ScheduledTask ℕ)
two_tasks = schedule 3 0 (schedule 9 1 PriorityQueue.empty)

resume-delay_example :
    (q : PriorityQueue (ScheduledTask ℕ)) × (resume 5 two_tasks ≡ some q)
    × ((p : ScheduledTask ℕ → Bool) → tasks_where p q ≡ tasks_where (λ e. p (delay 5 e)) two_tasks)
resume-delay_example = resume-delay 5 two_tasks

abbrev three_actors : List (Option ℕ)
three_actors = none ∷ some 4 ∷ some 4 ∷ []

find_next_step_lem_example :
    ((find_next_step three_actors ≡ none) × ((j t : ℕ) → get_elem? three_actors j ≢ some (some t)))
    ⊎ ((r : NextStep) × (find_next_step three_actors ≡ some r)
        × (get_elem? three_actors r.actor_index ≡ some (some r.time))
        × ((j t : ℕ) → get_elem? three_actors j ≡ some (some t) → NotAfter r j t))
find_next_step_lem_example = find_next_step_lem three_actors

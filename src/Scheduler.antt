-- ===== src/Scheduler.antt =====
-- matrix/process/scheduler.hpp: the tasks of a server by the time at which they run. A task is a
-- value of `T`.
pub mod Pauses
use whirl_matrix.Base.{
  ℕ, zero, suc, ◌+◌, Bool, true, false, Option, none, some, ltb, if◌then◌else◌, ◌≡◌, ◌⊎◌, arith,
}
use whirl_matrix.PriorityQueue
use whirl_matrix.PriorityQueue.{PriorityQueue, StrictWeak}
use whirl_matrix.Network.{time_asym, time_cotrans}

pub record ScheduledTask (T : Type 0) : Type 0 where
  pub at_time : ℕ
  pub task : T

module _ {T : Type 0} where
  instance abbrev pub scheduled_tasks : StrictWeak (ScheduledTask T)
  scheduled_tasks = record {
    less = λ a b. ltb a.at_time b.at_time;
    asym = λ a b. time_asym a.at_time b.at_time;
    cotrans = λ a b c. time_cotrans a.at_time b.at_time c.at_time;
  }

  unfoldable pub schedule :
      ℕ → T → PriorityQueue (ScheduledTask T) → PriorityQueue (ScheduledTask T)
  unfolding PriorityQueue.insert
  schedule at task queue = PriorityQueue.insert (record { at_time = at; task = task }) queue

  unfoldable pub schedule_asap :
      ℕ → T → PriorityQueue (ScheduledTask T) → PriorityQueue (ScheduledTask T)
  unfolding schedule
  schedule_asap now task queue = schedule now task queue

  unfoldable pub has_no_tasks : PriorityQueue (ScheduledTask T) → Bool
  unfolding PriorityQueue.is_empty
  has_no_tasks queue = PriorityQueue.is_empty queue

  unfoldable pub next_task_time : PriorityQueue (ScheduledTask T) → Option ℕ
  unfolding PriorityQueue.smallest
  next_task_time queue = elim (PriorityQueue.smallest queue) [
    | none ↦ none
    | some e ↦ some e.at_time
  ]

  unfoldable pub take_next :
      PriorityQueue (ScheduledTask T) → Option (T × PriorityQueue (ScheduledTask T))
  unfolding PriorityQueue.extract
  take_next queue = elim (PriorityQueue.extract queue) [
    | none ↦ none
    | some (e, rest) ↦ some (e.task, rest)
  ]

  unfoldable pub reset : PriorityQueue (ScheduledTask T) → PriorityQueue (ScheduledTask T)
  unfolding PriorityQueue.clear
  reset queue = PriorityQueue.clear queue

  -- The loop of Resume, on fuel: each turn moves one task to `at`.
  unfoldable pub shift :
      ℕ → ℕ → PriorityQueue (ScheduledTask T) → Option (PriorityQueue (ScheduledTask T))
  unfolding PriorityQueue.extract PriorityQueue.insert
  shift zero at queue = none
  shift (suc fuel) at queue = elim (PriorityQueue.extract queue) [
    | none ↦ some queue
    | some (e, rest) ↦ elim (ltb e.at_time at) [
      | true ↦ shift fuel at (PriorityQueue.insert (record { at_time = at; task = e.task }) rest)
      | false ↦ some queue
    ]
  ]

  unfoldable pub resume :
      ℕ → PriorityQueue (ScheduledTask T) → Option (PriorityQueue (ScheduledTask T))
  unfolding shift PriorityQueue.size
  resume at queue = shift (PriorityQueue.size queue + 1) at queue

-- ===== src/World/System/Queues.antt =====
-- The tasks of a server that runs, and the time.
use whirl_matrix.Base.{
  bit, count_where, ℕ, ◌+◌, ◌^◌, ◌≤◌, ◌<◌, ◌≡◌, refl, ap, ◌∙◌, inl, inr, false, some, List, [], ◌∷◌,
  arith, All, All-map, ltb, Bool-cases, Option-cases, Ensures,
}
use whirl_matrix.PriorityQueue
use whirl_matrix.PriorityQueue.{PriorityQueue, Entry, take_top, smallest, extract}
use whirl_matrix.PriorityQueue.Sorting.{take_top-All}
use whirl_matrix.PriorityQueue.Smallest.{take_top-least}
use whirl_matrix.Scheduler
use whirl_matrix.Scheduler.{ScheduledTask, scheduled_tasks, schedule, next_task_time, take_next}
use whirl_matrix.Scheduler.Pauses.{delay, tasks_where, resume-delay}
use whirl_matrix.Clocks.{timeout_of}
use whirl_matrix.Transport
use whirl_matrix.Transport.{Task, Transport, schedule_task, closure}
use whirl_matrix.Server
use whirl_matrix.Server.{Server, ServerState, initial, running, paused, crashed, state_eq, is_alive}
use whirl_matrix.World.System.{with_transport, set_timer, resume_server_at, server_time}

abbrev Tasks : Type 0
Tasks = PriorityQueue (ScheduledTask Task)

-- No task of the queue is due before `now`.
abbrev pub IsDueFrom : ℕ → Tasks → Type 0
IsDueFrom now q = All (λ (e : Entry (ScheduledTask Task)). now ≤ e.item.at_time) q.items

-- The tasks of a server wait while it does not run.
abbrev pub IsOnTime : ℕ → Server → Type 0
IsOnTime now s = s.state ≡ running → IsDueFrom now s.transport.scheduler

pub schedule-IsDueFrom :
    (now at : ℕ) (t : Task) (q : Tasks)
    → now ≤ at
    → IsDueFrom now q
    → IsDueFrom now (schedule at t q)
unfolding schedule
schedule-IsDueFrom now at t q h k = (h, k)

none_late :
    (now : ℕ) (l : List (Entry (ScheduledTask Task)))
    → count_where (λ (e : Entry (ScheduledTask Task)). ltb e.item.at_time now) l ≡ 0
    → All (λ (e : Entry (ScheduledTask Task)). now ≤ e.item.at_time) l
none_late now [] h = tt
none_late now (e ∷ l) h = elim (Bool-cases (ltb e.item.at_time now)) [
  | inl k ↦ let one : bit (ltb e.item.at_time now) ≡ 1 = ap bit k in absurd (omega arith)
  | inr k ↦ (ground arith, none_late now l (omega arith))
]

delayed_in_time : (now : ℕ) (e : ScheduledTask Task) → ltb (delay now e).at_time now ≡ false
unfolding delay
delayed_in_time now e = ground arith

count_none :
    (now : ℕ) (l : List (Entry (ScheduledTask Task)))
    → count_where (λ (e : Entry (ScheduledTask Task)). ltb (delay now e.item).at_time now) l ≡ 0
count_none now [] = refl
count_none now (e ∷ l) = rw (delayed_in_time now e.item) (omega (arith, count_none now l))

pub resume-IsDueFrom :
    (now : ℕ) (q q' : Tasks) → Scheduler.resume now q ≡ some q' → IsDueFrom now q'
resume-IsDueFrom now q q' h =
    let (r, eq, same) = resume-delay now q in
    let one : q' ≡ r = cc in
    let late : tasks_where (λ e. ltb e.at_time now) q' ≡ 0 =
      ap (tasks_where (λ e. ltb e.at_time now)) one
      ∙ same (λ e. ltb e.at_time now)
      ∙ unfold tasks_where in count_none now q.items in
    none_late now q'.items (unfold tasks_where in late)

with_queue-IsOnTime :
    (now : ℕ) (s : Server) (q : Tasks)
    → IsDueFrom now q
    → IsOnTime now (record s { transport = record s.transport { scheduler = q } })
with_queue-IsOnTime now s q h k = h

resumed_by :
    (now : ℕ) (state : ServerState) (s : Server)
    → IsOnTime now (record s { state = state })
    → Ensures (IsOnTime now) (resume_server_at now (record s { state = state }))
unfolding resume_server_at Server.resume state_eq
resumed_by now initial s h = h
resumed_by now running s h = h
resumed_by now crashed s h = h
resumed_by now paused s h = elim (Option-cases (Scheduler.resume now s.transport.scheduler)) [
  | inl e ↦ rw (e, resume_server_at, Server.resume) tt
  | inr (q, e) ↦
      rw (e, resume_server_at, Server.resume) (λ k. resume-IsDueFrom now s.transport.scheduler q e)
]

pub resume-IsOnTime :
    (now : ℕ) (s : Server) → IsOnTime now s → Ensures (IsOnTime now) (resume_server_at now s)
resume-IsOnTime now s h = resumed_by now s.state s h

pub crash-IsOnTime : (now : ℕ) (s : Server) → Ensures (IsOnTime now) (Server.crash s)
unfolding Server.crash state_eq Scheduler.reset PriorityQueue.clear
crash-IsOnTime now s = elim (Bool-cases (state_eq s.state crashed)) [
  | inl e ↦ rw (e, Server.crash) tt
  | inr e ↦ rw (e, Server.crash) (λ k. tt)
]

rebooted_by :
    (init now : ℕ) (state : ServerState) (s : Server)
    → IsOnTime now (record s { state = state })
    → Ensures (IsOnTime now) (Server.fast_reboot init now (record s { state = state }))
unfolding Server.fast_reboot is_alive Server.crash Server.launch state_eq Server.start_process
    schedule Scheduler.reset PriorityQueue.clear PriorityQueue.insert PriorityQueue.make_unique
    Transport.reset
rebooted_by init now initial s h = h
rebooted_by init now running s h = λ k. (omega arith, tt)
rebooted_by init now paused s h = λ k. (omega arith, tt)
rebooted_by init now crashed s h = h

pub reboot-IsOnTime :
    (init now : ℕ) (s : Server)
    → IsOnTime now s
    → Ensures (IsOnTime now) (Server.fast_reboot init now s)
reboot-IsOnTime init now s h = rebooted_by init now s.state s h

pub pause-IsOnTime : (now : ℕ) (s : Server) → IsOnTime now s → IsOnTime now (Server.pause s)
unfolding Server.pause
pause-IsOnTime now s h = elim (Bool-cases (is_alive s)) [
  | inl e ↦ elim (Bool-cases (state_eq s.state paused)) [
    | inl f ↦ rw (e, f, Server.pause) h
    | inr f ↦ rw (e, f, Server.pause) (λ k. cc)
  ]
  | inr e ↦ rw (e, Server.pause) h
]

pub submit-IsOnTime :
    (c now : ℕ) (s : Server)
    → IsOnTime now s
    → IsOnTime now (with_transport (schedule_task (closure c) now) s)
unfolding with_transport schedule_task
submit-IsOnTime c now s h k = (omega arith, h k)

pub timer-IsOnTime :
    (now delay c : ℕ) (s : Server)
    → now + timeout_of delay s.monotonic_clock < 2 ^ 64
    → IsOnTime now s
    → IsOnTime now (set_timer now delay c s)
unfolding set_timer
timer-IsOnTime now delay c s b h k = (omega (arith, b), h k)

-- A server that can run next at `t` or later has no task before `t`, and its tasks stay so without
-- the one that is taken.
smallest_first :
    (t : ℕ) (l : List (Entry (ScheduledTask Task))) (n : ℕ)
    → ((u : ℕ) → next_task_time (record { items = l; inserts = n }) ≡ some u → t ≤ u)
    → All (λ (e : Entry (ScheduledTask Task)). t ≤ e.item.at_time) l
unfolding next_task_time smallest
smallest_first t [] n h = tt
smallest_first t (x ∷ xs) n h =
    let first : t ≤ (take_top x xs).0.item.at_time = h _ refl in
    All-map
      (λ (z : Entry (ScheduledTask Task)).
        ltb z.item.at_time (take_top x xs).0.item.at_time ≡ false)
      _ (x ∷ xs) (λ z k. ground arith) (take_top-least x xs)

pub next_time-IsDueFrom :
    (t : ℕ) (q : Tasks) → ((u : ℕ) → next_task_time q ≡ some u → t ≤ u) → IsDueFrom t q
next_time-IsDueFrom t q h = smallest_first t q.items q.inserts h

due_next :
    (now : ℕ) (l : List (Entry (ScheduledTask Task))) (n u : ℕ)
    → All (λ (e : Entry (ScheduledTask Task)). now ≤ e.item.at_time) l
    → next_task_time (record { items = l; inserts = n }) ≡ some u
    → now ≤ u
unfolding next_task_time smallest
due_next now [] n u h e = cc
due_next now (x ∷ xs) n u (hx, h) e =
    let first =
      (take_top-All (λ (z : Entry (ScheduledTask Task)). now ≤ z.item.at_time) x xs hx h).0 in
    ground arith

pub IsDueFrom-next_time :
    (now : ℕ) (q : Tasks) (u : ℕ) → IsDueFrom now q → next_task_time q ≡ some u → now ≤ u
IsDueFrom-next_time now q u h e = due_next now q.items q.inserts u h e

taken :
    (now : ℕ) (l : List (Entry (ScheduledTask Task))) (n : ℕ) (t : Task) (q : Tasks)
    → All (λ (e : Entry (ScheduledTask Task)). now ≤ e.item.at_time) l
    → take_next (record { items = l; inserts = n }) ≡ some (t, q)
    → IsDueFrom now q
unfolding take_next extract
taken now [] n t q h e = cc
taken now (x ∷ xs) n t q (hx, h) e =
    let rest =
      (take_top-All (λ (z : Entry (ScheduledTask Task)). now ≤ z.item.at_time) x xs hx h).1 in
    let same : q ≡ record { items = (take_top x xs).1; inserts = n } = cc in rw same rest

pub take_task-IsOnTime :
    (now : ℕ) (s : Server) (t : Task) (s' : Server)
    → IsOnTime now s
    → Server.take_task s ≡ some (t, s')
    → IsOnTime now s'
unfolding Server.take_task
take_task-IsOnTime now s t s' h e = elim (Option-cases (take_next s.transport.scheduler)) [
  | inl f ↦ absurd (ground (arith, f))
  | inr ((u, q), f) ↦
      let same : s' ≡ record s { transport = record s.transport { scheduler = q } } =
        ground (arith, f) in
      rw same (λ k. taken now s.transport.scheduler.items s.transport.scheduler.inserts u q (h k) f)
]

-- When a server can run next.
running_time :
    (l : List (Entry (ScheduledTask Task))) (n u : ℕ) (state : ServerState) (s : Server)
    → state ≡ running
    → next_task_time (record { items = l; inserts = n }) ≡ some u
    → server_time (record s {
      state = state;
      transport = record s.transport { scheduler = record { items = l; inserts = n } };
    })
      ≡ some u
unfolding server_time Server.is_runnable state_eq Server.next_step_time Scheduler.has_no_tasks
    PriorityQueue.is_empty next_task_time smallest
running_time [] n u state s e h = cc
running_time (x ∷ l) n u initial s e h = cc
running_time (x ∷ l) n u running s e h = h
running_time (x ∷ l) n u paused s e h = cc
running_time (x ∷ l) n u crashed s e h = cc

time_of_running :
    (u : ℕ) (state : ServerState) (s : Server)
    → server_time (record s { state = state }) ≡ some u
    → (state ≡ running) × (next_task_time s.transport.scheduler ≡ some u)
unfolding server_time Server.is_runnable state_eq Server.next_step_time
time_of_running u initial s h = cc
time_of_running u paused s h = cc
time_of_running u crashed s h = cc
time_of_running u running s h = elim (Bool-cases (Scheduler.has_no_tasks s.transport.scheduler)) [
  | inl e ↦ absurd (ground (arith, e))
  | inr e ↦ (refl, ground (arith, e))
]

pub server_time-IsOnTime :
    (t : ℕ) (s : Server) → ((u : ℕ) → server_time s ≡ some u → t ≤ u) → IsOnTime t s
server_time-IsOnTime t s h k = next_time-IsDueFrom t s.transport.scheduler λ u e.
    h u (running_time s.transport.scheduler.items s.transport.scheduler.inserts u s.state s k e)

pub IsOnTime-server_time :
    (now : ℕ) (s : Server) (u : ℕ) → IsOnTime now s → server_time s ≡ some u → now ≤ u
IsOnTime-server_time now s u h e =
    let (k, next) = time_of_running u s.state s e in
    IsDueFrom-next_time now s.transport.scheduler u (h k) next

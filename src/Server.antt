-- ===== src/Server.antt =====
-- matrix/server/server.cpp: the life of a server. Its scheduler is the one of its transport. The
-- tasks that run on it are not modelled here; what the time model chooses is an argument. What the start of its
-- process allocates in its heap is a parameter, since the sizes are those of the compiler and of the libraries.
pub mod Life
use Prim.Native.String.{String}
use whirl_matrix.Base.{
  ℕ, zero, suc, Bool, true, false, not, ◌||◌, Option, none, some, List, [], ◌∷◌, Outcome, ok, panic,
  map, ◌>>=◌, ◌>>◌, verify, ◌++◌, if◌then◌else◌,
}
use whirl_matrix.PriorityQueue.{PriorityQueue}
use whirl_matrix.Digest.{Hashes, new_digest, combine, eat_number}
use whirl_matrix.Scheduler
use whirl_matrix.Scheduler.{ScheduledTask}
use whirl_matrix.Fs
use whirl_matrix.Fs.{FileSystem}
use whirl_matrix.Memory
use whirl_matrix.Memory.{Allocator, bytes_allocated}
use whirl_matrix.Transport
use whirl_matrix.Transport.{Transport, Task, closure}
use whirl_matrix.Clocks
use whirl_matrix.Clocks.{MonotonicClock, init_clock}

pub data ServerState : Type 0 where
  initial running paused crashed : ServerState

unfoldable pub state_eq : ServerState → ServerState → Bool
state_eq initial initial = true
state_eq running running = true
state_eq paused paused = true
state_eq crashed crashed = true
state_eq _ _ = false

pub record Server : Type 0 where
  pub state : ServerState
  pub wall_offset : ℕ
  pub monotonic_clock : MonotonicClock
  pub transport : Transport
  pub filesystem : FileSystem
  pub heap : Allocator
  pub has_runtime : Bool
  pub startup : Allocator → Allocator

unfoldable pub is_alive : Server → Bool
unfolding state_eq
is_alive s = state_eq s.state running || state_eq s.state paused

unfoldable pub crash : Server → Outcome Server
unfolding state_eq Transport.reset Fs.reset Scheduler.reset Memory.reset
crash s =
    verify (not (state_eq s.state crashed))
    >> (let t = Transport.reset s.transport in
        ok (record s {
          transport = record t { scheduler = Scheduler.reset t.scheduler };
          filesystem = Fs.reset s.filesystem;
          heap = Memory.reset s.heap;
          has_runtime = false;
          state = crashed;
        }))

-- The closure 0 is the main program. `startup` makes the allocations of heap_.Use(): the NodeRuntime with its parts,
-- and the task. A heap that is too small for them ends the simulation and is not modelled.
unfoldable pub start_process : ℕ → Server → Server
unfolding Scheduler.schedule
start_process now s =
    let t = s.transport in
    record s {
      has_runtime = true;
      heap = s.startup s.heap;
      transport = record t { scheduler = Scheduler.schedule now (closure 0) t.scheduler };
    }

unfoldable pub launch : ℕ → ℕ → Server → Outcome Server
unfolding state_eq Clocks.reset start_process
launch init now s =
    verify (state_eq s.state initial || state_eq s.state crashed)
    >> ok
        (record (start_process now
          (record s { monotonic_clock = Clocks.reset init now s.monotonic_clock })) {
            state = running;
          })

unfoldable pub fast_reboot : ℕ → ℕ → Server → Outcome Server
unfolding is_alive crash launch
fast_reboot init now s = elim (is_alive s) [ false ↦ ok s | true ↦ crash s >>= launch init now ]

unfoldable pub pause : Server → Server
unfolding is_alive state_eq
pause s =
    if not (is_alive s)
    then s
    else if state_eq s.state paused
    then s
    else record s { state = paused }

unfoldable pub resume : ℕ → Server → Option Server
unfolding state_eq Scheduler.resume
resume now s = elim (state_eq s.state paused) [
  | false ↦ some s
  | true ↦ elim (Scheduler.resume now s.transport.scheduler) [
    | none ↦ none
    | some q ↦
        let t = s.transport in
        some (record s { transport = record t { scheduler = q }; state = running })
  ]
]

unfoldable pub adjust_wall_clock : ℕ → Server → Server
adjust_wall_clock offset s = record s { wall_offset = offset }

unfoldable pub start : ℕ → ℕ → ℕ → ℕ → ℕ → Server → Outcome Server
unfolding init_clock launch
start offset rate init init' now s = launch init' now (record s {
  wall_offset = offset;
  monotonic_clock = init_clock rate init now s.monotonic_clock;
})

unfoldable pub is_runnable : Server → Bool
unfolding state_eq Scheduler.has_no_tasks
is_runnable s =
    if not (state_eq s.state running)
    then false
    else not (Scheduler.has_no_tasks s.transport.scheduler)

unfoldable pub next_step_time : Server → Option ℕ
unfolding Scheduler.next_task_time
next_step_time s = Scheduler.next_task_time s.transport.scheduler

-- The task to run, and the server without it.
unfoldable pub take_task : Server → Option (Task × Server)
unfolding Scheduler.take_next
take_task s = elim (Scheduler.take_next s.transport.scheduler) [
  | none ↦ none
  | some (task, q) ↦
      let t = s.transport in some (task, record s { transport = record t { scheduler = q } })
]

unfoldable pub shutdown : Server → Outcome Server
unfolding state_eq crash
shutdown s = elim (state_eq s.state crashed) [ true ↦ ok s | false ↦ crash s ]

-- ListFiles, on fuel: the loop does not advance the iterator.
unfoldable pub list_loop :
    (String → String → Bool) → String → ℕ → List String → List String → Option (List String)
list_loop starts_with prefix fuel [] listed = some listed
list_loop starts_with prefix zero (file ∷ files) listed = none
list_loop starts_with prefix (suc fuel) (file ∷ files) listed =
    list_loop starts_with prefix fuel (file ∷ files)
      (if starts_with file prefix then listed ++ file ∷ [] else listed)

unfoldable pub list_files : (String → String → Bool) → String → ℕ → Server → Option (List String)
unfolding list_loop Fs.list_all_files
list_files starts_with prefix fuel s =
    list_loop starts_with prefix fuel
      (map (λ (f : String × ℕ). f.0) (Fs.list_all_files s.filesystem)) []

-- ComputeDigest
unfoldable pub server_digest : Hashes → Server → ℕ
unfolding state_eq combine eat_number Memory.bytes_allocated Fs.compute_digest
server_digest w s =
    if state_eq s.state crashed
    then 0
    else combine w (eat_number w (new_digest w) (bytes_allocated s.heap))
        (Fs.compute_digest w s.filesystem)

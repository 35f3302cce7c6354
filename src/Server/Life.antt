-- ===== src/Server/Life.antt =====
-- The life of a server: what a reboot leaves of it, and the listing of its files.
use Prim.Native.String.{String}
use whirl_matrix.Base.{ℕ, zero, suc, ◌+◌, ◌≡◌, refl, Bool, true, none, some, List, [], ◌∷◌, ok}
use whirl_matrix.PriorityQueue
use whirl_matrix.PriorityQueue.{PriorityQueue}
use whirl_matrix.Scheduler
use whirl_matrix.Scheduler.{ScheduledTask}
use whirl_matrix.Fs
use whirl_matrix.Fs.{FileSystem}
use whirl_matrix.Memory
use whirl_matrix.Transport
use whirl_matrix.Transport.{Task, closure}
use whirl_matrix.Clocks
use whirl_matrix.Server.{
  Server, ServerState, initial, running, paused, crashed, state_eq, is_alive, crash, launch,
  start_process, fast_reboot, list_loop, next_step_time,
}

abbrev rebooted : ℕ → ℕ → Server → Server
rebooted init now s = record s {
  state = running;
  monotonic_clock = record s.monotonic_clock { init = init; last_reset = now };
  transport = record s.transport {
    endpoints = [];
    scheduler = record {
      items =
          record {
            item = record { at_time = now; task = closure 0 };
            tie_braker = s.transport.scheduler.inserts + 1;
          }
          ∷ [];
      inserts = s.transport.scheduler.inserts + 1;
    };
  };
  filesystem = Fs.reset s.filesystem;
  heap = s.startup (Memory.reset s.heap);
  has_runtime = true;
}

reboot_eq :
    (init now : ℕ) (state : ServerState) (s : Server)
    → is_alive (record s { state = state }) ≡ true
    → fast_reboot init now (record s { state = state }) ≡ ok (rebooted init now s)
unfolding fast_reboot is_alive crash launch state_eq Transport.reset Scheduler.reset
    Scheduler.schedule start_process Clocks.reset PriorityQueue.insert PriorityQueue.clear
    PriorityQueue.make_unique
reboot_eq init now initial s h = cc
reboot_eq init now running s h = refl
reboot_eq init now paused s h = refl
reboot_eq init now crashed s h = cc

-- A reboot of a server that is alive succeeds and leaves it running, with the files and objects of its file system as they
-- were, no file open, no endpoint, one task, due now, and in the heap, which has been cleared, only what the start of
-- the process allocates.
pub fast_reboot_lem :
    (init now : ℕ) (s : Server)
    → is_alive s ≡ true
    → (s' : Server) × (fast_reboot init now s ≡ ok s')
      × (s'.state ≡ running)
      × (s'.filesystem.files ≡ s.filesystem.files)
      × (s'.filesystem.objects ≡ s.filesystem.objects)
      × (s'.filesystem.opened_files ≡ [])
      × (s'.transport.endpoints ≡ [])
      × (s'.heap ≡ s.startup (Memory.reset s.heap))
      × (PriorityQueue.size s'.transport.scheduler ≡ 1)
      × (next_step_time s' ≡ some now)
unfolding next_step_time Fs.reset Memory.reset PriorityQueue.size Scheduler.next_task_time
fast_reboot_lem init now s h = (
  rebooted init now s,
  reboot_eq init now s.state s h,
  refl,
  refl,
  refl,
  refl,
  refl,
  refl,
  refl,
  unfold PriorityQueue.smallest PriorityQueue.take_top in refl,
)

-- The listing of a file system that has a file does not end: on no fuel has it a result.
pub list_loop-none :
    (starts_with : String → String → Bool) (prefix : String) (fuel : ℕ) (file : String)
    (files listed : List String)
    → list_loop starts_with prefix fuel (file ∷ files) listed ≡ none
unfolding list_loop
list_loop-none starts_with prefix zero file files listed = refl
list_loop-none starts_with prefix (suc fuel) file files listed =
    list_loop-none starts_with prefix fuel file files _

-- ===== src/Tests/Machines.antt =====
-- The allocator and a server.
use whirl_matrix.Base.{◌+◌, ◌≡◌, refl, true, none, some, [], ◌∷◌, ok}
use whirl_matrix.PriorityQueue
use whirl_matrix.Memory
use whirl_matrix.Memory.{Allocator}
use whirl_matrix.Server.{Server, running, paused, is_alive, fast_reboot, next_step_time, list_loop}
use whirl_matrix.Server.Life.{fast_reboot_lem, list_loop-none}

abbrev new_arena : Allocator
new_arena = record {
  block_lists = [];
  headers = [];
  start = 4096;
  end = 12288;
  next = 4096;
  zfilled = 4096;
}

-- A start takes 48 bytes of the heap.
abbrev pub allocate_runtime : Allocator → Allocator
allocate_runtime a = record a { next = a.next + 48; zfilled = a.zfilled + 4096 }

abbrev pub busy : Server
busy = record {
  state = paused;
  wall_offset = 0;
  monotonic_clock = record { rate = 100; last_reset = 0; init = 0 };
  transport = record {
    host = "Server-1";
    endpoints = (42, record { handler = 0; ts = 1 }) ∷ [];
    next_port = 1;
    scheduler = record { items = []; inserts = 0 };
  };
  filesystem = record {
    objects = record { bytes = 7 ∷ [] } ∷ [];
    files = ("a", 0) ∷ [];
    opened_files = [];
    next_fd = 0;
  };
  heap = new_arena;
  has_runtime = true;
  startup = allocate_runtime;
}

fast_reboot_lem_example :
    (s' : Server) × (fast_reboot 3 10 busy ≡ ok s')
    × (s'.state ≡ running)
    × (s'.filesystem.files ≡ busy.filesystem.files)
    × (s'.filesystem.objects ≡ busy.filesystem.objects)
    × (s'.filesystem.opened_files ≡ [])
    × (s'.transport.endpoints ≡ [])
    × (s'.heap ≡ allocate_runtime (Memory.reset new_arena))
    × (PriorityQueue.size s'.transport.scheduler ≡ 1)
    × (next_step_time s' ≡ some 10)
unfolding is_alive
fast_reboot_lem_example = fast_reboot_lem 3 10 busy refl

list_loop-none_example : list_loop (λ s p. true) "" 100 ("a" ∷ []) [] ≡ none
list_loop-none_example = list_loop-none (λ s p. true) "" 100 "a" [] []

-- ===== src/Tests/Replicas.antt =====
-- The replicated store and its simulation at small inputs.
use Prim.Native.String.{String}
use text.Mathlib.Text.{◌==◌ as str_eq}
use whirl_matrix.Base.{
  ℕ, ◌≤◌, ◌≡◌, refl, true, Option, none, some, List, [], ◌∷◌, arith, inl, inr, if◌then◌else◌, ok,
  length, count_where,
}
use whirl_matrix.KvNode.{
  StampedValue, KvStore, initial_value, Event, writes, reads, Answer, local_write, local_read,
  older, arrives, answer_of, run_events, answers, get_result, majority,
}
use whirl_matrix.KvNode.Recency.{get-sees-set}
use whirl_matrix.Server.{Server, running, is_alive, state_eq}
use whirl_matrix.KvSim.{
  Action, reaps, reboots, freezes, thaws, run_actions, is_reap, victim_of, crash_bound,
}
use whirl_matrix.KvSim.Majority.{reaper-spares-majority}

abbrev Table : Type 0
Table = String → Option StampedValue

instance abbrev by_function : KvStore Table
by_function = record {
  put = λ k v s j. if str_eq k j then some v else s j;
  try_get = λ j s. s j;
  try_get-put = λ k j v s. refl;
}

abbrev written : StampedValue
written = record { value = "a"; timestamp = 5 }

abbrev empty_tables : ℕ → Table
empty_tables i key = none

abbrev set_before : List Event
set_before = writes 0 "x" written ∷ writes 1 "x" written ∷ []

abbrev get_after : List Event
get_after = reads 2 "x" ∷ reads 1 "x" ∷ []

abbrev two_answers : List Answer
two_answers =
    record { node = 2; key = "x"; stamped = initial_value }
    ∷ record { node = 1; key = "x"; stamped = written }
    ∷ []

get-sees-set_example :
    (r : StampedValue) × (get_result two_answers ≡ some r) × (written.timestamp ≤ r.timestamp)
unfolding majority answers answer_of arrives run_events local_write local_read older
get-sees-set_example =
    get-sees-set 3 "x" written empty_tables set_before get_after (0 ∷ 1 ∷ []) two_answers
      (refl, (refl, tt)) (omega arith, (omega arith, tt)) (omega arith)
      (inl refl, (inr (inl refl), tt)) (refl, (refl, tt)) (omega arith, (omega arith, tt))
      (omega arith) ((refl, inl refl), ((refl, inr (inl refl)), tt))

abbrev live_server : Server
live_server = record {
  state = running;
  wall_offset = 0;
  monotonic_clock = record { rate = 100; last_reset = 0; init = 0 };
  transport = record {
    host = "Server-kv-1";
    endpoints = [];
    next_port = 1;
    scheduler = record { items = []; inserts = 0 };
  };
  filesystem = record { objects = []; files = []; opened_files = []; next_fd = 0 };
  heap = record {
    block_lists = [];
    headers = [];
    start = 4096;
    end = 8192;
    next = 4096;
    zfilled = 4096;
  };
  has_runtime = true;
  startup = λ a. a;
}

abbrev three_servers : List Server
three_servers = live_server ∷ live_server ∷ live_server ∷ []

abbrev faults : List Action
faults = freezes 1 ∷ reaps 1 ∷ reboots 0 1 10 ∷ thaws 1 12 ∷ []

reaper-spares-majority_example :
    (servers' : List Server) × (run_actions faults three_servers ≡ ok servers')
    × (majority (length three_servers) ≤ count_where is_alive servers')
unfolding is_alive state_eq is_reap victim_of crash_bound
reaper-spares-majority_example =
    reaper-spares-majority faults three_servers (omega arith) (refl, (refl, (refl, tt)))
      (omega arith, (omega arith, (omega arith, (omega arith, tt)))) (omega arith)

-- ===== src/Runtime.antt =====
-- matrix/server/runtime, client/rpc.cpp: what the runtime of a server gives its programs: addresses,
-- timers, tasks, random numbers and the listing of files. An address is the list of its bytes; the
-- reading and the printing of a number by the libraries are parameters.
pub mod Addresses
pub mod Sockets
use Prim.Native.String.{String}
use whirl_matrix.Base.{
  ℕ, zero, suc, ◌+◌, ◌-◌, ◌%◌, Bool, ltb, Outcome, ok, verify, ◌>>◌, ◌^◌, Option, none, some, List,
  [], ◌∷◌, ◌++◌, ◌==◌, if◌then◌else◌, take, drop,
}
use whirl_matrix.PriorityQueue.{PriorityQueue}
use whirl_matrix.Scheduler.{ScheduledTask, schedule}
use whirl_matrix.Clocks.{MonotonicClock, timeout_of, word}

abbrev pub colon : ℕ
colon = b':'

-- std::string::find of a character.
unfoldable pub find_char : ℕ → List ℕ → Option ℕ
find_char c [] = none
find_char c (x ∷ l) =
    let rest = find_char c l in
    if x == c then some 0 else elim rest [ none ↦ none | some i ↦ some (suc i) ]

-- A port is unsigned with 16 bits.
unfoldable pub parse_port : (List ℕ → ℕ) → List ℕ → ℕ
parse_port atoi port_str = atoi port_str % 2 ^ 16

-- Without a colon `pos + 1` is zero: the host and the port are both the whole address.
unfoldable pub parse_address : (List ℕ → ℕ) → List ℕ → List ℕ × ℕ
unfolding find_char parse_port
parse_address atoi address = elim (find_char colon address) [
  | some pos ↦ (take pos address, parse_port atoi (drop (pos + 1) address))
  | none ↦ (address, parse_port atoi address)
]

unfoldable pub make_address : (ℕ → List ℕ) → List ℕ → ℕ → List ℕ
make_address print host port = host ++ colon ∷ print port

-- TimeService: when a delay in the time of the server's monotonic clock ends.
unfoldable pub after_real_time : ℕ → ℕ → MonotonicClock → ℕ
unfolding timeout_of
after_real_time now delay clock = word (now + timeout_of delay clock)

-- AfterJiffies: the promise is set by a task of the scheduler.
unfoldable pub after_jiffies :
    {T : Type 0}
    → ℕ
    → ℕ
    → MonotonicClock
    → T
    → PriorityQueue (ScheduledTask T)
    → PriorityQueue (ScheduledTask T)
unfolding after_real_time schedule
after_jiffies now delay clock set_promise scheduler =
    schedule (after_real_time now delay clock) set_promise scheduler

-- ThreadPool::Submit
unfoldable pub submit :
    {T : Type 0} → ℕ → T → PriorityQueue (ScheduledTask T) → PriorityQueue (ScheduledTask T)
unfolding schedule
submit now user_task scheduler = schedule now user_task scheduler

-- RandomGenerator::GenerateNumber of a number that the random source has given.
unfoldable pub generate_number : ℕ → ℕ → Outcome ℕ
generate_number drawn bound = verify (ltb 0 bound) >> ok (drawn % bound)

-- TrueTimeService::Now: an interval about the time of the world, with the uncertainty of the time model.
unfoldable pub true_time : ℕ → ℕ → ℕ × ℕ
true_time now u = ((if ltb u now then now - u else 0), word (now + u))

-- FS::ListFiles: the paths that begin with the prefix.
unfoldable pub list_files {ℓ} : {P : Type ℓ} → (String → Bool) → (String → P) → List String → List P
list_files starts_with make_path [] = []
list_files starts_with make_path (path ∷ paths) =
    let rest = list_files starts_with make_path paths in
    if starts_with path then make_path path ∷ rest else rest

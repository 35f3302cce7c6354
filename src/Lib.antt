-- ===== src/Lib.antt =====
-- whirl-matrix: a deterministic simulator of distributed systems. A world (matrix/world) keeps virtual
-- time and steps, one at a time, the actors that are runnable: the servers (matrix/server) and the
-- network (matrix/network). A server runs its tasks from a scheduler (matrix/process) with its own
-- clocks (matrix/clocks), its own heap (matrix/memory), a file system that survives its crashes
-- (matrix/fs), a database on it (matrix/db) and a transport, whose packets travel over the links of
-- the network. Time models (matrix/time_model) draw delays and drifts from the random source of the
-- world. Clients record the calls they make (matrix/history), and a checker (matrix/semantics)
-- decides whether the recorded history is linearizable. The example (examples/kv) is a replicated
-- key-value store with the adversaries that trouble it and the simulation that judges it.
--
-- PriorityQueue: matrix/helpers/priority_queue.hpp, the queue of tasks, frames and events.
-- Scheduler: matrix/process/scheduler.hpp. `shift` is the loop of Resume.
-- Semantics: matrix/semantics; Checker is checker/brute.hpp and checker/check.hpp with the names of the
--   source (StepInto is `step_into`, Search is `search` and its loop `scan`), Kv is models/kv.hpp,
--   Printer is printers/print.hpp and printers/kv.hpp,
--   Linearization says without the checker what a linearization is.
-- History: matrix/history/recorder.cpp and channel.cpp.
-- Fs: matrix/fs; Contents is file.cpp, Table the maps of the file system, Paths the functions on paths.
-- Db: matrix/db; Wal is wal.hpp and wal.cpp over a log file of the persist library, Cursor is iterator.cpp, Scan a loop over an iterator.
-- Network: matrix/network/network.cpp, link.cpp; Faults has its partitions and matrix/fault/net.
-- Transport: matrix/network/transport.cpp and socket.cpp.
-- Memory: matrix/memory. Server: matrix/server/server.cpp. Clocks: matrix/clocks and matrix/time.
-- World: the loop of matrix/world/world.cpp; World/Build: AddServer, AddPool, AddClient, AddAdversary,
--   Start and Stop of matrix/world and the helpers of matrix/facade. World/System puts the servers, the
--   network and the recorder together in a running world: `step_server` is Server::Step, `step_network` is
--   Network::Step with the server that receives, and a task of a program runs as a sequence of effects, the
--   calls that it makes of the simulator.
-- TimeModel: matrix/world/random_source.hpp, world/global/random.hpp and service.cpp, and
--   matrix/time_model/catalog.
-- Config: matrix/helpers/untyped_dict.hpp, world/global/vars.hpp and matrix/config/config.cpp.
-- Guids: matrix/guids. Runtime: matrix/server/runtime, the parts that a program calls; Sockets is
--   net_transport.hpp and transport.cpp.
-- Trace: matrix/trace/impl/tracer.cpp, over the calls of a JSON writer (Writer).
-- Log: matrix/log, the lines of the log and the levels of its components.
-- New: matrix/new/tracker.hpp and new.hpp, and world/actor_ctx.hpp. Runner: matrix/test, and LimitWidth of
--   matrix/log/format.cpp.
-- KvNode: examples/kv/node/main.cpp. KvSim: examples/kv/main.cpp; Simulation is the loop and the report
--   of its RunSimulation, SetUp the rest of it and the client.
-- Digest: matrix/helpers/digest.hpp. Base has the shared names and lemmas, Tests the theorems at
--   concrete inputs.
--
-- Numbers are natural numbers; ports are kept modulo 2^16, the sizes in block headers modulo 2^32, and
-- clocks, the times of timers and deliveries, the global counters, the versions of a database and the ids of guids and
-- of tracked allocations modulo 2^64. The counts of steps, of insertions in a queue, of calls in a recorder and of places in
-- a list are not reduced: they count what happens, one by one. A reference to an object is an index into the list of the
-- objects. A failed WHEELS_VERIFY, an exception and the like is `panic`. The search of the checker is on fuel
-- for its depth, one more than the number of calls, and each level places one call. The search for a port has
-- the 2^16 ports as its fuel, the loop of Resume of the scheduler one more than its tasks, and so has that
-- of a link; the fill with zeroes has more than the addresses up to its end. The loops of RunFor and of
-- RunSimulation end when the actors of the world let the time or the requests get there; their fuel is
-- an argument, and what is said of them is said of a run that has ended.
--
-- The programs, those of the clients and adversaries included, are a parameter of World/System, which may
-- choose any effects; what is said of its time is said up to a horizon until which no timer and no delivery
-- ends beyond 2^64.
--
-- Not modelled: what the libraries of the node, of futures, of serialization and of the log on disk
-- do (parameters, where the code needs them), the random service of the node library (its choices are
-- arguments), what the start of a process allocates in the heap of its server (a parameter of the server),
-- files and streams of logs, the output on the console, the fibers of a process and the
-- replacement of operator new.
pub mod Base
pub mod PriorityQueue
pub mod Semantics
pub mod History
pub mod Fs
pub mod Network
pub mod Digest
pub mod Scheduler
pub mod Clocks
pub mod Transport
pub mod Db
pub mod Log
pub mod Memory
pub mod Server
pub mod World
pub mod KvNode
pub mod TimeModel
pub mod KvSim
pub mod Config
pub mod New
pub mod Trace
pub mod Runner
pub mod Guids
pub mod Runtime
pub mod Tests

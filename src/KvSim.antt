-- ===== src/KvSim.antt =====
-- examples/kv/main.cpp: the simulation of the replicated key-value store and its adversaries, with
-- fault/util.cpp and test/random.hpp. What the adversaries draw from the random service of the node library are
-- arguments; their pauses only let time pass. A server is its place in the pool.
pub mod Majority
pub mod Simulation
pub mod Verdicts
pub mod SetUp
use whirl_matrix.Base.{
  ℕ, zero, suc, ◌+◌, ◌-◌, ◌/◌, ◌%◌, Bool, true, false, Option, none, some, List, [], ◌∷◌, ◌==◌, ltb,
  Outcome, ok, panic, ◌>>=◌, length, get_elem?, set,
}
use whirl_matrix.Server.{Server, is_alive, crash, fast_reboot, pause, resume, adjust_wall_clock}

-- Random::Get and Maybe on a number that the twister has generated.
unfoldable pub random_get : ℕ → ℕ → ℕ → ℕ
random_get generated min_value max_value = min_value + generated % (max_value - min_value + 1)

unfoldable pub random_maybe : ℕ → ℕ → Bool
random_maybe generated count = generated % count == 0

-- RandomServer of a place that was drawn, and a change of that server.
unfoldable pub at_victim : ℕ → (Server → Outcome Server) → List Server → Outcome (List Server)
at_victim i change servers = elim (get_elem? servers i) [
  | none ↦ panic
  | some victim ↦ change victim >>= λ victim'. ok (set servers i victim')
]

-- A turn of NodeReaper.
unfoldable pub reap : Server → Outcome Server
unfolding is_alive crash
reap victim = elim (is_alive victim) [ true ↦ crash victim | false ↦ ok victim ]

-- Resume does not end where the scheduler's delay does not.
unfoldable pub resume_victim : ℕ → Server → Outcome Server
unfolding resume
resume_victim now victim = elim (resume now victim) [ none ↦ panic | some victim' ↦ ok victim' ]

-- The actions of the two adversaries of the nodes on the place that each has drawn, with the time and what the
-- time model chooses. A freeze is its two actions, since others may come between.
pub data Action : Type 0 where
  reaps : ℕ → Action
  reboots : ℕ → ℕ → ℕ → Action
  freezes : ℕ → Action
  thaws : ℕ → ℕ → Action
  adjusts : ℕ → ℕ → Action

unfoldable pub act : Action → List Server → Outcome (List Server)
unfolding at_victim reap resume_victim fast_reboot pause adjust_wall_clock
act (reaps i) = at_victim i reap
act (reboots i init now) = at_victim i (fast_reboot init now)
act (freezes i) = at_victim i (λ s. ok (pause s))
act (thaws i now) = at_victim i (resume_victim now)
act (adjusts i offset) = at_victim i (λ s. ok (adjust_wall_clock offset s))

unfoldable pub run_actions : List Action → List Server → Outcome (List Server)
unfolding act
run_actions [] servers = ok servers
run_actions (a ∷ actions) servers = act a servers >>= run_actions actions

-- The crash budget of NodeReaper is drawn from zero up to this bound.
unfoldable pub crash_bound : ℕ → ℕ
crash_bound pool_size = (pool_size - 1) / 2

-- The turns of NodeReaper, and whose turn an action is.
unfoldable pub is_reap : Action → Bool
is_reap (reaps i) = true
is_reap _ = false

unfoldable pub victim_of : Action → ℕ
victim_of (reaps i) = i
victim_of (reboots i init now) = i
victim_of (freezes i) = i
victim_of (thaws i now) = i
victim_of (adjusts i offset) = i

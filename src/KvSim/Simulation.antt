-- ===== src/KvSim/Simulation.antt =====
-- examples/kv/main.cpp: the loop of RunSimulation and the report. The counter of requests and the history are read from
-- the state that the actors of the world share; the digest comes from Stop.
use whirl_matrix.Base.{
  ℕ, zero, suc, Bool, true, false, ◌&&◌, List, ltb, Outcome, ok, panic, ◌>>=◌, if◌then◌else◌,
}
use whirl_matrix.Digest.{Hashes}
use whirl_matrix.World.{World, Actors, step, time_elapsed}
use whirl_matrix.Semantics.{Call}
use whirl_matrix.Semantics.Checker.{lin_check}
use whirl_matrix.Semantics.Kv.{Codec, kv_store_model}
use whirl_matrix.KvSim.{random_get, random_maybe}

abbrev pub time_limit : ℕ
time_limit = 20000

abbrev pub requests_threshold : ℕ
requests_threshold = 7

-- The parameters of a simulation, from the numbers that the twister has generated.
pub record Parameters : Type 0 where
  pub replicas : ℕ
  pub clients : ℕ
  pub keys : ℕ

unfoldable pub parameters : ℕ → ℕ → ℕ → Parameters
unfolding random_get
parameters a b c = record {
  replicas = random_get a 3 5;
  clients = random_get b 2 3;
  keys = random_get c 1 2;
}

-- The adversaries of a simulation: of the network, of the nodes, and the reaper. The source draws the
-- later numbers only if the first draw says so.
unfoldable pub adversaries : ℕ → ℕ → ℕ → ℕ → Bool × Bool × Bool
unfolding random_maybe
adversaries some net nodes reaper =
    if random_maybe some 3
    then (random_maybe net 3, random_maybe nodes 7, random_maybe reaper 11)
    else (false, false, false)

pub data Verdict : Type 0 where
  passed : ℕ → Verdict
  deadlock time_limit_exceeded not_linearizable : Verdict

module _ {S : Type 0} (w : Hashes) (acts : Actors S) (requests : S → ℕ) where
  unfoldable pub goes_on : World S → Bool
  unfolding time_elapsed
  goes_on world =
      ltb (requests world.actors) requests_threshold && ltb (time_elapsed w acts world) time_limit

  -- On fuel.
  unfoldable pub simulate : ℕ → World S → Outcome (World S)
  unfolding goes_on step
  simulate zero world = panic
  simulate (suc fuel) world = elim (goes_on world) [
    | false ↦ ok world
    | true ↦ step w acts world >>= λ r. elim r.0 [ false ↦ ok r.1 | true ↦ simulate fuel r.1 ]
  ]

  unfoldable pub report : Codec → (S → List Call) → ℕ → World S → Verdict
  unfolding time_elapsed lin_check
  report c history digest world =
      if ltb (requests world.actors) requests_threshold
      then (if ltb (time_elapsed w acts world) time_limit then deadlock else time_limit_exceeded)
      else if lin_check (kv_store_model c) (history world.actors)
      then passed digest
      else not_linearizable

-- ===== src/Runner.antt =====
-- matrix/test: the runner of simulations, and the text of a long event log. A simulation runs in the state of the
-- process, which the global allocator is a part of; its output is left out. Fail is a panic.
pub mod Logs
use whirl_matrix.Base.{
  ℕ, zero, suc, ◌+◌, ◌-◌, ◌*◌, ◌<◌, ◌≤◌, Bool, true, false, Option, none, some, List, [], ◌∷◌, ◌++◌,
  ltb, leb, ◌==◌, Outcome, ok, panic, verify, ◌>>=◌, ◌>>◌, if◌then◌else◌, length, take, drop, map,
}

-- A simulation of a seed, which may end the process, and the checksum of the global allocations.
pub record Simulation (G : Type 0) : Type 0 where
  pub run : ℕ → G → Outcome (ℕ × G)
  pub checksum : G → ℕ
  pub cleanup : G → G

abbrev pub determinism_seed : ℕ
determinism_seed = 104107713

module _ {G : Type 0} (sim : Simulation G) where
  unfoldable pub run_simulation : ℕ → G → Outcome (ℕ × G)
  run_simulation seed g = sim.run seed g >>= λ r. ok (r.0, sim.cleanup r.1)

  unfoldable pub test_determinism : G → Outcome G
  unfolding run_simulation
  test_determinism g = run_simulation determinism_seed g >>= λ first.
      run_simulation determinism_seed first.1 >>= λ second.
      verify (first.0 == second.0)
      >> verify (sim.checksum first.1 == sim.checksum second.1)
      >> ok second.1

  -- The seeds that the twister has generated, as many as simulations are asked for.
  unfoldable pub run_simulations : List ℕ → G → Outcome G
  unfolding run_simulation
  run_simulations [] g = ok g
  run_simulations (seed ∷ seeds) g = run_simulation seed g >>= λ r. run_simulations seeds r.1

  -- Main: a single simulation if there is a seed, or else what was asked for of the others.
  unfoldable pub main : Option ℕ → Bool → Option (List ℕ) → G → Outcome G
  unfolding run_simulation test_determinism run_simulations
  main (some seed) det sims g = run_simulation seed g >>= λ r. ok r.1
  main none det sims g = (if det then test_determinism g else ok g) >>= λ g'. elim sims [
    | none ↦ ok g'
    | some seeds ↦ run_simulations seeds g'
  ]

abbrev pub head_lines : ℕ
head_lines = 100

abbrev pub tail_lines : ℕ
tail_lines = 256

abbrev pub lines_limit : ℕ
lines_limit = head_lines + tail_lines

-- A line of the text: an event, or how many lines are skipped.
pub data Line (E : Type 0) : Type 0 where
  event : E → Line E
  skipped : ℕ → Line E

unfoldable pub write_text_log : {E : Type 0} → List E → List (Line E)
write_text_log events =
    if leb (length events) lines_limit
    then map event events
    else map event (take head_lines events)
      ++ skipped (length events - lines_limit)
        ∷ map event (drop (length events - tail_lines) events)

-- LimitWidth
unfoldable pub limit_width : ℕ → List ℕ → List ℕ
limit_width width str = if ltb (length str) width then str else take width str

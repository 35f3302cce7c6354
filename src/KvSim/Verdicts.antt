-- ===== src/KvSim/Verdicts.antt =====
-- What the report of a simulation means.
use whirl_matrix.Base.{
  Ensures, ensured, ℕ, zero, suc, ◌≤◌, ◌<◌, ◌≡◌, ◌⊎◌, inl, inr, Bool, true, false, none, List,
  arith, Bool-cases, Option-cases, Outcome-cases, ltb, Outcome, ok, panic, ◌>>=◌,
}
use whirl_matrix.Digest.{Hashes}
use whirl_matrix.Clocks.{fast_forward_to}
use whirl_matrix.World.{World, Actors, step, time_elapsed, find_next_step}
use whirl_matrix.Semantics.{Call}
use whirl_matrix.Semantics.Linearization.{IsLinearizable}
use whirl_matrix.Semantics.Checker.{lin_check}
use whirl_matrix.Semantics.Checker.Tried.{IsTimed}
use whirl_matrix.Semantics.Kv.{Codec, kv_store_model}
use whirl_matrix.Semantics.Kv.Laws.{lin_check-kv}
use whirl_matrix.KvSim.Simulation.{
  time_limit, requests_threshold, Verdict, passed, deadlock, time_limit_exceeded, not_linearizable,
  goes_on, simulate, report,
}

module _ {S : Type 0} (w : Hashes) (acts : Actors S) (requests : S → ℕ) where
  -- No actor can run.
  abbrev pub IsStuck : World S → Type 0
  IsStuck world = find_next_step (acts.times world.actors) ≡ none

  abbrev Ended : World S → Type 0
  Ended world = (goes_on w acts requests world ≡ false) ⊎ IsStuck world

  abbrev after_step : ℕ → Outcome (Bool × World S) → Outcome (World S)
  after_step fuel r =
      r >>= λ r. elim r.0 [ false ↦ ok r.1 | true ↦ simulate w acts requests fuel r.1 ]

  abbrev Stops : Bool × World S → Type 0
  Stops (true, world) = Unit
  Stops (false, world) = IsStuck world

  after-Ended :
      (fuel : ℕ) (r : Outcome (Bool × World S))
      → Ensures Stops r
      → ((world : World S) → Ensures Ended (simulate w acts requests fuel world))
      → Ensures Ended (after_step fuel r)
  after-Ended fuel panic h k = tt
  after-Ended fuel (ok (true, world)) h k = k world
  after-Ended fuel (ok (false, world)) h k = inr h

  step-Stops : (world : World S) → Ensures Stops (step w acts world)
  unfolding step
  step-Stops world = elim (Option-cases (find_next_step (acts.times world.actors))) [
    | inl e ↦ rw (e, step) e
    | inr (next, e) ↦
        rw (e, step)
          (elim (Outcome-cases (fast_forward_to next.time world.now)) [
            | inl f ↦ rw (f, step) tt
            | inr (now, f) ↦
                rw (f, step)
                  (elim (Outcome-cases (acts.step_actor next.actor_index now world.actors)) [
                    | inl h ↦ rw (h, step) tt
                    | inr (actors, h) ↦ rw (h, step) tt
                  ])
          ])
  ]

  simulate-Ended :
      (fuel : ℕ) (world : World S) → Ensures Ended (simulate w acts requests fuel world)
  unfolding simulate
  simulate-Ended zero world = tt
  simulate-Ended (suc fuel) world = elim (Bool-cases (goes_on w acts requests world)) [
    | inr e ↦ rw (e, simulate) (inl e)
    | inl e ↦
        rw (e, simulate)
          (after-Ended fuel (step w acts world) (step-Stops world) (simulate-Ended fuel))
  ]

  IsStuck-here :
      (world : World S)
      → Ended world
      → ltb (requests world.actors) 7 ≡ true
      → ltb (time_elapsed w acts world) 20000 ≡ true
      → IsStuck world
  unfolding goes_on
  IsStuck-here world (inr h) e f = h
  IsStuck-here world (inl h) e f = absurd (ground (arith, h, e, f))

  -- What a report says of the world in which the simulation ended.
  abbrev pub Means : Codec → (S → List Call) → World S → Verdict → Type 0
  Means c history world (passed digest) = requests_threshold ≤ requests world.actors
  Means c history world deadlock =
      IsStuck world
      × (requests world.actors < requests_threshold)
      × (time_elapsed w acts world < time_limit)
  Means c history world time_limit_exceeded =
      (requests world.actors < requests_threshold) × (time_limit ≤ time_elapsed w acts world)
  Means c history world not_linearizable =
      (requests_threshold ≤ requests world.actors)
      × (¬ IsLinearizable (kv_store_model c) (history world.actors))

  -- When the loop of a simulation has ended, the report is true: a deadlock is reported only if no actor of the
  -- world can run and there is time left, an exceeded time limit only if it was reached, each with
  -- fewer requests than wanted; a history is reported as not linearizable only if it is not,
  -- where no call in it ended before it began; and the other reports come with enough requests.
  pub report-Means :
      (c : Codec) (history : S → List Call) (fuel digest : ℕ) (world world' : World S)
      → simulate w acts requests fuel world ≡ ok world'
      → IsTimed (history world'.actors)
      → Means c history world' (report w acts requests c history digest world')
  unfolding report
  report-Means c history fuel digest world world' runs timed =
      let ended =
        ensured Ended (simulate w acts requests fuel world) world' (simulate-Ended fuel world)
          runs in
      elim (Bool-cases (ltb (requests world'.actors) 7)) [
        | inl e ↦
            rw (e, report)
              (elim (Bool-cases (ltb (time_elapsed w acts world') 20000)) [
                | inl f ↦ rw (f, report) (IsStuck-here world' ended e f, ground arith, ground arith)
                | inr f ↦ rw (f, report) (ground arith, ground arith)
              ])
        | inr e ↦
            rw (e, report)
              (elim (Bool-cases (lin_check (kv_store_model c) (history world'.actors))) [
                | inl f ↦ rw (f, report) (ground arith)
                | inr f ↦
                    rw (f, report) (ground arith, lin_check-kv c (history world'.actors) timed f)
              ])
      ]

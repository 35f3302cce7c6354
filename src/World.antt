-- ===== src/World.antt =====
-- matrix/world/world.cpp and world.hpp: the loop of events of the simulation. An actor of the world
-- is an index; when it can run next and what its step does are the interface `Actors` (IActor), on a
-- state that the actors share. The pools of hosts are lists of names.
pub mod Next
pub mod Build
pub mod System
use Prim.Native.String.{String}
use text.Mathlib.Text.{◌==◌ as str_eq}
use whirl_matrix.Base.{
  ℕ, zero, suc, ◌+◌, ◌-◌, Bool, true, false, not, Option, none, some, List, [], ◌∷◌, ◌++◌, length,
  ltb, leb, Outcome, ok, panic, ◌>>=◌, ◌>>◌, verify, if◌then◌else◌,
}
use whirl_matrix.Clocks.{fast_forward_to}
use whirl_matrix.Digest.{Hashes, eat_number}

pub record NextStep : Type 0 where
  pub actor_index : ℕ
  pub time : ℕ

-- The times of the next steps of the actors, in their order, and the step of one at a time. An actor
-- that is not runnable has no time.
pub record Actors (S : Type 0) : Type 0 where
  pub times : S → List (Option ℕ)
  pub step_actor : ℕ → ℕ → S → Outcome S

pub record World (S : Type 0) : Type 0 where
  pub actors : S
  pub now : ℕ
  pub start_time : ℕ
  pub step_number : ℕ
  pub digest : ℕ

-- The candidate after the actor `i` has been looked at.
unfoldable pub consider : ℕ → Option ℕ → Option NextStep → Option NextStep
consider i none next_step = next_step
consider i (some time) none = some (record { actor_index = i; time = time })
consider i (some time) (some next_step) =
    if ltb time next_step.time
    then some (record { actor_index = i; time = time })
    else some next_step

unfoldable pub scan_actors : ℕ → List (Option ℕ) → Option NextStep → Option NextStep
unfolding consider
scan_actors i [] next_step = next_step
scan_actors i (t ∷ times) next_step = scan_actors (i + 1) times (consider i t next_step)

unfoldable pub find_next_step : List (Option ℕ) → Option NextStep
unfolding scan_actors
find_next_step times = scan_actors 0 times none

module _ {S : Type 0} (w : Hashes) (acts : Actors S) where
  -- Whether a step has been made, and the world.
  unfoldable pub step : World S → Outcome (Bool × World S)
  unfolding find_next_step eat_number fast_forward_to
  step world = elim (find_next_step (acts.times world.actors)) [
    | none ↦ ok (false, world)
    | some next ↦ fast_forward_to next.time world.now >>= λ now.
        acts.step_actor next.actor_index now world.actors >>= λ actors. ok (
          true,
          record world {
            actors = actors;
            now = now;
            step_number = world.step_number + 1;
            digest = eat_number w (eat_number w world.digest next.time) next.actor_index;
          },
        )
  ]

  -- The steps made.
  unfoldable pub make_steps : ℕ → World S → Outcome (ℕ × World S)
  unfolding step
  make_steps zero world = ok (0, world)
  make_steps (suc steps) world = step world >>= λ r. elim r.0 [
    | false ↦ ok (0, r.1)
    | true ↦ make_steps steps r.1 >>= λ r'. ok (r'.0 + 1, r'.1)
  ]

  unfoldable pub time_elapsed : World S → ℕ
  time_elapsed world = world.now - world.start_time

  -- RunFor, on fuel.
  unfoldable pub run_for : ℕ → ℕ → World S → Outcome (World S)
  unfolding step time_elapsed
  run_for zero time_budget world = panic
  run_for (suc fuel) time_budget world = elim (ltb (time_elapsed world) time_budget) [
    | false ↦ ok world
    | true ↦ step world >>= λ r. elim r.0 [ false ↦ ok r.1 | true ↦ run_for fuel time_budget r.1 ]
  ]

-- The pools, in the order of their names.
unfoldable pub get_pool : String → List (String × List String) → List String
get_pool name [] = []
get_pool name ((pool, hosts) ∷ pools) = if str_eq pool name then hosts else get_pool name pools

unfoldable pub cluster_size : List (String × List String) → ℕ
cluster_size [] = 0
cluster_size ((pool, hosts) ∷ pools) = length hosts + cluster_size pools

unfoldable pub in_pool : String → List String → Bool
in_pool hostname [] = false
in_pool hostname (h ∷ hosts) = if str_eq h hostname then true else in_pool hostname hosts

-- FindServer: the pool in which the host is.
unfoldable pub find_server : String → List (String × List String) → Option String
unfolding in_pool
find_server hostname [] = none
find_server hostname ((pool, hosts) ∷ pools) =
    if in_pool hostname hosts then some pool else find_server hostname pools

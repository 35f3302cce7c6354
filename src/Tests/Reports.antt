-- ===== src/Tests/Reports.antt =====
-- The report of a simulation whose only actor stops for want of something to do.
use Prim.Native.String.{String}
use text.Mathlib.Text.{◌==◌ as str_eq}
use text.Mathlib.TextEquality.{eq_iff}
use mathlib.Core.List.{not-mem-nil}
use whirl_matrix.Base.{ℕ, zero, suc, ◌+◌, ◌-◌, refl, none, some, List, [], ◌∷◌, ok, Option}
use whirl_matrix.Digest.{Hashes, eat_number}
use whirl_matrix.Clocks.{fast_forward_to}
use whirl_matrix.World.{World, Actors, step, time_elapsed, find_next_step}
use whirl_matrix.Semantics.Kv.{Codec}
use whirl_matrix.KvSim.Simulation.{deadlock, simulate, goes_on, report}
use whirl_matrix.KvSim.Verdicts.{Means, report-Means}

abbrev tests_hashes : Hashes
tests_hashes = record {
  hash_combine = λ a b. a + b;
  hash_number = λ n. n;
  hash_string = λ s. 7;
  hash_range = λ n l. n;
}

-- The state is the number of steps that the actor will still make.
abbrev time_of : ℕ → List (Option ℕ)
time_of zero = none ∷ []
time_of (suc n) = some 50 ∷ []

abbrev tired : Actors ℕ
tired = record { times = time_of; step_actor = λ i time n. ok (n - 1) }

abbrev tired_world : ℕ → ℕ → ℕ → ℕ → World ℕ
tired_world n now steps digest = record {
  actors = n;
  now = now;
  start_time = 1;
  step_number = steps;
  digest = digest;
}

abbrev text_codec : Codec
text_codec = record {
  K = String;
  V = String;
  key_eq = str_eq;
  key_eq_iff = eq_iff;
  val_eq = str_eq;
  val_eq_iff = eq_iff;
  default_value = "";
  as_set = λ a. ("k", a.bytes);
  as_get = λ a. "k";
  as_cas = λ a. ("k", a.bytes, "new");
  make_unit = record { bytes = "" };
  make_value = λ v. record { bytes = v };
}

report-Means_example :
    Means tests_hashes tired (λ n. n) text_codec (λ n. []) (tired_world 0 50 2 100) deadlock
unfolding simulate goes_on step find_next_step time_elapsed report fast_forward_to eat_number
report-Means_example =
    report-Means tests_hashes tired (λ n. n) text_codec (λ n. []) 5 0 (tired_world 2 1 0 0)
      (tired_world 0 50 2 100) refl (λ c h. absurd (not-mem-nil h))

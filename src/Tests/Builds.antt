-- ===== src/Tests/Builds.antt =====
-- Worlds and ids at small inputs.
use Prim.Native.String.{String, ◌∷◌ as str_cons}
use text.Mathlib.TextLemmas.{cons-ne-nil, tail-eq_of_cons-eq}
use whirl_matrix.Base.{
  ◌*◌, ◌≤◌, ◌<◌, ℕ, zero, suc, ◌+◌, ◌≡◌, refl, sym, ap, Bool, true, false, List, [], ◌∷◌, arith,
  ◌==◌, if◌then◌else◌, ok, length, count_where,
}
use whirl_matrix.Digest.{Hashes}
use whirl_matrix.World.Build.{
  Actor, Cluster, Names, Addition, pool_added, clients_added, adversary_added, build, empty_cluster,
  start, stop, pool_at, make_name_template,
}
use whirl_matrix.World.Build.Stopped.{start-stop, is_start, is_stop}
use whirl_matrix.World.Build.Naming.{hostnames, numbered}
use whirl_matrix.KvSim.{crash_bound}
use whirl_matrix.KvSim.Simulation.{parameters, adversaries}
use whirl_matrix.KvSim.SetUp.{random_key, set_up}
use whirl_matrix.KvSim.SetUp.Sizes.{set_up_lem}
use whirl_matrix.Guids.{generate, generate_next, char_of}
use whirl_matrix.Guids.Unique.{generate-injective}

abbrev plain_names : Names ℕ
plain_names = record {
  next_id = λ n. (n + 1, n + 1);
  print = λ n. if n == 1 then "1" else "2";
  name_less = λ a b. false;
}

abbrev some_hashes : Hashes
some_hashes = record {
  hash_combine = λ a b. a + b;
  hash_number = λ n. n;
  hash_string = λ s. 7;
  hash_range = λ n l. n;
}

abbrev small_world : List Addition
small_world = pool_added "kv" 2 "Server-kv" ∷ clients_added 1 ∷ adversary_added ∷ []

abbrev any_actor : Actor → Bool
any_actor a = true

start-stop_example :
    (c end : Cluster ℕ) × (start 7 (build plain_names small_world (empty_cluster 0)) ≡ ok c)
    × ((stop some_hashes (λ a. 1) 0 c).1 ≡ end)
    × (count_where (is_start any_actor) c.trace ≡ count_where any_actor c.actors)
    × (count_where (is_stop any_actor) c.trace ≡ 0)
    × (count_where (is_stop any_actor) end.trace ≡ count_where (is_start any_actor) c.trace)
    × (count_where (is_start any_actor) end.trace ≡ count_where (is_start any_actor) c.trace)
    × (end.actors ≡ [])
start-stop_example = start-stop plain_names any_actor small_world 0 7 some_hashes (λ a. 1) 0

abbrev in_strokes : ℕ → String
in_strokes zero = ""
in_strokes (suc n) = str_cons "1" (in_strokes n)

in_strokes-injective : (m n : ℕ) → in_strokes m ≡ in_strokes n → m ≡ n
in_strokes-injective zero zero h = refl
in_strokes-injective zero (suc n) h = absurd (cons-ne-nil "1" (in_strokes n) (sym h))
in_strokes-injective (suc m) zero h = absurd (cons-ne-nil "1" (in_strokes m) h)
in_strokes-injective (suc m) (suc n) h = ap suc (in_strokes-injective m n (tail-eq_of_cons-eq h))

generate-injective_example : ◌≡◌ {A = ℕ} 1 1
unfolding generate generate_next char_of
generate-injective_example =
    generate-injective in_strokes 2 1 1 "guid-Z-11" in_strokes-injective (omega arith) refl refl

set_up_lem_example :
    let p = parameters 7 4 9 in
    let world = set_up plain_names 0 p (adversaries 3 0 0 1) in
    (hostnames (pool_at "kv" world.pools)
      ≡ numbered plain_names (make_name_template "kv") 0 p.replicas)
    × (3 ≤ p.replicas)
    × (p.replicas ≤ 5)
    × (length world.clients ≡ p.clients)
    × (2 ≤ p.clients)
    × (p.clients ≤ 3)
    × (length world.adversaries ≤ 3)
    × (2 * crash_bound p.replicas < p.replicas)
    × ((drawn : ℕ) → drawn < p.keys → (key : String) × (random_key drawn ≡ ok key))
set_up_lem_example = set_up_lem plain_names 0 7 4 9 3 0 0 1

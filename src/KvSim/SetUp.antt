-- ===== src/KvSim/SetUp.antt =====
-- examples/kv/main.cpp: the set-up of a simulation, what a client asks for, and the adversary of the network. The numbers
-- that are drawn are arguments.
pub mod Sizes
pub mod Healing
use Prim.Native.String.{String}
use whirl_matrix.Base.{
  ℕ, ◌+◌, Bool, true, false, Option, none, some, List, [], ◌∷◌, ◌++◌, get_elem?, Outcome, ok, panic,
  ◌>>=◌, ◌==◌, if◌then◌else◌,
}
use whirl_matrix.Network.{Network}
use whirl_matrix.Network.Faults.{make_star, heal}
use whirl_matrix.World.Build.{
  Names, Cluster, Addition, pool_added, clients_added, adversary_added, build, empty_cluster,
  make_name_template,
}
use whirl_matrix.Config.{Any, size, set_value, init_counter}
use whirl_matrix.KvSim.Simulation.{Parameters, parameters, adversaries}

abbrev pub kv_keys : List String
kv_keys = "a" ∷ "b" ∷ "c" ∷ []

-- RandomKey of a number that was drawn.
unfoldable pub random_key : ℕ → Outcome String
random_key drawn = elim (get_elem? kv_keys drawn) [ none ↦ panic | some key ↦ ok key ]

unfoldable pub random_value : (ℕ → String) → ℕ → String
random_value print drawn = print drawn

unfoldable pub either : ℕ → Bool
either drawn = drawn == 1

-- A turn of the loop of Client, without its pauses.
pub data Ask : Type 0 where
  asks_set : String → String → Ask
  asks_get : String → Ask

unfoldable pub client_turn : (ℕ → String) → ℕ → ℕ → ℕ → Outcome Ask
unfolding random_key random_value either
client_turn print key_drawn choice value_drawn = random_key key_drawn >>= λ key.
    ok (if either choice then asks_set key (random_value print value_drawn) else asks_get key)

abbrev pub when : Bool → List Addition → List Addition
when true l = l
when false l = []

-- What RunSimulation adds to the world.
unfoldable pub additions : Parameters → Bool × Bool × Bool → List Addition
unfolding make_name_template
additions p (net, nodes, reaper) =
    pool_added "kv" p.replicas (make_name_template "kv")
    ∷ clients_added p.clients
    ∷ (when net (adversary_added ∷ [])
        ++ (when nodes (adversary_added ∷ []) ++ when reaper (adversary_added ∷ [])))

unfoldable pub set_up : {I : Type 0} → Names I → I → Parameters → Bool × Bool × Bool → Cluster I
unfolding additions build
set_up names ids p faults = build names (additions p faults) (empty_cluster ids)

unfoldable pub set_globals : Parameters → List (String × Any) → List (String × Any)
unfolding set_value init_counter
set_globals p globals = init_counter "requests" 0 (set_value "keys" (size p.keys) globals)

-- A turn of the loop of NetAdversary: a star, what the others do to the network while it pauses, and the heal. The
-- pause takes time; the heal is at `now`.
unfoldable pub net_turn :
    List String → ℕ → (Network → Outcome Network) → ℕ → Network → Outcome Network
unfolding make_star heal
net_turn pool center meanwhile now net =
    make_star pool center net >>= meanwhile >>= λ net'. heal now net'

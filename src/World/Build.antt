-- ===== src/World/Build.antt =====
-- matrix/world/world.hpp and world.cpp: how a world is put together, started and stopped, and the
-- helpers of facade/world. The id generator of wheels, the printing of a number and the order of strings are
-- parameters. A pool of servers is the list of its servers; the program of a server is not modelled.
pub mod Registered
pub mod Stopped
pub mod Naming
use Prim.Native.String.{String, ◌++◌ as str_append}
use text.Mathlib.Text.{◌==◌ as str_eq, starts_with}
use whirl_matrix.Base.{
  ℕ, zero, suc, ◌+◌, Bool, true, false, Option, none, some, List, [], ◌∷◌, ◌++◌, map, length,
  Outcome, ok, panic, ◌>>=◌, if◌then◌else◌,
}
use whirl_matrix.Clocks.{fast_forward_to}
use whirl_matrix.Digest.{Hashes, combine}

pub record Host : Type 0 where
  pub id : ℕ
  pub hostname : String
  pub pool_name : String

pub data Actor : Type 0 where
  network : Actor
  server : Host → Actor

-- The parts that adding, starting and stopping change. The trace has the calls of Start and Shutdown of the actors.
pub data Call : Type 0 where
  starts stops : Actor → Call

pub record Cluster (I : Type 0) : Type 0 where
  pub pools : List (String × List Host)
  pub clients : List Host
  pub adversaries : List Host
  pub server_ids : I
  pub network_servers : List Host
  pub actors : List Actor
  pub trace : List Call
  pub now : ℕ
  pub start_time : ℕ

pub record Names (I : Type 0) : Type 0 where
  pub next_id : I → ℕ × I
  pub print : ℕ → String
  pub name_less : String → String → Bool

-- `pools_[name]`: the pool, made empty where it is missing, in the order of the names.
unfoldable pub pool_at : String → List (String × List Host) → List Host
pool_at name [] = []
pool_at name ((n, hosts) ∷ pools) = if str_eq n name then hosts else pool_at name pools

abbrev pub map_insert :
    (String → String → Bool)
    → String
    → List Host
    → List (String × List Host)
    → List (String × List Host)
map_insert name_less name hosts [] = (name, hosts) ∷ []
map_insert name_less name hosts ((n, old) ∷ pools) =
    let rest = map_insert name_less name hosts pools in
    if name_less name n then (name, hosts) ∷ (n, old) ∷ pools else (n, old) ∷ rest

unfoldable pub has_pool : String → List (String × List Host) → Bool
has_pool name [] = false
has_pool name ((n, hosts) ∷ pools) = if str_eq n name then true else has_pool name pools

unfoldable pub replace_pool :
    String → List Host → List (String × List Host) → List (String × List Host)
replace_pool name hosts [] = []
replace_pool name hosts ((n, old) ∷ pools) =
    let rest = replace_pool name hosts pools in
    if str_eq n name then (n, hosts) ∷ pools else (n, old) ∷ rest

unfoldable pub store_pool :
    (String → String → Bool)
    → String
    → List Host
    → List (String × List Host)
    → List (String × List Host)
unfolding has_pool replace_pool
store_pool name_less name hosts pools =
    if has_pool name pools
    then replace_pool name hosts pools
    else map_insert name_less name hosts pools

-- AddServerImpl: the new server, behind those of its pool; the pool is stored by the caller.
unfoldable pub add_server_impl :
    {I : Type 0} → Names I → String → String → Cluster I → Host × Cluster I
add_server_impl names pool_name hostname c =
    let (id, server_ids) = names.next_id c.server_ids in
    let host : Host = record { id = id; hostname = hostname; pool_name = pool_name } in
    (
      host,
      record c {
        server_ids = server_ids;
        network_servers = c.network_servers ++ host ∷ [];
        actors = c.actors ++ server host ∷ [];
      },
    )

unfoldable pub make_server_name : {I : Type 0} → Names I → String → ℕ → String
make_server_name names name_template index =
    str_append (str_append name_template "-") (names.print index)

-- AddToPool: the pool with the new server.
unfoldable pub add_to_pool :
    {I : Type 0} → Names I → List Host → String → String → Cluster I → List Host × Cluster I
unfolding add_server_impl make_server_name
add_to_pool names pool pool_name host_name_template c =
    let host_name = make_server_name names host_name_template (length pool + 1) in
    let (host, c') = add_server_impl names pool_name host_name c in (pool ++ host ∷ [], c')

unfoldable pub add_all :
    {I : Type 0} → Names I → ℕ → List Host → String → String → Cluster I → List Host × Cluster I
unfolding add_to_pool
add_all names zero pool pool_name host_name_template c = (pool, c)
add_all names (suc size) pool pool_name host_name_template c =
    let (pool', c') = add_to_pool names pool pool_name host_name_template c in
    add_all names size pool' pool_name host_name_template c'

abbrev pub snowflakes : String
snowflakes = "snowflakes"

unfoldable pub add_server : {I : Type 0} → Names I → String → Cluster I → Cluster I
unfolding add_server_impl pool_at store_pool
add_server names hostname c =
    let pool = pool_at snowflakes c.pools in
    let (host, c') = add_server_impl names snowflakes hostname c in
    record c' { pools = store_pool names.name_less snowflakes (pool ++ host ∷ []) c.pools }

unfoldable pub add_pool : {I : Type 0} → Names I → String → ℕ → String → Cluster I → Cluster I
unfolding add_all pool_at store_pool
add_pool names pool_name size name_template c =
    let (pool, c') = add_all names size (pool_at pool_name c.pools) pool_name name_template c in
    record c' { pools = store_pool names.name_less pool_name pool c.pools }

unfoldable pub add_client : {I : Type 0} → Names I → Cluster I → Cluster I
unfolding add_to_pool
add_client names c =
    let (clients, c') = add_to_pool names c.clients "clients" "Client" c in
    record c' { clients = clients }

-- The facade's AddClients.
unfoldable pub add_clients : {I : Type 0} → Names I → ℕ → Cluster I → Cluster I
unfolding add_client
add_clients names zero c = c
add_clients names (suc count) c = add_clients names count (add_client names c)

unfoldable pub add_adversary : {I : Type 0} → Names I → Cluster I → Cluster I
unfolding add_to_pool
add_adversary names c =
    let (adversaries, c') = add_to_pool names c.adversaries "adversaries" "Adversary" c in
    record c' { adversaries = adversaries }

unfoldable pub has_adversary : {I : Type 0} → Cluster I → Bool
has_adversary c = elim c.adversaries [ [] ↦ false | h ∷ hosts ↦ true ]

-- MakeServerTimeModel: whether the server has the time model of an adversary.
unfoldable pub has_adversary_times : String → Bool
has_adversary_times hostname = starts_with hostname "Adversary"

-- The facade's MakeNameTemplate.
unfoldable pub make_name_template : String → String
make_name_template pool_name = str_append "Server-" pool_name

unfoldable pub all_hosts : List (String × List Host) → List Host
all_hosts [] = []
all_hosts ((name, hosts) ∷ pools) = hosts ++ all_hosts pools

abbrev pub as_actors : List Host → List Actor
as_actors = map server

-- The actors in the order in which Start starts them.
unfoldable pub start_order : {I : Type 0} → Cluster I → List Actor
unfolding all_hosts
start_order c =
    network ∷ as_actors (all_hosts c.pools) ++ as_actors c.clients ++ as_actors c.adversaries

unfoldable pub start : {I : Type 0} → ℕ → Cluster I → Outcome (Cluster I)
unfolding start_order fast_forward_to
start global_start_time c = fast_forward_to global_start_time c.now >>= λ now. ok (record c {
  now = now;
  start_time = now;
  actors = c.actors ++ network ∷ [];
  trace = c.trace ++ map starts (start_order c);
})

-- The actors in the order in which Stop shuts them down.
unfoldable pub stop_order : {I : Type 0} → Cluster I → List Actor
unfolding all_hosts
stop_order c =
    as_actors c.adversaries ++ network ∷ as_actors (all_hosts c.pools) ++ as_actors c.clients

unfoldable pub combine_all : Hashes → (Actor → ℕ) → ℕ → List Actor → ℕ
unfolding combine
combine_all w digest_of digest [] = digest
combine_all w digest_of digest (a ∷ actors) =
    combine_all w digest_of (combine w digest (digest_of a)) actors

-- The digest, of the network and the servers of the pools, and the world without actors.
unfoldable pub stop : {I : Type 0} → Hashes → (Actor → ℕ) → ℕ → Cluster I → ℕ × Cluster I
unfolding stop_order combine_all all_hosts
stop w digest_of digest c = (
  combine_all w digest_of digest (network ∷ as_actors (all_hosts c.pools)),
  record c {
    adversaries = [];
    pools = [];
    clients = [];
    actors = [];
    trace = c.trace ++ map stops (stop_order c);
  },
)

pub data Addition : Type 0 where
  server_added : String → Addition
  pool_added : String → ℕ → String → Addition
  clients_added : ℕ → Addition
  adversary_added : Addition

unfoldable pub add : {I : Type 0} → Names I → Addition → Cluster I → Cluster I
unfolding add_server add_pool add_clients add_adversary
add names (server_added hostname) c = add_server names hostname c
add names (pool_added name size name_template) c = add_pool names name size name_template c
add names (clients_added count) c = add_clients names count c
add names adversary_added c = add_adversary names c

unfoldable pub build : {I : Type 0} → Names I → List Addition → Cluster I → Cluster I
unfolding add
build names [] c = c
build names (a ∷ additions) c = build names additions (add names a c)

unfoldable pub empty_cluster : {I : Type 0} → I → Cluster I
empty_cluster ids = record {
  pools = [];
  clients = [];
  adversaries = [];
  server_ids = ids;
  network_servers = [];
  actors = [];
  trace = [];
  now = 0;
  start_time = 0;
}

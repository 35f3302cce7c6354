-- ===== src/KvSim/SetUp/Sizes.antt =====
-- RunSimulation: how large the world of a simulation is, and that its clients have keys.
use Prim.Native.String.{String}
use whirl_matrix.Base.{
  ℕ, zero, suc, ◌+◌, ◌*◌, ◌≤◌, ◌<◌, ◌≡◌, refl, ap, ◌∙◌, Bool, true, false, List, [], ◌∷◌, ◌++◌,
  arith, length, length-append, get_elem?-lt, ok,
}
use whirl_matrix.World.Build.{
  Names, Cluster, Host, Addition, adversary_added, add, build, empty_cluster, add_pool, add_clients,
  add_client, add_adversary, add_to_pool, add_all, add_server_impl, make_name_template, pool_at,
}
use whirl_matrix.World.Build.Naming.{hostnames, numbered, pool_at-add_pool}
use whirl_matrix.KvSim.{crash_bound}
use whirl_matrix.KvSim.Simulation.{Parameters, parameters, adversaries}
use whirl_matrix.KvSim.SetUp.{kv_keys, random_key, when, additions, set_up}

module _ {I : Type 0} (names : Names I) where
  added_client :
      (c : Cluster I)
      → ((add_client names c).pools ≡ c.pools)
        × (length (add_client names c).clients ≡ length c.clients + 1)
        × ((add_client names c).adversaries ≡ c.adversaries)
  unfolding add_client add_to_pool add_server_impl
  added_client c = (refl, length-append c.clients _, refl)

  added_clients :
      (n : ℕ) (c : Cluster I)
      → ((add_clients names n c).pools ≡ c.pools)
        × (length (add_clients names n c).clients ≡ length c.clients + n)
        × ((add_clients names n c).adversaries ≡ c.adversaries)
  unfolding add_clients
  added_clients zero c = (refl, omega arith, refl)
  added_clients (suc n) c =
      let (pools, clients, others) = added_client c in
      let (pools', clients', others') = added_clients n (add_client names c) in
      (pools' ∙ pools, omega arith, others' ∙ others)

  -- The clients and the pools are left by adversaries.
  abbrev OnlyAdversaries : ℕ → Cluster I → Cluster I → Type 0
  OnlyAdversaries n c c' =
      (c'.pools ≡ c.pools)
      × (c'.clients ≡ c.clients)
      × (length c'.adversaries ≡ length c.adversaries + n)

  abbrev one_if : Bool → ℕ
  one_if true = 1
  one_if false = 0

  added_one :
      (b : Bool) (c : Cluster I)
      → OnlyAdversaries (one_if b) c (build names (when b (adversary_added ∷ [])) c)
  unfolding build add add_adversary add_to_pool add_server_impl
  added_one true c = (refl, refl, length-append c.adversaries _)
  added_one false c = (refl, refl, omega arith)

  build-append :
      (l r : List Addition) (c : Cluster I)
      → build names (l ++ r) c ≡ build names r (build names l c)
  unfolding build
  build-append [] r c = refl
  build-append (x ∷ l) r c = build-append l r (add names x c)

  OnlyAdversaries-trans :
      (m n : ℕ) (a b c : Cluster I)
      → OnlyAdversaries m a b
      → OnlyAdversaries n b c
      → OnlyAdversaries (m + n) a c
  OnlyAdversaries-trans m n a b c (p, q, r) (p', q', r') = (p' ∙ p, q' ∙ q, omega arith)

  added_adversaries :
      (a b d : Bool) (c : Cluster I)
      → OnlyAdversaries (one_if a + (one_if b + one_if d)) c (
          build names
            (when a (adversary_added ∷ [])
              ++ (when b (adversary_added ∷ []) ++ when d (adversary_added ∷ [])))
            c)
  added_adversaries a b d c =
      let first = when a (adversary_added ∷ []) in
      let second = when b (adversary_added ∷ []) in
      let third = when d (adversary_added ∷ []) in
      let c1 = build names first c in
      let c2 = build names second c1 in
      rw (build-append first (second ++ third) c) (
        rw (build-append second third c1) (
          OnlyAdversaries-trans (one_if a) (one_if b + one_if d) c c1 (build names third c2)
            (added_one a c)
            (OnlyAdversaries-trans (one_if b) (one_if d) c1 c2 (build names third c2)
              (added_one b c1) (added_one d c2))))

  set_up-pools :
      (ids : I) (p : Parameters) (faults : Bool × Bool × Bool)
      → hostnames (pool_at "kv" (set_up names ids p faults).pools)
        ≡ numbered names (make_name_template "kv") 0 p.replicas
  unfolding set_up additions build add empty_cluster
  set_up-pools ids p (net, nodes, reaper) =
      let pool = add_pool names "kv" p.replicas (make_name_template "kv") (empty_cluster ids) in
      let clients = add_clients names p.clients pool in
      let kept =
        (added_adversaries net nodes reaper clients).0 ∙ (added_clients p.clients pool).0 in
      ap (λ pools. hostnames (pool_at "kv" pools)) kept
      ∙ pool_at-add_pool names "kv" "kv" (make_name_template "kv") p.replicas (empty_cluster ids)

  only_servers :
      (n : ℕ) (pool : List Host) (name template : String) (c : Cluster I)
      → ((add_all names n pool name template c).1.clients ≡ c.clients)
        × ((add_all names n pool name template c).1.adversaries ≡ c.adversaries)
  unfolding add_all add_to_pool add_server_impl
  only_servers zero pool name template c = (refl, refl)
  only_servers (suc n) pool name template c =
      only_servers n (add_to_pool names pool name template c).0 name template
        (add_to_pool names pool name template c).1

  fresh_pool :
      (n : ℕ) (template : String) (ids : I)
      → (length (add_pool names "kv" n template (empty_cluster ids)).clients ≡ 0)
        × (length (add_pool names "kv" n template (empty_cluster ids)).adversaries ≡ 0)
  unfolding add_pool empty_cluster
  fresh_pool n template ids =
      let (clients, others) = only_servers n [] "kv" template (empty_cluster ids) in
      (ap length clients, ap length others)

  set_up-guests :
      (ids : I) (p : Parameters) (net nodes reaper : Bool)
      → (length (set_up names ids p (net, nodes, reaper)).clients ≡ p.clients)
        × (length (set_up names ids p (net, nodes, reaper)).adversaries
            ≡ one_if net + (one_if nodes + one_if reaper))
  unfolding set_up additions build add
  set_up-guests ids p net nodes reaper =
      let pool = add_pool names "kv" p.replicas (make_name_template "kv") (empty_cluster ids) in
      let clients = add_clients names p.clients pool in
      let (none_yet, no_others) = fresh_pool p.replicas (make_name_template "kv") ids in
      let (_, as_many, others) = added_clients p.clients pool in
      let (_, same, more) = added_adversaries net nodes reaper clients in
      (ap length same ∙ omega arith, more ∙ omega (arith, ap length others))

  at_most_one : (b : Bool) → one_if b ≤ 1
  at_most_one true = omega arith
  at_most_one false = omega arith

  few :
      (ids : I) (p : Parameters) (faults : Bool × Bool × Bool)
      → length (set_up names ids p faults).adversaries ≤ 3
  few ids p (net, nodes, reaper) = omega (
    arith,
    (set_up-guests ids p net nodes reaper).1,
    at_most_one net,
    at_most_one nodes,
    at_most_one reaper,
  )

  as_many_clients :
      (ids : I) (p : Parameters) (faults : Bool × Bool × Bool)
      → length (set_up names ids p faults).clients ≡ p.clients
  as_many_clients ids p (net, nodes, reaper) = (set_up-guests ids p net nodes reaper).0

random_key-ok : (drawn : ℕ) → drawn < 3 → (key : String) × (random_key drawn ≡ ok key)
unfolding random_key
random_key-ok drawn h =
    let (key, there) = get_elem?-lt kv_keys drawn h in (key, rw (there, random_key) refl)

-- Whatever the numbers that are drawn, the world of a simulation has the pool of the replicas, from three to
-- five of them with the numbered names, as many clients as were drawn, two or three, and at most three adversaries;
-- the crashes that the reaper may cause are fewer than half of the replicas; and a client that draws a
-- key below the number of keys gets one.
pub set_up_lem :
    {I : Type 0} (names : Names I) (ids : I) (a b c some_faults net nodes reaper : ℕ)
    → let p = parameters a b c in
      let world = set_up names ids p (adversaries some_faults net nodes reaper) in
      (hostnames (pool_at "kv" world.pools) ≡ numbered names (make_name_template "kv") 0 p.replicas)
      × (3 ≤ p.replicas)
      × (p.replicas ≤ 5)
      × (length world.clients ≡ p.clients)
      × (2 ≤ p.clients)
      × (p.clients ≤ 3)
      × (length world.adversaries ≤ 3)
      × (2 * crash_bound p.replicas < p.replicas)
      × ((drawn : ℕ) → drawn < p.keys → (key : String) × (random_key drawn ≡ ok key))
unfolding parameters crash_bound
set_up_lem names ids a b c some_faults net nodes reaper =
    let p = parameters a b c in
    let faults = adversaries some_faults net nodes reaper in
    (
      set_up-pools names ids p faults,
      omega arith,
      omega arith,
      as_many_clients names ids p faults,
      omega arith,
      omega arith,
      few names ids p faults,
      omega arith,
      λ drawn h. random_key-ok drawn (omega arith),
    )

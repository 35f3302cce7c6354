-- ===== src/World/Build/Stopped.antt =====
-- Start and Stop of a world that has been built: each actor is started once and shut down once.
use whirl_matrix.Base.{
  bit, count_where, count-append, count-map, ℕ, zero, suc, ◌+◌, ◌≡◌, refl, ◌∙◌, Bool, true, false,
  not, List, [], ◌∷◌, ◌++◌, map, arith, ltb, ok,
}
use Prim.Native.String.{String}
use whirl_matrix.Digest.{Hashes}
use whirl_matrix.Clocks.{fast_forward_to}
use whirl_matrix.World.Build.{
  Host, Actor, network, server, Call, starts, stops, Cluster, Names, add_server_impl, add_to_pool,
  add_all, add_server, add_pool, add_client, add_clients, add_adversary, all_hosts, as_actors,
  start_order, start, stop_order, stop, Addition, server_added, pool_added, clients_added,
  adversary_added, add, build, empty_cluster, pool_at,
}
use whirl_matrix.World.Build.Registered.{hosted, build-Grows}

module _ {I : Type 0} (names : Names I) where
  -- Nothing has run yet.
  abbrev Still : Cluster I → Cluster I → Type 0
  Still c c' = (c'.now ≡ c.now) × (c'.trace ≡ c.trace)

  add_all-Still :
      (size : ℕ) (pool : List Host) (pool_name template : String) (c : Cluster I)
      → Still c (add_all names size pool pool_name template c).1
  unfolding add_all add_to_pool add_server_impl
  add_all-Still zero pool pool_name template c = (refl, refl)
  add_all-Still (suc size) pool pool_name template c =
      let one = add_to_pool names pool pool_name template c in
      add_all-Still size one.0 pool_name template one.1

  add_clients-Still : (count : ℕ) (c : Cluster I) → Still c (add_clients names count c)
  unfolding add_clients add_client add_to_pool add_server_impl
  add_clients-Still zero c = (refl, refl)
  add_clients-Still (suc count) c = add_clients-Still count (add_client names c)

  add-Still : (a : Addition) (c : Cluster I) → Still c (add names a c)
  unfolding add add_server add_pool add_adversary add_to_pool add_server_impl
  add-Still (server_added hostname) c = (refl, refl)
  add-Still (pool_added name size template) c =
      add_all-Still size (pool_at name c.pools) name template c
  add-Still (clients_added count) c = add_clients-Still count c
  add-Still adversary_added c = (refl, refl)

  build-Still : (additions : List Addition) (c : Cluster I) → Still c (build names additions c)
  unfolding build
  build-Still [] c = (refl, refl)
  build-Still (a ∷ additions) c =
      let (e, f) = add-Still a c in
      let (g, h) = build-Still additions (add names a c) in (g ∙ e, h ∙ f)

-- The calls of Start, and of Shutdown, of the actors with a property.
abbrev pub is_start : (Actor → Bool) → Call → Bool
is_start p (starts a) = p a
is_start p (stops a) = false

abbrev pub is_stop : (Actor → Bool) → Call → Bool
is_stop p (starts a) = false
is_stop p (stops a) = p a

none_of : (actors : List Actor) (p : Actor → Bool) → count_where (is_start p) (map stops actors) ≡ 0
none_of [] p = refl
none_of (a ∷ actors) p = omega (arith, none_of actors p)

no_stops :
    (actors : List Actor) (p : Actor → Bool) → count_where (is_stop p) (map starts actors) ≡ 0
no_stops [] p = refl
no_stops (a ∷ actors) p = omega (arith, no_stops actors p)

orders_count :
    {I : Type 0}
    → (p : Actor → Bool) (c : Cluster I)
    → (count_where p (start_order c) ≡ bit (p network) + hosted p c)
      × (count_where p (stop_order c) ≡ bit (p network) + hosted p c)
unfolding start_order stop_order
orders_count p c =
    let a = count-map p server (all_hosts c.pools) in
    let b = count-map p server c.clients in
    let d = count-map p server c.adversaries in
    (
      omega (
        arith,
        a,
        b,
        d,
        count-append p (network ∷ as_actors (all_hosts c.pools) ++ as_actors c.clients)
            (as_actors c.adversaries),
        count-append p (network ∷ as_actors (all_hosts c.pools)) (as_actors c.clients),
      ),
      omega (
        arith,
        a,
        b,
        d,
        count-append p (as_actors c.adversaries ++ network ∷ as_actors (all_hosts c.pools))
            (as_actors c.clients),
        count-append p (as_actors c.adversaries) (network ∷ as_actors (all_hosts c.pools)),
      ),
    )

abbrev begun : {I : Type 0} → ℕ → Cluster I → Cluster I
begun time b = record b {
  now = time;
  start_time = time;
  actors = b.actors ++ network ∷ [];
  trace = b.trace ++ map starts (start_order b);
}

module _ {I : Type 0} (b : Cluster I) where
  start-ok : (time : ℕ) → b.now ≡ 0 → start time b ≡ ok (begun time b)
  unfolding start fast_forward_to
  start-ok time e =
      let on_time : not (ltb time b.now) ≡ true = ground (arith, e) in rw (on_time, start) refl

  starts-counted :
      (p : Actor → Bool) (time : ℕ)
      → b.trace ≡ []
      → count_where p b.actors ≡ hosted p b
      → (count_where (is_start p) (begun time b).trace ≡ count_where p (begun time b).actors)
        × (count_where (is_stop p) (begun time b).trace ≡ 0)
  unfolding start_order
  starts-counted p time e h = rw e (
    omega (
      arith,
      h,
      count-append p b.actors (network ∷ []),
      count-map (is_start p) starts (start_order b),
      (orders_count p b).0,
    ),
    no_stops (start_order b) p,
  )

  stops-counted :
      (p : Actor → Bool) (w : Hashes) (digest_of : Actor → ℕ) (digest time : ℕ)
      → b.trace ≡ []
      → (count_where (is_stop p) (stop w digest_of digest (begun time b)).1.trace
          ≡ count_where (is_start p) (begun time b).trace)
        × (count_where (is_start p) (stop w digest_of digest (begun time b)).1.trace
            ≡ count_where (is_start p) (begun time b).trace)
  unfolding stop start_order
  stops-counted p w digest_of digest time e =
      let begins = map starts (start_order b) in
      let ends = map stops (stop_order (begun time b)) in
      rw e (
        omega (
          arith,
          count-append (is_stop p) begins ends,
          no_stops (start_order b) p,
          count-map (is_stop p) stops (stop_order (begun time b)),
          count-map (is_start p) starts (start_order b),
          (orders_count p b).0,
          (orders_count p (begun time b)).1,
        ),
        omega (arith, count-append (is_start p) begins ends, none_of (stop_order (begun time b)) p),
      )

module _ {I : Type 0} (names : Names I) where
  -- However a world is put together of servers, pools, clients and adversaries, its start does not fail. Of the
  -- actors with any given property, the loop of events has as many as Start has started, and once the world is
  -- stopped it has none, and Stop has shut down as many as were started; so no actor is
  -- forgotten or counted twice.
  pub start-stop :
      (p : Actor → Bool) (additions : List Addition) (ids : I) (time : ℕ)
      → (w : Hashes) (digest_of : Actor → ℕ) (digest : ℕ)
      → (c end : Cluster I) × (start time (build names additions (empty_cluster ids)) ≡ ok c)
        × ((stop w digest_of digest c).1 ≡ end)
        × (count_where (is_start p) c.trace ≡ count_where p c.actors)
        × (count_where (is_stop p) c.trace ≡ 0)
        × (count_where (is_stop p) end.trace ≡ count_where (is_start p) c.trace)
        × (count_where (is_start p) end.trace ≡ count_where (is_start p) c.trace)
        × (end.actors ≡ [])
  unfolding empty_cluster stop all_hosts
  start-stop p additions ids time w digest_of digest =
      let b = build names additions (empty_cluster ids) in
      let (e, f) = build-Still names additions (empty_cluster ids) in
      let known : count_where p b.actors ≡ hosted p b =
        omega (arith, build-Grows names p additions (empty_cluster ids)) in
      let (started, unstopped) = starts-counted b p time f known in
      let (stopped, no_more) = stops-counted b p w digest_of digest time f in
      (
        begun time b,
        (stop w digest_of digest (begun time b)).1,
        start-ok b time e,
        refl,
        started,
        unstopped,
        stopped,
        no_more,
        refl,
      )

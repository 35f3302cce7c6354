-- ===== src/World/Build/Registered.antt =====
-- The actors of a world that has been built.
use Prim.Native.String.{String}
use whirl_matrix.Base.{
  count_where, count-append, ℕ, zero, suc, ◌+◌, ◌≡◌, refl, ap, ◌∙◌, inl, inr, Bool, true, false,
  List, [], ◌∷◌, ◌++◌, arith, Bool-cases, length,
}
use whirl_matrix.World.Build.{
  Host, Actor, server, Cluster, Names, pool_at, map_insert, has_pool, replace_pool, store_pool,
  add_server_impl, make_server_name, add_to_pool, add_all, add_server, add_pool, add_client,
  add_clients, add_adversary, all_hosts, Addition, server_added, pool_added, clients_added,
  adversary_added, add, build, snowflakes,
}

module _ (p : Host → Bool) where
  map_insert-count :
      (name_less : String → String → Bool)
      → (name : String) (hosts : List Host) (pools : List (String × List Host))
      → count_where p (all_hosts (map_insert name_less name hosts pools))
        ≡ count_where p hosts + count_where p (all_hosts pools)
  unfolding all_hosts
  map_insert-count name_less name hosts [] = omega (arith, count-append p hosts [])
  map_insert-count name_less name hosts ((n, old) ∷ pools) = ground (
    arith,
    count-append p hosts (old ++ all_hosts pools),
    count-append p old (all_hosts pools),
    count-append p old (all_hosts (map_insert name_less name hosts pools)),
    map_insert-count name_less name hosts pools,
  )

  replace_pool-count :
      (name : String) (hosts : List Host) (pools : List (String × List Host))
      → has_pool name pools ≡ true
      → count_where p (all_hosts (replace_pool name hosts pools))
          + count_where p (pool_at name pools)
        ≡ count_where p hosts + count_where p (all_hosts pools)
  unfolding has_pool replace_pool pool_at all_hosts
  replace_pool-count name hosts [] h = cc
  replace_pool-count name hosts ((n, old) ∷ pools) h = ground (
    arith,
    count-append p hosts (all_hosts pools),
    count-append p old (all_hosts pools),
    count-append p old (all_hosts (replace_pool name hosts pools)),
    replace_pool-count name hosts pools,
  )

  pool_at-missing :
      (name : String) (pools : List (String × List Host))
      → has_pool name pools ≡ false
      → count_where p (pool_at name pools) ≡ 0
  unfolding has_pool pool_at
  pool_at-missing name [] h = refl
  pool_at-missing name ((n, old) ∷ pools) h = ground (arith, pool_at-missing name pools)

  -- Storing a pool changes the servers by what it changes in that pool.
  pub store_pool-count :
      (name_less : String → String → Bool)
      → (name : String) (hosts : List Host) (pools : List (String × List Host))
      → count_where p (all_hosts (store_pool name_less name hosts pools))
          + count_where p (pool_at name pools)
        ≡ count_where p hosts + count_where p (all_hosts pools)
  unfolding store_pool
  store_pool-count name_less name hosts pools = elim (Bool-cases (has_pool name pools)) [
    | inl e ↦ rw (e, store_pool) (replace_pool-count name hosts pools e)
    | inr e ↦
        rw (e, store_pool)
          (omega (arith, pool_at-missing name pools e, map_insert-count name_less name hosts pools))
  ]

-- How many of the actors, and of the hosts, have a property.
abbrev pub registered : {I : Type 0} → (Actor → Bool) → Cluster I → ℕ
registered p c = count_where p c.actors

abbrev pub hosted : {I : Type 0} → (Actor → Bool) → Cluster I → ℕ
hosted p c =
    count_where (λ h. p (server h)) (all_hosts c.pools)
    + count_where (λ h. p (server h)) c.clients
    + count_where (λ h. p (server h)) c.adversaries

module _ {I : Type 0} (names : Names I) (p : Actor → Bool) where
  -- What has been added to a list of servers has been added to the actors, and to nothing else.
  abbrev Same : List Host → Cluster I → List Host × Cluster I → Type 0
  Same pool c (pool', c') =
      (registered p c' + count_where (λ h. p (server h)) pool
        ≡ registered p c + count_where (λ h. p (server h)) pool')
      × (c'.pools ≡ c.pools)
      × (c'.clients ≡ c.clients)
      × (c'.adversaries ≡ c.adversaries)

  add_to_pool-Same :
      (pool : List Host) (pool_name template : String) (c : Cluster I)
      → Same pool c (add_to_pool names pool pool_name template c)
  unfolding add_to_pool add_server_impl
  add_to_pool-Same pool pool_name template c =
      let h =
        (add_server_impl names pool_name (make_server_name names template (length pool + 1)) c).0 in
      (
        omega (
          arith,
          count-append p c.actors (server h ∷ []),
          count-append (λ (x : Host). p (server x)) pool (h ∷ []),
        ),
        refl,
        refl,
        refl,
      )

  add_all-Same :
      (size : ℕ) (pool : List Host) (pool_name template : String) (c : Cluster I)
      → Same pool c (add_all names size pool pool_name template c)
  unfolding add_all
  add_all-Same zero pool pool_name template c = (refl, refl, refl, refl)
  add_all-Same (suc size) pool pool_name template c =
      let one = add_to_pool names pool pool_name template c in
      let (a, b, d, e) = add_to_pool-Same pool pool_name template c in
      let (a', b', d', e') = add_all-Same size one.0 pool_name template one.1 in
      (omega (arith, a, a'), b' ∙ b, d' ∙ d, e' ∙ e)

  abbrev pub Grows : Cluster I → Cluster I → Type 0
  Grows c c' = registered p c' + hosted p c ≡ registered p c + hosted p c'

  add_server-Grows : (hostname : String) (c : Cluster I) → Grows c (add_server names hostname c)
  unfolding add_server add_server_impl
  add_server-Grows hostname c =
      let pool = pool_at snowflakes c.pools in
      let h = (add_server_impl names snowflakes hostname c).0 in
      omega (
        arith,
        store_pool-count (λ (x : Host). p (server x)) names.name_less snowflakes (pool ++ h ∷ [])
            c.pools,
        count-append p c.actors (server h ∷ []),
        count-append (λ (x : Host). p (server x)) pool (h ∷ []),
      )

  -- A world whose pools, clients and adversaries are given, but not its actors.
  pool-Grows :
      (c d : Cluster I) (pool pool' : List Host) (name : String)
      → d.clients ≡ c.clients
      → d.adversaries ≡ c.adversaries
      → pool ≡ pool_at name c.pools
      → registered p d + count_where (λ h. p (server h)) pool
        ≡ registered p c + count_where (λ h. p (server h)) pool'
      → Grows c (record d { pools = store_pool names.name_less name pool' c.pools })
  pool-Grows c d pool pool' name e f h k =
      let stored =
        store_pool-count (λ (x : Host). p (server x)) names.name_less name pool' c.pools in
      rw e (rw f (omega (arith, stored, k, ap (count_where (λ (x : Host). p (server x))) h)))

  add_pool-Grows :
      (name : String) (size : ℕ) (template : String) (c : Cluster I)
      → Grows c (add_pool names name size template c)
  unfolding add_pool
  add_pool-Grows name size template c =
      let pool = pool_at name c.pools in
      let r = add_all names size pool name template c in
      let (a, b, d, e) = add_all-Same size pool name template c in
      pool-Grows c r.1 pool r.0 name d e refl a

  add_client-Grows : (c : Cluster I) → Grows c (add_client names c)
  unfolding add_client
  add_client-Grows c =
      let (a, b, d, e) = add_to_pool-Same c.clients "clients" "Client" c in
      rw b (rw e (omega (arith, a)))

  add_clients-Grows : (count : ℕ) (c : Cluster I) → Grows c (add_clients names count c)
  unfolding add_clients
  add_clients-Grows zero c = omega arith
  add_clients-Grows (suc count) c =
      omega (arith, add_client-Grows c, add_clients-Grows count (add_client names c))

  add_adversary-Grows : (c : Cluster I) → Grows c (add_adversary names c)
  unfolding add_adversary
  add_adversary-Grows c =
      let (a, b, d, e) = add_to_pool-Same c.adversaries "adversaries" "Adversary" c in
      rw b (rw d (omega (arith, a)))

  add-Grows : (a : Addition) (c : Cluster I) → Grows c (add names a c)
  unfolding add
  add-Grows (server_added hostname) c = add_server-Grows hostname c
  add-Grows (pool_added name size template) c = add_pool-Grows name size template c
  add-Grows (clients_added count) c = add_clients-Grows count c
  add-Grows adversary_added c = add_adversary-Grows c

  pub build-Grows : (additions : List Addition) (c : Cluster I) → Grows c (build names additions c)
  unfolding build
  build-Grows [] c = omega arith
  build-Grows (a ∷ additions) c =
      omega (arith, add-Grows a c, build-Grows additions (add names a c))

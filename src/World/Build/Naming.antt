-- ===== src/World/Build/Naming.antt =====
-- The names of the servers of a pool.
use Prim.Native.String.{String, ◌++◌ as str_append}
use text.Mathlib.Text.{◌==◌ as str_eq}
use text.Mathlib.TextLemmas.{append_assoc as str_assoc}
use text.Mathlib.TextEquality.{eq_iff}
use text.Mathlib.TextPositions.{starts_with-append}
use mathlib.Core.List.{append_assoc, append-nil}
use whirl_matrix.Base.{
  ℕ, zero, suc, ◌+◌, ◌≡◌, refl, ap, sym, ◌∙◌, inl, inr, Bool, true, false, List, [], ◌∷◌, ◌++◌, map,
  arith, length, length-append, All, All-append, Bool-cases, if◌then◌else◌,
}
use whirl_matrix.World.Build.{
  Host, Cluster, Names, pool_at, map_insert, has_pool, replace_pool, store_pool, add_server_impl,
  make_server_name, add_to_pool, add_all, add_pool, add_adversary, has_adversary_times,
}

-- The names of a template with the numbers from `i + 1` on.
abbrev pub numbered : {I : Type 0} → Names I → String → ℕ → ℕ → List String
numbered names template i zero = []
numbered names template i (suc size) =
    make_server_name names template (i + 1) ∷ numbered names template (i + 1) size

abbrev pub hostnames : List Host → List String
hostnames = map (λ (h : Host). h.hostname)

hostnames-append : (l r : List Host) → hostnames (l ++ r) ≡ hostnames l ++ hostnames r
hostnames-append [] r = refl
hostnames-append (h ∷ l) r = ap (◌∷◌ h.hostname) (hostnames-append l r)

module _ {I : Type 0} (names : Names I) where
  numbered_from :
      (pool : List Host) (h : Host) (size : ℕ) (template : String) (n : ℕ)
      → n ≡ length pool + 1
      → h.hostname ≡ make_server_name names template (length pool + 1)
      → hostnames (pool ++ h ∷ []) ++ numbered names template n size
        ≡ hostnames pool ++ numbered names template (length pool) (suc size)
  numbered_from pool h size template n e f = rw e (
      rw (hostnames-append pool (h ∷ [])) (
        rw
          (append_assoc (hostnames pool) (h.hostname ∷ [])
            (numbered names template (length pool + 1) size))
          (rw f refl)))

  add_all-names :
      (size : ℕ) (pool : List Host) (pool_name template : String) (c : Cluster I)
      → hostnames (add_all names size pool pool_name template c).0
        ≡ hostnames pool ++ numbered names template (length pool) size
  unfolding add_all add_to_pool add_server_impl
  add_all-names zero pool pool_name template c = sym (append-nil (hostnames pool))
  add_all-names (suc size) pool pool_name template c =
      let one = add_to_pool names pool pool_name template c in
      let h =
        (add_server_impl names pool_name (make_server_name names template (length pool + 1)) c).0 in
      add_all-names size one.0 pool_name template one.1
      ∙ numbered_from pool h size template (length one.0) (length-append pool (h ∷ [])) refl

pool_at-replace_pool :
    (name other : String) (hosts : List Host) (pools : List (String × List Host))
    → has_pool name pools ≡ true
    → pool_at other (replace_pool name hosts pools)
      ≡ (if str_eq name other then hosts else pool_at other pools)
unfolding has_pool replace_pool pool_at
pool_at-replace_pool name other hosts [] h = cc
pool_at-replace_pool name other hosts ((n, old) ∷ pools) h = ground (
  arith,
  pool_at-replace_pool name other hosts pools,
  eq_iff n name,
  eq_iff n other,
  eq_iff name other,
)

pool_at-map_insert :
    (name_less : String → String → Bool)
    → (name other : String) (hosts : List Host) (pools : List (String × List Host))
    → has_pool name pools ≡ false
    → pool_at other (map_insert name_less name hosts pools)
      ≡ (if str_eq name other then hosts else pool_at other pools)
unfolding has_pool pool_at
pool_at-map_insert name_less name other hosts [] h = refl
pool_at-map_insert name_less name other hosts ((n, old) ∷ pools) h = ground (
  arith,
  pool_at-map_insert name_less name other hosts pools,
  eq_iff n name,
  eq_iff n other,
  eq_iff name other,
)

pool_at-store_pool :
    (name_less : String → String → Bool)
    → (name other : String) (hosts : List Host) (pools : List (String × List Host))
    → pool_at other (store_pool name_less name hosts pools)
      ≡ (if str_eq name other then hosts else pool_at other pools)
unfolding store_pool
pool_at-store_pool name_less name other hosts pools = elim (Bool-cases (has_pool name pools)) [
  | inl e ↦ rw (e, store_pool) (pool_at-replace_pool name other hosts pools e)
  | inr e ↦ rw (e, store_pool) (pool_at-map_insert name_less name other hosts pools e)
]

module _ {I : Type 0} (names : Names I) where
  -- After AddPool the pool has the servers that it had, and behind them as many as were asked for, with
  -- the name template and the numbers that follow the size that the pool had; the other pools have
  -- the servers that they had.
  pub pool_at-add_pool :
      (name other template : String) (size : ℕ) (c : Cluster I)
      → hostnames (pool_at other (add_pool names name size template c).pools) ≡ (
          if str_eq name other
          then hostnames (pool_at name c.pools)
            ++ numbered names template (length (pool_at name c.pools)) size
          else hostnames (pool_at other c.pools))
  unfolding add_pool
  pool_at-add_pool name other template size c =
      let pool = pool_at name c.pools in
      rw
        (pool_at-store_pool names.name_less name other (add_all names size pool name template c).0
          c.pools)
        (elim (Bool-cases (str_eq name other)) [
          | inl e ↦ rw e (add_all-names names size pool name template c)
          | inr e ↦ rw e refl
        ])

  -- Adding an adversary keeps that all adversaries have the time model of an adversary.
  pub add_adversary-times :
      (c : Cluster I)
      → All (λ (h : Host). has_adversary_times h.hostname ≡ true) c.adversaries
      → All
          (λ (h : Host). has_adversary_times h.hostname ≡ true)
          (add_adversary names c).adversaries
  unfolding add_adversary add_to_pool has_adversary_times add_server_impl make_server_name
  add_adversary-times c h =
      let number = names.print (length c.adversaries + 1) in
      All-append _ c.adversaries (_ ∷ []) h (
        rw (str_assoc "Adversary" "-" number)
            (starts_with-append "Adversary" (str_append "-" number)),
        tt,
      )

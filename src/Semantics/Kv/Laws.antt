-- ===== src/Semantics/Kv/Laws.antt =====
-- The key-value model is a map, and its reads are neutral: what the checker's theorems ask of it.
use whirl_matrix.Base.{false, ◌≡◌, refl, some, List, [], ◌∷◌, arith, if◌then◌else◌}
use whirl_matrix.Semantics.{Call, apply_call}
use whirl_matrix.Semantics.Linearization.{IsLinearizable}
use whirl_matrix.Semantics.Checker.{lin_check}
use whirl_matrix.Semantics.Checker.Tried.{IsTimed}
use whirl_matrix.Semantics.Checker.Cleanup.{ReadsAreNeutral, lin_check_complete}
use whirl_matrix.Semantics.Kv.{
  Codec, State, find, set, get, cas, apply, is_mutation, decompose, kv_store_model,
}

module _ (c : Codec) where
  open c use {K, V, key_eq, key_eq_iff}

  pub find-set :
      (k j : K) (v : V) (s : State c)
      → find c j (set c k v s) ≡ (if key_eq k j then some v else find c j s)
  unfolding find set
  find-set k j v [] = refl
  find-set k j v ((i, w) ∷ s) =
      ground (arith, find-set k j v s, key_eq_iff i k, key_eq_iff i j, key_eq_iff k j)

  -- A `Cas` returns the value before it, and afterwards the key has the new value if the value
  -- before was the expected one, and what it had otherwise; no other key changes.
  pub get-cas :
      (k j : K) (expected target : V) (s : State c)
      → ((cas c k expected target s).0 ≡ get c k s)
        × (get c j (cas c k expected target s).1 ≡ (
            if key_eq k j
            then (if c.val_eq (get c k s) expected then target else get c k s)
            else get c j s))
  unfolding cas get
  get-cas k j expected target s = (refl, ground (arith, find-set k j target s, key_eq_iff k j))

  kv_neutral : ReadsAreNeutral (kv_store_model c)
  unfolding apply is_mutation apply_call
  kv_neutral s call h = ground arith

  -- A history of a key-value store that `LinCheck` refuses is not linearizable, if no call in it
  -- ended before it began.
  pub lin_check-kv :
      (history : List Call)
      → IsTimed history
      → lin_check (kv_store_model c) history ≡ false
      → ¬ IsLinearizable (kv_store_model c) history
  unfolding decompose
  lin_check-kv = lin_check_complete (kv_store_model c) kv_neutral (λ _. refl)

-- ===== src/Fs/Table.antt =====
-- The maps of the file system: paths to files, in the order of the paths, and open descriptors.
use Prim.Native.String.{String, compare}
use Prim.Native.Nat.{Ordering}
use text.Mathlib.Text.{◌==◌ as str_eq}
use text.Mathlib.TextEquality.{eq_iff}
use whirl_matrix.Base.{
  ℕ, ◌≡◌, refl, Bool, true, false, Option, none, some, List, [], ◌∷◌, arith, ◌==◌, if◌then◌else◌,
}

module _ {V : Type 0} where
  unfoldable pub find : String → List (String × V) → Option V
  find k [] = none
  find k ((j, v) ∷ m) = if str_eq j k then some v else find k m

  unfoldable pub contains : String → List (String × V) → Bool
  unfolding find
  contains k m = elim (find k m) [ none ↦ false | some v ↦ true ]

  -- std::map::insert of a key that is not there.
  unfoldable pub insert : String → V → List (String × V) → List (String × V)
  insert k v [] = (k, v) ∷ []
  insert k v ((j, w) ∷ m) = elim (compare k j) [
    | Ordering.lt ↦ (k, v) ∷ (j, w) ∷ m
    | _ ↦ (j, w) ∷ insert k v m
  ]

  unfoldable pub erase : String → List (String × V) → List (String × V)
  erase k [] = []
  erase k ((j, v) ∷ m) = let rest = erase k m in if str_eq j k then rest else (j, v) ∷ rest

  pub find-insert :
      (k j : String) (v : V) (m : List (String × V))
      → find k m ≡ none
      → find j (insert k v m) ≡ (if str_eq k j then some v else find j m)
  unfolding find insert
  find-insert k j v [] h = refl
  find-insert k j v ((i, w) ∷ m) h =
      ground (arith, find-insert k j v m, eq_iff k j, eq_iff i j, eq_iff i k)

  pub find-erase :
      (k j : String) (m : List (String × V))
      → find j (erase k m) ≡ (if str_eq k j then none else find j m)
  unfolding find erase
  find-erase k j [] = ground arith
  find-erase k j ((i, w) ∷ m) = ground (arith, find-erase k j m, eq_iff i k, eq_iff i j, eq_iff k j)

  unfoldable pub find_fd : ℕ → List (ℕ × V) → Option V
  find_fd k [] = none
  find_fd k ((j, v) ∷ m) = if j == k then some v else find_fd k m

  unfoldable pub erase_fd : ℕ → List (ℕ × V) → List (ℕ × V)
  erase_fd k [] = []
  erase_fd k ((j, v) ∷ m) = let rest = erase_fd k m in if j == k then rest else (j, v) ∷ rest

  unfoldable pub set_fd : ℕ → V → List (ℕ × V) → List (ℕ × V)
  set_fd k v [] = []
  set_fd k v ((j, w) ∷ m) = if j == k then (j, v) ∷ m else (j, w) ∷ set_fd k v m

  pub find_fd-erase_fd :
      (k j : ℕ) (m : List (ℕ × V))
      → find_fd j (erase_fd k m) ≡ (if k == j then none else find_fd j m)
  unfolding find_fd erase_fd
  find_fd-erase_fd k j [] = ground arith
  find_fd-erase_fd k j ((i, w) ∷ m) = ground (arith, find_fd-erase_fd k j m)

  pub find_fd-set_fd :
      (k j : ℕ) (v w : V) (m : List (ℕ × V))
      → find_fd k m ≡ some w
      → find_fd j (set_fd k v m) ≡ (if k == j then some v else find_fd j m)
  unfolding find_fd set_fd
  find_fd-set_fd k j v w [] h = cc
  find_fd-set_fd k j v w ((i, x) ∷ m) h = ground (arith, find_fd-set_fd k j v w m)

  pub set_fd-set_fd :
      (k : ℕ) (v w : V) (m : List (ℕ × V)) → set_fd k v (set_fd k w m) ≡ set_fd k v m
  unfolding set_fd
  set_fd-set_fd k v w [] = refl
  set_fd-set_fd k v w ((i, x) ∷ m) = ground (arith, set_fd-set_fd k v w m)

-- ===== src/Digest.antt =====
-- matrix/helpers/digest.hpp: the digest that two runs of a simulation must share. The hash
-- functions of wheels and of the standard library are parameters.
use Prim.Native.String.{String}
use whirl_matrix.Base.{ℕ, List}

pub record Hashes : Type 0 where
  pub hash_combine : ℕ → ℕ → ℕ
  pub hash_number : ℕ → ℕ
  pub hash_string : String → ℕ
  pub hash_range : ℕ → List ℕ → ℕ

module _ (w : Hashes) where
  -- `digest_`, begun at zero.
  abbrev pub new_digest : ℕ
  new_digest = 0

  unfoldable pub combine : ℕ → ℕ → ℕ
  combine digest hash_value = w.hash_combine digest hash_value

  unfoldable pub eat_number : ℕ → ℕ → ℕ
  unfolding combine
  eat_number digest object = combine digest (w.hash_number object)

  unfoldable pub eat_string : ℕ → String → ℕ
  unfolding combine
  eat_string digest object = combine digest (w.hash_string object)

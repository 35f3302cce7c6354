-- ===== src/PriorityQueue.antt =====
-- matrix/helpers/priority_queue.hpp. `std::priority_queue` is the list of its entries in an order
-- that nothing depends on; `top` and `pop` choose an entry that no other is before.
pub mod Order
pub mod Sorting
pub mod Refinement
pub mod Smallest
use whirl_matrix.Base.{
  ℕ, ◌+◌, Bool, true, false, not, ◌&&◌, ◌||◌, ◌≡◌, ◌⊎◌, Option, none, some, List, [], ◌∷◌, ltb,
  if◌then◌else◌, length,
}

-- `operator<` of the items, with the laws of a strict weak order.
pub record StrictWeak {ℓ} (T : Type ℓ) : Type ℓ where
  pub less : T → T → Bool
  pub asym : (a b : T) → less a b ≡ true → less b a ≡ false
  pub cotrans : (a b c : T) → less a b ≡ true → (less a c ≡ true) ⊎ (less c b ≡ true)

pub record Entry {ℓ} (T : Type ℓ) : Type ℓ where
  pub item : T
  pub tie_braker : ℕ

pub record PriorityQueue {ℓ} (T : Type ℓ) : Type ℓ where
  pub items : List (Entry T)
  pub inserts : ℕ

module _ {ℓ} {T : Type ℓ} where
  unfoldable pub empty : PriorityQueue T
  empty = record { items = []; inserts = 0 }

  unfoldable pub clear : PriorityQueue T → PriorityQueue T
  clear q = record q { items = [] }

  unfoldable pub is_empty : PriorityQueue T → Bool
  is_empty q = elim q.items [ [] ↦ true | x ∷ xs ↦ false ]

  unfoldable pub size : PriorityQueue T → ℕ
  size q = length q.items

  unfoldable pub make_unique : T → ℕ → Entry T
  make_unique value inserts = record { item = value; tie_braker = inserts + 1 }

  unfoldable pub insert : T → PriorityQueue T → PriorityQueue T
  unfolding make_unique
  insert value q = record { items = make_unique value q.inserts ∷ q.items; inserts = q.inserts + 1 }

module _ {ℓ} {T : Type ℓ} ⦃o : StrictWeak T⦄ where
  unfoldable pub equal : T → T → Bool
  equal lhs rhs = not (o.less lhs rhs) && not (o.less rhs lhs)

  unfoldable pub before : Entry T → Entry T → Bool
  unfolding equal
  before this that =
      o.less this.item that.item
      || (equal this.item that.item && ltb this.tie_braker that.tie_braker)

  -- The entry that no other is before, and the rest.
  unfoldable pub take_top : Entry T → List (Entry T) → Entry T × List (Entry T)
  unfolding before
  take_top x [] = (x, [])
  take_top x (y ∷ ys) =
      let (t, rest) = take_top (if before y x then y else x) ys in
      (t, (if before y x then x else y) ∷ rest)

  -- On the empty queue the source is undefined: no value.
  unfoldable pub smallest : PriorityQueue T → Option T
  unfolding take_top
  smallest q = elim q.items [ [] ↦ none | x ∷ xs ↦ some (take_top x xs).0.item ]

  unfoldable pub extract : PriorityQueue T → Option (T × PriorityQueue T)
  unfolding take_top
  extract q = elim q.items [
    | [] ↦ none
    | x ∷ xs ↦ let (t, rest) = take_top x xs in some (t.item, record q { items = rest })
  ]

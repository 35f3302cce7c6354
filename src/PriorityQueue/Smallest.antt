-- ===== src/PriorityQueue/Smallest.antt =====
-- The entry that `take_top` chooses: nothing is less, and no entry is lost.
use mathlib.Core.Path.{subst}
use whirl_matrix.Base.{
  bit, count_where, ◌+◌, ◌≡◌, inl, inr, refl, sym, Bool, true, false, List, [], ◌∷◌, arith, All,
  Bool-cases,
}
use whirl_matrix.PriorityQueue.{StrictWeak, Entry, before, take_top, equal}
use whirl_matrix.PriorityQueue.Sorting.{take_top_earlier, take_top_later}

module _ {ℓ} {T : Type ℓ} ⦃o : StrictWeak T⦄ where
  pub take_top-count :
      (p : Entry T → Bool) (x : Entry T) (xs : List (Entry T))
      → bit (p (take_top x xs).0) + count_where p (take_top x xs).1 ≡ bit (p x) + count_where p xs
  unfolding take_top
  take_top-count p x [] = refl
  take_top-count p x (y ∷ ys) = elim (Bool-cases (before y x)) [
    | inl e ↦ rw (e, take_top) (omega (arith, take_top-count p y ys))
    | inr e ↦ rw (e, take_top) (omega (arith, take_top-count p x ys))
  ]

  less_trans_false : (a b c : T) → o.less a b ≡ false → o.less b c ≡ false → o.less a c ≡ false
  less_trans_false a b c h k = ground (arith, o.cotrans a c b)

  less_irrefl : (a : T) → o.less a a ≡ false
  less_irrefl a = ground (arith, o.asym a a)

  less_of_before : (x y : Entry T) → before x y ≡ true → o.less y.item x.item ≡ false
  unfolding before equal
  less_of_before x y h = ground (arith, o.asym x.item y.item)

  less_of_not_before : (x y : Entry T) → before x y ≡ false → o.less x.item y.item ≡ false
  unfolding before
  less_of_not_before x y h = ground arith

  -- Of `x` and `xs`, no item is less than the chosen one.
  pub take_top-least :
      (x : Entry T) (xs : List (Entry T))
      → All (λ z. o.less z.item (take_top x xs).0.item ≡ false) (x ∷ xs)
  take_top-least x [] = unfold take_top in (less_irrefl x.item, tt)
  take_top-least x (y ∷ ys) = elim (Bool-cases (before y x)) [
    | inl e ↦
        let (least, rest) = take_top-least y ys in
        subst (λ r. All (λ z. o.less z.item r.0.item ≡ false) (x ∷ y ∷ ys))
          (sym (take_top_earlier x y ys e))
          (less_trans_false x.item y.item _ (less_of_before y x e) least, (least, rest))
    | inr e ↦
        let (least, rest) = take_top-least x ys in
        subst (λ r. All (λ z. o.less z.item r.0.item ≡ false) (x ∷ y ∷ ys))
          (sym (take_top_later x y ys e))
          (least, (less_trans_false y.item x.item _ (less_of_not_before y x e) least, rest))
  ]

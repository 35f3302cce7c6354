-- ===== src/TimeModel/Selection.antt =====
-- The random selection draws each of the items at most once.
use mathlib.Core.List.{Perm}
use mathlib.Core.List.Perm
use native.Mathlib.Nat.{mod-lt}
use whirl_matrix.Base.{
  ℕ, zero, suc, ◌+◌, ◌-◌, ◌%◌, ◌≤◌, ◌<◌, ◌≡◌, refl, true, some, List, [], ◌∷◌, ◌++◌, arith, ltb,
  leb, ok, length, get_elem?, get_elem?-lt, set, drop, sym,
}
use whirl_matrix.Semantics.Checker.{swap}
use whirl_matrix.Semantics.Checker.Swap.{swap_lem, length-swap}
use whirl_matrix.TimeModel.{
  Generator, RandomSource, next, number_below, number_between, select_from, global_random_select,
}

module _ {R : Type 0} (g : Generator R) where
  -- A draw from a range that is not empty lies in it.
  pub number_between_lem :
      (lo hi : ℕ) (source : RandomSource R)
      → lo < hi
      → (n : ℕ) × (source' : RandomSource R) × (number_between g lo hi source ≡ ok (n, source'))
        × (lo ≤ n)
        × (n < hi)
  unfolding number_between number_below
  number_between_lem lo hi source h =
      let r = next g source in
      let bounded : r.0 % (hi - lo) < hi - lo = mod-lt r.0 (omega arith) in
      let opens : leb lo hi ≡ true = ground arith in
      let some_left : ltb 0 (hi - lo) ≡ true = ground arith in
      (lo + r.0 % (hi - lo), r.1, rw opens (rw some_left refl), omega arith, omega arith)

module _ {A : Type 0} where
  exchange : (l : List A) (j : ℕ) (x y : A) → get_elem? l j ≡ some y → Perm (y ∷ set l j x) (x ∷ l)
  exchange [] j x y e = cc
  exchange (z ∷ l) zero x y e =
      Perm.trans (Perm.swap x y l) (Perm.cons x (Perm.cons' (ground arith) Perm.rfl))
  exchange (z ∷ l) (suc j) x y e =
      Perm.trans (Perm.swap z y _) (Perm.trans (Perm.cons z (exchange l j x y e)) (Perm.swap x z l))

  drop-sets :
      (l : List A) (i j : ℕ) (x y : A)
      → i ≤ j
      → get_elem? l i ≡ some x
      → get_elem? l j ≡ some y
      → Perm (drop i (set (set l i y) j x)) (drop i l)
  drop-sets [] i j x y h p q = cc
  drop-sets (z ∷ l) zero zero x y h p q = Perm.cons' (ground arith) Perm.rfl
  drop-sets (z ∷ l) zero (suc j) x y h p q =
      Perm.trans (exchange l j x y q) (Perm.cons' (ground arith) Perm.rfl)
  drop-sets (z ∷ l) (suc i) zero x y h p q = absurd (omega arith)
  drop-sets (z ∷ l) (suc i) (suc j) x y h p q = drop-sets l i j x y (omega arith) p q

  drop-swap : (l : List A) (i j : ℕ) → i ≤ j → j < length l → Perm (drop i (swap i j l)) (drop i l)
  drop-swap l i j h k =
      let (x, p) = get_elem?-lt l i (omega arith) in
      let (y, q) = get_elem?-lt l j k in rw (swap_lem l i j x y p q) (drop-sets l i j x y h p q)

  drop-get : (l : List A) (i : ℕ) (x : A) → get_elem? l i ≡ some x → drop i l ≡ x ∷ drop (suc i) l
  drop-get [] i x e = cc
  drop-get (z ∷ l) zero x e = ground arith
  drop-get (z ∷ l) (suc i) x e = drop-get l i x e

module _ {R : Type 0} (g : Generator R) where
  select_from-step :
      {A : Type 0}
      → (k i : ℕ) (items : List A) (source : RandomSource R)
      → (j : ℕ) (source' : RandomSource R) (a : A) (selected : List A) (source'' : RandomSource R)
      → number_between g i (length items) source ≡ ok (j, source')
      → get_elem? (swap i j items) i ≡ some a
      → select_from g k (suc i) (swap i j items) source' ≡ ok (selected, source'')
      → select_from g (suc k) i items source ≡ ok (a ∷ selected, source'')
  unfolding select_from
  select_from-step k i items source j source' a selected source'' drawn at_i runs =
      ground (arith, drawn, at_i, runs)

  select_from-perm :
      {A : Type 0}
      → (k i : ℕ) (items : List A) (source : RandomSource R) → i + k ≤ length items
      → (selected rest : List A) × (source' : RandomSource R) × (select_from g k i items source
          ≡ ok (selected, source'))
        × (length selected ≡ k)
        × Perm (selected ++ rest) (drop i items)
  unfolding select_from
  select_from-perm zero i items source h = ([], drop i items, source, refl, refl, Perm.rfl)
  select_from-perm (suc k) i items source h =
      let (j, source', drawn, lo, hi) =
        number_between_lem g i (length items) source (omega arith) in
      let same : length (swap i j items) ≡ length items = length-swap i j items in
      let (a, at_i) = get_elem?-lt (swap i j items) i (omega arith) in
      let (selected, rest, source'', runs, long, perm) =
        select_from-perm k (suc i) (swap i j items) source' (omega arith) in
      (
        a ∷ selected,
        rest,
        source'',
        select_from-step k i items source j source' a selected source'' drawn at_i runs,
        omega arith,
        Perm.trans (Perm.cons a perm)
            (rw (sym (drop-get (swap i j items) i a at_i)) (drop-swap items i j lo hi)),
      )

  -- A selection of `k` of at least `k` items does not fail, has `k` elements, and these are, in some
  -- order and with some rest, the items: no item is drawn twice.
  pub global_random_select_lem :
      {A : Type 0}
      → (items : List A) (k : ℕ) (source : RandomSource R) → k ≤ length items
      → (selected rest : List A) × (source' : RandomSource R) × (global_random_select g items k
            source
          ≡ ok (selected, source'))
        × (length selected ≡ k)
        × Perm (selected ++ rest) items
  unfolding global_random_select
  global_random_select_lem items k source h =
      let enough : leb k (length items) ≡ true = ground arith in
      rw enough (select_from-perm k 0 items source (omega arith))

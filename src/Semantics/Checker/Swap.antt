-- ===== src/Semantics/Checker/Swap.antt =====
-- What moving a call behind the calls that are left does to the array.
use mathlib.Core.List.{Perm}
use mathlib.Core.List.Perm
use whirl_matrix.Base.{
  ℕ, zero, suc, ◌≤◌, ◌<◌, ◌≡◌, refl, ap, ◌∙◌, inl, inr, some, Option-cases, List, [], ◌∷◌, ◌++◌,
  arith, ◌==◌, if◌then◌else◌, length, length-set, get_elem?, get_elem?-set, get_elem?-lt, set, take,
}
use whirl_matrix.Semantics.Checker.{swap, pop_back}

module _ {A : Type 0} where
  get_elem?-ext : (l r : List A) → ((i : ℕ) → get_elem? l i ≡ get_elem? r i) → l ≡ r
  get_elem?-ext [] [] h = refl
  get_elem?-ext [] (y ∷ r) h = cc (h 0)
  get_elem?-ext (x ∷ l) [] h = cc (h 0)
  get_elem?-ext (x ∷ l) (y ∷ r) h = cc (h 0, get_elem?-ext l r (λ i. h (suc i)))

  pub swap_lem :
      (l : List A) (i j : ℕ) (x y : A)
      → get_elem? l i ≡ some x
      → get_elem? l j ≡ some y
      → swap i j l ≡ set (set l i y) j x
  unfolding swap
  swap_lem l i j x y p q = rw (p, swap) (rw (q, swap))

  pub length-swap : (i j : ℕ) (l : List A) → length (swap i j l) ≡ length l
  unfolding swap
  length-swap i j l = elim (Option-cases (get_elem? l i)) [
    | inl p ↦ rw (p, swap) refl
    | inr (x, p) ↦
        rw (p, swap)
          (elim (Option-cases (get_elem? l j)) [
            | inl q ↦ rw (q, swap) refl
            | inr (y, q) ↦ rw (q, swap) (length-set (set l i y) j x ∙ length-set l i y)
          ])
  ]

  get_elem?-swap_sets :
      (l : List A) (i j k : ℕ) (x y : A)
      → i < length l
      → j < length l
      → get_elem? (set (set l i y) j x) k
        ≡ (if j == k then some x else if i == k then some y else get_elem? l k)
  get_elem?-swap_sets l i j k x y hi hj = ground (
    arith,
    length-set l i y,
    get_elem?-set (set l i y) j k x (rw (length-set l i y) hj),
    get_elem?-set l i k y hi,
  )

  swap_back :
      (l : List A) (i j : ℕ) (x y : A)
      → i < length l
      → j < length l
      → get_elem? l i ≡ some x
      → get_elem? l j ≡ some y
      → swap i j (set (set l i y) j x) ≡ l
  swap_back l i j x y hi hj p q =
      let l' = set (set l i y) j x in
      let e : length l' ≡ length l = length-set (set l i y) j x ∙ length-set l i y in
      rw
        (swap_lem l' i j y x (ground (arith, get_elem?-swap_sets l i j i x y hi hj))
          (ground (arith, get_elem?-swap_sets l i j j x y hi hj)))
        (get_elem?-ext _ l λ k. ground (
          arith,
          get_elem?-swap_sets l' i j k y x (omega arith) (omega arith),
          get_elem?-swap_sets l i j k x y hi hj,
          ap (get_elem? l) {x = i} {y = k},
          ap (get_elem? l) {x = j} {y = k},
        ))

  -- Putting the call back restores the array.
  pub swap-swap : (l : List A) (i j : ℕ) → i < length l → j < length l → swap i j (swap i j l) ≡ l
  swap-swap l i j hi hj =
      let (x, p) = get_elem?-lt l i hi in
      let (y, q) = get_elem?-lt l j hj in
      rw (swap_lem l i j x y p q) (swap_back l i j x y hi hj p q)

  pub pop_back-append : (l : List A) (x : A) → pop_back (l ++ x ∷ []) ≡ l
  unfolding pop_back
  pop_back-append [] x = refl
  pop_back-append (y ∷ []) x = refl
  pop_back-append (y ∷ z ∷ l) x = ap (◌∷◌ y) (pop_back-append (z ∷ l) x)

  take_suc-perm :
      (l : List A) (m : ℕ) (y : A) → get_elem? l m ≡ some y → Perm (take (suc m) l) (y ∷ take m l)
  take_suc-perm [] m y e = cc
  take_suc-perm (x ∷ l) zero y e = Perm.cons' (ground arith) Perm.rfl
  take_suc-perm (x ∷ l) (suc m) y e =
      Perm.trans (Perm.cons x (take_suc-perm l m y e)) (Perm.swap y x (take m l))

  pick-perm :
      (l : List A) (i m : ℕ) (x y : A)
      → i ≤ m
      → get_elem? l i ≡ some x
      → get_elem? l m ≡ some y
      → Perm (take (suc m) l) (x ∷ take m (set l i y))
  pick-perm [] i m x y h p q = cc
  pick-perm (z ∷ l) zero zero x y h p q = Perm.cons' (ground arith) Perm.rfl
  pick-perm (z ∷ l) zero (suc m) x y h p q = Perm.cons' (ground arith) (take_suc-perm l m y q)
  pick-perm (z ∷ l) (suc i) zero x y h p q = absurd (omega arith)
  pick-perm (z ∷ l) (suc i) (suc m) x y h p q =
      Perm.trans (Perm.cons z (pick-perm l i m x y (omega arith) p q)) (Perm.swap x z _)

  take-set : (l : List A) (m : ℕ) (x : A) → take m (set l m x) ≡ take m l
  take-set [] m x = refl
  take-set (z ∷ l) zero x = refl
  take-set (z ∷ l) (suc m) x = ap (◌∷◌ z) (take-set l m x)

  -- The calls that are left are the one that is moved and those that are left after it.
  pub swap-perm :
      (l : List A) (i m : ℕ) (x : A)
      → i ≤ m
      → m < length l
      → get_elem? l i ≡ some x
      → Perm (take (suc m) l) (x ∷ take m (swap i m l))
  swap-perm l i m x h k p =
      let (y, q) = get_elem?-lt l m k in
      rw (swap_lem l i m x y p q, take-set (set l i y) m x) (pick-perm l i m x y h p q)

-- ===== src/PriorityQueue/Sorting.antt =====
-- The entries in the order in which they leave the queue.
use whirl_matrix.Base.{
  ◌≡◌, ◌≢◌, ◌⊎◌, inl, inr, refl, sym, ap, ◌∙◌, true, false, List, [], ◌∷◌, arith, All, Bool-cases,
  if◌then◌else◌,
}
use whirl_matrix.PriorityQueue.{StrictWeak, Entry, before, take_top}
use whirl_matrix.PriorityQueue.Order.{before_asym, before_total, before_trans}

-- No two entries have one tie breaker.
abbrev pub Distinct {ℓ} : {T : Type ℓ} → List (Entry T) → Type 0
Distinct [] = Unit
Distinct (x ∷ xs) = All (λ y. x.tie_braker ≢ y.tie_braker) xs × Distinct xs

module _ {ℓ} {T : Type ℓ} ⦃o : StrictWeak T⦄ where
  unfoldable pub place : Entry T → List (Entry T) → List (Entry T)
  place x [] = x ∷ []
  place x (y ∷ l) = if before y x then y ∷ place x l else x ∷ y ∷ l

  unfoldable pub sort : List (Entry T) → List (Entry T)
  unfolding place
  sort [] = []
  sort (x ∷ xs) = place x (sort xs)

  pub place-All {κ} :
      (P : Entry T → Type κ) (x : Entry T) (l : List (Entry T)) → P x → All P l → All P (place x l)
  unfolding place
  place-All P x [] p h = (p, tt)
  place-All P x (y ∷ l) p h = elim (Bool-cases (before y x)) [
    | inl e ↦ rw e (h.0, place-All P x l p h.1)
    | inr e ↦ rw e (p, h)
  ]

  pub sort-All {κ} : (P : Entry T → Type κ) (l : List (Entry T)) → All P l → All P (sort l)
  unfolding sort
  sort-All P [] h = tt
  sort-All P (x ∷ l) h = place-All P x (sort l) h.0 (sort-All P l h.1)

  place_comm :
      (x y : Entry T) (l : List (Entry T))
      → x.tie_braker ≢ y.tie_braker
      → place x (place y l) ≡ place y (place x l)
  unfolding place
  place_comm x y [] d = ground (arith, before_asym x y, before_total x y, before_total y x)
  place_comm x y (z ∷ l) d = ground (
    arith,
    place_comm x y l d,
    before_asym x y,
    before_asym y x,
    before_total x y,
    before_total y x,
    before_trans z y x,
    before_trans z x y,
  )

  pub take_top-All {κ} :
      (P : Entry T → Type κ) (x : Entry T) (xs : List (Entry T))
      → P x
      → All P xs
      → P (take_top x xs).0 × All P (take_top x xs).1
  unfolding take_top
  take_top-All P x [] p h = (p, tt)
  take_top-All P x (y ∷ ys) p h = elim (Bool-cases (before y x)) [
    | inl e ↦ let (t, r) = take_top-All P y ys h.0 h.1 in rw (e, take_top) (t, (p, r))
    | inr e ↦ let (t, r) = take_top-All P x ys p h.1 in rw (e, take_top) (t, (h.0, r))
  ]

  before_of_first :
      {y t : Entry T} (x : Entry T)
      → (y ≡ t) ⊎ (before t y ≡ true)
      → before y x ≡ true
      → before t x ≡ true
  before_of_first x (inl p) e = rw p at e
  before_of_first {y} {t} x (inr p) e = before_trans t y x p e

  -- The entry taken is the one that `place` puts in front.
  pub top_first :
      (x : Entry T) (xs : List (Entry T))
      → Distinct (x ∷ xs)
      → (x ≡ (take_top x xs).0) ⊎ (before (take_top x xs).0 x ≡ true)
  unfolding take_top
  top_first x [] d = inl refl
  top_first x (y ∷ ys) d = elim (Bool-cases (before y x)) [
    | inl e ↦ rw (e, take_top) (inr (before_of_first x (top_first y ys d.1) e))
    | inr e ↦ rw (e, take_top) (top_first x ys (d.0.1, d.1.1))
  ]

  place_front :
      (t x : Entry T) (l : List (Entry T)) → before t x ≡ true → place x (t ∷ l) ≡ t ∷ place x l
  unfolding place
  place_front t x l h = rw h

  pub sort-take_top :
      (x : Entry T) (xs : List (Entry T))
      → Distinct (x ∷ xs)
      → sort (x ∷ xs) ≡ (take_top x xs).0 ∷ sort (take_top x xs).1
  unfolding take_top sort
  sort-take_top x [] d = unfold place in refl
  sort-take_top x (y ∷ ys) d = elim (Bool-cases (before y x)) [
    | inl e ↦
        rw (e, take_top)
          (ap (place x) (sort-take_top y ys d.1)
            ∙ place_front _ x _ (before_of_first x (top_first y ys d.1) e))
    | inr e ↦
        let d' : Distinct (x ∷ ys) = (d.0.1, d.1.1) in
        rw (e, take_top)
          (place_comm x y (sort ys) d.0.0
            ∙ ap (place y) (sort-take_top x ys d')
            ∙ place_front _ y _ (before_of_first y (top_first x ys d') (before_total x y d.0.0 e)))
  ]

  pub take_top_earlier :
      (x y : Entry T) (ys : List (Entry T))
      → before y x ≡ true
      → take_top x (y ∷ ys) ≡ ((take_top y ys).0, x ∷ (take_top y ys).1)
  unfolding take_top
  take_top_earlier x y ys e = rw (e, take_top)

  pub take_top_later :
      (x y : Entry T) (ys : List (Entry T))
      → before y x ≡ false
      → take_top x (y ∷ ys) ≡ ((take_top x ys).0, y ∷ (take_top x ys).1)
  unfolding take_top
  take_top_later x y ys e = rw (e, take_top)

  pub take_top-Distinct :
      (x : Entry T) (xs : List (Entry T))
      → Distinct (x ∷ xs)
      → Distinct ((take_top x xs).0 ∷ (take_top x xs).1)
  take_top-Distinct x [] d = unfold take_top in d
  take_top-Distinct x (y ∷ ys) d = elim (Bool-cases (before y x)) [
    | inl e ↦
        let (apart, rest) = take_top-Distinct y ys d.1 in
        let (top, others) = take_top-All (λ z. x.tie_braker ≢ z.tie_braker) y ys d.0.0 d.0.1 in
        rw (take_top_earlier x y ys e) ((λ q. top (sym q), apart), (others, rest))
    | inr e ↦
        let (apart, rest) = take_top-Distinct x ys (d.0.1, d.1.1) in
        let (top, others) =
          take_top-All (λ z. y.tie_braker ≢ z.tie_braker) x ys (λ q. d.0.0 (sym q)) d.1.0 in
        rw (take_top_later x y ys e) ((λ q. top (sym q), apart), (others, rest))
  ]

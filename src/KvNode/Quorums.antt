-- ===== src/KvNode/Quorums.antt =====
-- Any two majorities of the nodes have a node in common.
use whirl_matrix.Base.{
  bit, ℕ, zero, suc, ◌+◌, ◌≤◌, ◌<◌, ==_iff, ◌≡◌, inl, inr, refl, Bool, true, false, ◌||◌, ◌&&◌,
  List, [], ◌∷◌, arith, All, Bool-cases, if◌then◌else◌, length, ◌==◌,
}
use whirl_matrix.KvNode.{majority}

abbrev pub elem : ℕ → List ℕ → Bool
elem i [] = false
elem i (x ∷ xs) = (x == i) || elem i xs

-- No node twice.
abbrev pub Apart : List ℕ → Type 0
Apart [] = Unit
Apart (x ∷ xs) = (elem x xs ≡ false) × Apart xs

abbrev pub Below : ℕ → List ℕ → Type 0
Below n = All λ i. i < n

remove : ℕ → List ℕ → List ℕ
remove i [] = []
remove i (x ∷ xs) = let rest = remove i xs in if x == i then rest else x ∷ rest

elem-remove : (i j : ℕ) (l : List ℕ) → elem j (remove i l) ≡ (if j == i then false else elem j l)
unfolding remove
elem-remove i j [] = ground arith
elem-remove i j (x ∷ l) = ground (arith, elem-remove i j l)

remove-Apart : (i : ℕ) (l : List ℕ) → Apart l → Apart (remove i l)
unfolding remove
remove-Apart i [] h = tt
remove-Apart i (x ∷ l) (h, k) = elim (Bool-cases (x == i)) [
  | inl e ↦ rw e (remove-Apart i l k)
  | inr e ↦ rw e (ground (arith, elem-remove i x l), remove-Apart i l k)
]

remove-Below : (n : ℕ) (l : List ℕ) → Below (suc n) l → Below n (remove n l)
unfolding remove
remove-Below n [] h = tt
remove-Below n (x ∷ l) (h, k) = elim (Bool-cases (x == n)) [
  | inl e ↦ rw e (remove-Below n l k)
  | inr e ↦ rw e (ground arith, remove-Below n l k)
]

remove-absent : (i : ℕ) (l : List ℕ) → elem i l ≡ false → length (remove i l) ≡ length l
unfolding remove
remove-absent i [] h = refl
remove-absent i (x ∷ l) h = ground (arith, remove-absent i l)

length-remove : (i : ℕ) (l : List ℕ) → Apart l → length l ≤ length (remove i l) + bit (elem i l)
unfolding remove
length-remove i [] h = omega arith
length-remove i (x ∷ l) (h, k) = elim (Bool-cases (x == i)) [
  | inl e ↦
      let gone : elem i l ≡ false = ground (arith, ==_iff x i) in
      rw e (omega (arith, remove-absent i l gone))
  | inr e ↦ rw e (omega (arith, length-remove i l k))
]

in_both :
    (n : ℕ) (a b : List ℕ)
    → Apart a
    → Apart b
    → Below n a
    → Below n b
    → n < length a + length b
    → (i : ℕ) × (elem i a ≡ true) × (elem i b ≡ true)
in_both zero [] [] pa pb ba bb h = absurd (omega arith)
in_both zero [] (y ∷ b) pa pb ba bb h = absurd (omega arith)
in_both zero (x ∷ a) b pa pb ba bb h = absurd (omega arith)
in_both (suc n) a b pa pb ba bb h = elim (Bool-cases (elem n a && elem n b)) [
  | inl e ↦ (n, ground arith, ground arith)
  | inr e ↦
      let fewer : bit (elem n a) + bit (elem n b) ≤ 1 = ground arith in
      let (i, ia, ib) =
        in_both n (remove n a) (remove n b) (remove-Apart n a pa) (remove-Apart n b pb)
          (remove-Below n a ba) (remove-Below n b bb)
          (omega (arith, length-remove n a pa, length-remove n b pb)) in
      (i, ground (arith, elem-remove n i a), ground (arith, elem-remove n i b))
]

-- Two sets of nodes, each as large as a majority, have a node in common.
pub majorities_meet :
    (n : ℕ) (a b : List ℕ)
    → Apart a
    → Apart b
    → Below n a
    → Below n b
    → majority n ≤ length a
    → majority n ≤ length b
    → (i : ℕ) × (elem i a ≡ true) × (elem i b ≡ true)
unfolding majority
majorities_meet n a b pa pb ba bb ha hb = in_both n a b pa pb ba bb (omega arith)

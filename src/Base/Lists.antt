-- ===== src/Base/Lists.antt =====
-- Lists measured and indexed by native numbers, under the library's names.
use Prim.Native.Nat.{ℕ, zero, suc, ◌+◌, ◌-◌, ◌≤◌, ◌<◌, min}
use mathlib.Core.Path.{◌≡◌, refl, ap, sym, subst}
use mathlib.Core.List.{List, [], ◌∷◌, ◌++◌, Mem, mem-cons, not-mem-nil}
use mathlib.Core.Logic.Or
use mathlib.Core.Option.{Option, none, some}
use native.Mathlib.Omega.{arith}
use whirl_matrix.Base.Tests.{◌==◌, if◌then◌else◌}

module _ {ℓ} {A : Type ℓ} where
  abbrev pub length : List A → ℕ
  length [] = 0
  length (x ∷ xs) = suc (length xs)

  abbrev pub get_elem? : List A → ℕ → Option A
  get_elem? [] i = none
  get_elem? (x ∷ xs) zero = some x
  get_elem? (x ∷ xs) (suc i) = get_elem? xs i

  -- A write out of bounds changes nothing.
  abbrev pub set : List A → ℕ → A → List A
  set [] i v = []
  set (x ∷ xs) zero v = v ∷ xs
  set (x ∷ xs) (suc i) v = x ∷ set xs i v

  abbrev pub take : ℕ → List A → List A
  take zero xs = []
  take (suc n) [] = []
  take (suc n) (x ∷ xs) = x ∷ take n xs

  abbrev pub drop : ℕ → List A → List A
  drop zero xs = xs
  drop (suc n) [] = []
  drop (suc n) (x ∷ xs) = drop n xs

  abbrev pub replicate : ℕ → A → List A
  replicate zero a = []
  replicate (suc n) a = a ∷ replicate n a

  pub length-append : (xs ys : List A) → length (xs ++ ys) ≡ length xs + length ys
  length-append [] ys = omega arith
  length-append (x ∷ xs) ys = omega (arith, length-append xs ys)

  pub length-set : (xs : List A) (i : ℕ) (v : A) → length (set xs i v) ≡ length xs
  length-set [] i v = refl
  length-set (x ∷ xs) zero v = refl
  length-set (x ∷ xs) (suc i) v = ap suc (length-set xs i v)

  pub length-take : (n : ℕ) (xs : List A) → length (take n xs) ≡ min n (length xs)
  length-take zero xs = omega arith
  length-take (suc n) [] = omega arith
  length-take (suc n) (x ∷ xs) = omega (arith, length-take n xs)

  pub length-drop : (n : ℕ) (xs : List A) → length (drop n xs) ≡ length xs - n
  length-drop zero xs = omega arith
  length-drop (suc n) [] = omega arith
  length-drop (suc n) (x ∷ xs) = omega (arith, length-drop n xs)

  pub length-replicate : (n : ℕ) (a : A) → length (replicate n a) ≡ n
  length-replicate zero a = refl
  length-replicate (suc n) a = ap suc (length-replicate n a)

  pub take-append-drop : (n : ℕ) (xs : List A) → take n xs ++ drop n xs ≡ xs
  take-append-drop zero xs = refl
  take-append-drop (suc n) [] = refl
  take-append-drop (suc n) (x ∷ xs) = ap (◌∷◌ x) (take-append-drop n xs)

  pub take_all : (n : ℕ) (xs : List A) → length xs ≤ n → take n xs ≡ xs
  take_all zero [] h = refl
  take_all zero (x ∷ xs) h = absurd (omega arith)
  take_all (suc n) [] h = refl
  take_all (suc n) (x ∷ xs) h = ap (◌∷◌ x) (take_all n xs (omega arith))

  -- Every element satisfies `P`; this computes to a tuple.
  abbrev pub All {κ} : (A → Type κ) → List A → Type κ
  All P [] = Unit
  All P (x ∷ xs) = P x × All P xs

  pub All-append {κ} : (P : A → Type κ) (l r : List A) → All P l → All P r → All P (l ++ r)
  All-append P [] r hl hr = hr
  All-append P (x ∷ l) r hl hr = (hl.0, All-append P l r hl.1 hr)

  pub All-map {κ μ} :
      (P : A → Type κ) (Q : A → Type μ) (l : List A) → ((a : A) → P a → Q a) → All P l → All Q l
  All-map P Q [] f h = tt
  All-map P Q (x ∷ l) f h = (f x h.0, All-map P Q l f h.1)

  pub All-mem {κ} :
      (P : A → Type κ) → ((a : A) → IsProp (P a)) → (l : List A) → All P l → {a : A} → Mem a l → P a
  All-mem P p [] h k = absurd (not-mem-nil k)
  All-mem P p (x ∷ l) h {a} k =
      Or.elim (p a) (mem-cons.0 k) (λ e. subst P (sym e) h.0) (All-mem P p l h.1)

module _ {ℓ} {A : Type ℓ} where
  pub get_elem?-set :
      (l : List A) (i j : ℕ) (v : A)
      → i < length l
      → get_elem? (set l i v) j ≡ (if i == j then some v else get_elem? l j)
  get_elem?-set [] i j v h = absurd (omega arith)
  get_elem?-set (x ∷ l) zero zero v h = refl
  get_elem?-set (x ∷ l) zero (suc j) v h = ground arith
  get_elem?-set (x ∷ l) (suc i) zero v h = ground arith
  get_elem?-set (x ∷ l) (suc i) (suc j) v h = ground (arith, get_elem?-set l i j v)

  pub get_elem?-lt : (l : List A) (i : ℕ) → i < length l → (a : A) × (get_elem? l i ≡ some a)
  get_elem?-lt [] i h = absurd (omega arith)
  get_elem?-lt (x ∷ l) zero h = (x, refl)
  get_elem?-lt (x ∷ l) (suc i) h = get_elem?-lt l i (omega arith)

  pub get_elem?-append :
      (l : List A) (x : A) (i : ℕ)
      → get_elem? (l ++ x ∷ []) i ≡ (if i == length l then some x else get_elem? l i)
  get_elem?-append [] x zero = refl
  get_elem?-append [] x (suc i) = ground arith
  get_elem?-append (y ∷ l) x zero = ground arith
  get_elem?-append (y ∷ l) x (suc i) = ground (arith, get_elem?-append l x i)

  pub lt_of_get_elem? : (l : List A) (i : ℕ) (x : A) → get_elem? l i ≡ some x → i < length l
  lt_of_get_elem? [] i x h = cc
  lt_of_get_elem? (y ∷ l) zero x h = omega arith
  lt_of_get_elem? (y ∷ l) (suc i) x h = omega (arith, lt_of_get_elem? l i x h)

  pub All-set {κ} :
      (P : A → Type κ) (l : List A) (i : ℕ) (v : A) → All P l → P v → All P (set l i v)
  All-set P [] i v h k = tt
  All-set P (x ∷ l) zero v h k = (k, h.1)
  All-set P (x ∷ l) (suc i) v h k = (h.0, All-set P l i v h.1 k)

  pub All-get_elem? {κ} :
      (P : A → Type κ) (l : List A) (i : ℕ) (a : A) → All P l → get_elem? l i ≡ some a → P a
  All-get_elem? P [] i a h e = cc
  All-get_elem? P (x ∷ l) zero a h e = let same : x ≡ a = cc in subst P same h.0
  All-get_elem? P (x ∷ l) (suc i) a h e = All-get_elem? P l i a h.1 e

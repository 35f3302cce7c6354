-- ===== src/Base/Counts.antt =====
-- How many elements of a list pass a test.
use Prim.Native.Nat.{ℕ, ◌+◌}
use mathlib.Core.Path.{◌≡◌, refl}
use mathlib.Core.Bool.{Bool, true, false}
use mathlib.Core.List.{List, [], ◌∷◌, ◌++◌, map}
use native.Mathlib.Omega.{arith}

abbrev pub bit : Bool → ℕ
bit true = 1
bit false = 0

abbrev pub count_where {ℓ} : {A : Type ℓ} → (A → Bool) → List A → ℕ
count_where p [] = 0
count_where p (x ∷ xs) = bit (p x) + count_where p xs

pub count-append {ℓ} :
    {A : Type ℓ}
    → (p : A → Bool) (l r : List A) → count_where p (l ++ r) ≡ count_where p l + count_where p r
count-append p [] r = omega arith
count-append p (x ∷ l) r = omega (arith, count-append p l r)

pub count-map {ℓ κ} :
    {A : Type ℓ} {B : Type κ}
    → (p : B → Bool) (f : A → B) (l : List A)
    → count_where p (map f l) ≡ count_where (λ a. p (f a)) l
count-map p f [] = refl
count-map p f (x ∷ l) = omega (arith, count-map p f l)

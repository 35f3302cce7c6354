-- ===== src/Base/Verify.antt =====
-- What a call gives: a value, or the end of the process by a failed WHEELS_VERIFY, WHEELS_PANIC or
-- the like.
use mathlib.Core.Path.{◌≡◌, refl, subst}
use mathlib.Core.Logic.{◌⊎◌, inl, inr}
use mathlib.Core.Bool.{Bool, true, false}
use mathlib.Core.Option.{Option, none, some}

pub data Outcome {ℓ} (A : Type ℓ) : Type ℓ where
  ok : A → Outcome A
  panic : Outcome A

infixl 5 ◌>>=◌ ◌>>◌
abbrev pub ◌>>=◌ {ℓ κ} : {A : Type ℓ} {B : Type κ} → Outcome A → (A → Outcome B) → Outcome B
ok a >>= f = f a
panic >>= f = panic

abbrev pub ◌>>◌ {ℓ} : {B : Type ℓ} → Outcome (Unit {0}) → Outcome B → Outcome B
m >> k = m >>= λ _. k

-- WHEELS_VERIFY
abbrev pub verify : Bool → Outcome (Unit {0})
verify true = ok tt
verify false = panic

pub Outcome-cases {ℓ} : {A : Type ℓ} (r : Outcome A) → (r ≡ panic) ⊎ ((a : A) × (r ≡ ok a))
Outcome-cases (ok a) = inr (a, refl)
Outcome-cases panic = inl refl

-- Of a result, if there is one.
abbrev pub Ensures : {A : Type 0} → (A → Type 0) → Outcome A → Type 0
Ensures P (ok a) = P a
Ensures P panic = Unit

pub ensured : {A : Type 0} (P : A → Type 0) (r : Outcome A) (a : A) → Ensures P r → r ≡ ok a → P a
ensured {A} P (ok b) a h e = subst (λ (x : Outcome A). Ensures P x) e h
ensured {A} P panic a h e = cc

-- What a first part ensures is what the second may use.
pub >>=-Ensures :
    {A B : Type 0} (Q : A → Type 0) (P : B → Type 0) (m : Outcome A) (f : A → Outcome B)
    → Ensures Q m
    → ((a : A) → Q a → Ensures P (f a))
    → Ensures P (m >>= f)
>>=-Ensures Q P (ok a) f h k = k a h
>>=-Ensures Q P panic f h k = tt

pub bind-Ensures :
    {A B : Type 0} (P : B → Type 0) (m : Outcome A) (f : A → Outcome B)
    → ((a : A) → Ensures P (f a))
    → Ensures P (m >>= f)
bind-Ensures P (ok a) f k = k a
bind-Ensures P panic f k = tt

pub Option-Ensures :
    {A B : Type 0} (P : B → Type 0) (o : Option A) (x : Outcome B) (f : A → Outcome B)
    → Ensures P x
    → ((a : A) → o ≡ some a → Ensures P (f a))
    → Ensures P (elim o [ none ↦ x | some a ↦ f a ])
Option-Ensures P none x f h k = h
Option-Ensures P (some a) x f h k = k a refl

pub Bool-Ensures :
    {B : Type 0} (P : B → Type 0) (b : Bool) (x y : Outcome B)
    → Ensures P x
    → Ensures P y
    → Ensures P (elim b [ true ↦ x | false ↦ y ])
Bool-Ensures P true x y h k = h
Bool-Ensures P false x y h k = k

pub both-Ensures :
    {A : Type 0} (P Q : A → Type 0) (m : Outcome A)
    → Ensures P m
    → Ensures Q m
    → Ensures (λ a. P a × Q a) m
both-Ensures P Q (ok a) h k = (h, k)
both-Ensures P Q panic h k = tt

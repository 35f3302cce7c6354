-- ===== src/Semantics/Checker/Tried.antt =====
-- What a part of the search returns: whether the thing that it looks for is there, and the checker
-- as it was but for the counter of searches.
use mathlib.Core.List.{Mem}
use mathlib.Core.Path.{subst}
use whirl_matrix.Base.{
  ℕ, ◌≤◌, ◌≡◌, refl, sym, ◌⊎◌, inl, inr, Bool, true, false, List, arith, if◌then◌else◌, take,
}
use whirl_matrix.Semantics.{Call, precedes_in_real_time}
use whirl_matrix.Semantics.Checker.{Checker}

-- The calls that are not placed yet.
abbrev pub left : Checker → List Call
left k = take k.count k.calls

-- No call ended before it began.
abbrev pub IsTimed : List Call → Type 0
IsTimed l = (c : Call) → Mem c l → precedes_in_real_time c c ≡ false

abbrev pub at_time : Checker → ℕ → Checker
at_time k t = record k { time = t }

-- `true` means `P`, unless the limit on searches was met; `false` means that `P` is false.
pub record Tried (P : Type 0) (k : Checker) (r : Bool × Checker) : Type 0 where
  pub restored : r.1 ≡ at_time k r.1.time
  pub later : k.time ≤ r.1.time
  pub if_true : r.0 ≡ true → r.1.time ≤ k.time_limit → P
  pub if_false : r.0 ≡ false → IsTimed (left k) → ¬ P

module _ {P Q : Type 0} {k : Checker} where
  pub Tried-map :
      {r : Bool × Checker} → (P → Q) → (IsTimed (left k) → Q → ¬ ¬ P) → Tried P k r → Tried Q k r
  Tried-map f g h = record {
    restored = h.restored;
    later = h.later;
    if_true = λ e t. f (h.if_true e t);
    if_false = λ e t q. g t q (h.if_false e t);
  }

  pub or_else :
      (r : Bool × Checker) (f : Checker → Bool × Checker)
      → Tried P k r
      → ((t : ℕ) → k.time ≤ t → Tried Q (at_time k t) (f (at_time k t)))
      → Tried (P ⊎ Q) k (if r.0 then (true, r.1) else f r.1)
  or_else (true, k') f h g = record {
    restored = h.restored;
    later = h.later;
    if_true = λ e t. inl (h.if_true e t);
    if_false = λ e. cc;
  }
  or_else (false, k') f h g =
      let next = g k'.time h.later in
      subst (λ (x : Checker). Tried (P ⊎ Q) k (f x)) (sym h.restored)
        (record {
          restored = next.restored;
          later = omega (arith, next.later);
          if_true = λ e t. inr (next.if_true e t);
          if_false = λ e t s. elim s [ inl p ↦ h.if_false refl t p | inr q ↦ next.if_false e t q ];
        })

pub Tried-none : {P : Type 0} (k : Checker) → (IsTimed (left k) → ¬ P) → Tried P k (false, k)
Tried-none k h = record {
  restored = refl;
  later = omega arith;
  if_true = λ e t. cc;
  if_false = λ e t. h t;
}

-- A later start of the clock.
pub Tried-earlier :
    {P : Type 0} {k : Checker} (t : ℕ) {r : Bool × Checker}
    → k.time ≤ t
    → Tried P (at_time k t) r
    → Tried P k r
Tried-earlier t h a = record {
  restored = a.restored;
  later = omega (arith, a.later);
  if_true = a.if_true;
  if_false = a.if_false;
}

-- ===== src/Semantics/Checker/Verdict.antt =====
-- The checker's answer: sound within the limit on searches, and complete.
use mathlib.Core.HLevel.{⊥_prop}
use mathlib.Core.Logic.{∥∥₁_elim}
use mathlib.Core.List.{Memᴰ, mem-cons_self}
use mathlib.Core.List.Perm
use mathlib.Core.List.Memᴰ
use mathlib.Core.Path.{subst}
use whirl_matrix.Base.{
  ℕ, zero, suc, ◌+◌, ◌≤◌, ◌<◌, ◌≡◌, refl, sym, ap, length-take, true, false, Bool-cases, inl, inr,
  some, List, [], ◌∷◌, arith, ltb, ◌==◌, length, get_elem?, take, take_all,
}
use whirl_matrix.Semantics.{Call, Model}
use whirl_matrix.Semantics.Linearization.{Linearization, IsLinearizable}
use whirl_matrix.Semantics.Linearization.Steps.{
  Linearization-nil, Linearization-perm, Linearization-cons, FirstStep-perm, Begins,
  Begins-of_Linearization,
}
use whirl_matrix.Semantics.Checker.{Checker, search, make_checker, check, lin_check_brute}
use whirl_matrix.Semantics.Checker.Tried.{left, IsTimed, at_time, Tried, Tried-map, Tried-earlier}
use whirl_matrix.Semantics.Checker.Depth.{IsRight, StartsWithin, scan-Tried, left-perm}

index_of_mem :
    {c : Call} (n : ℕ) (l : List Call)
    → Memᴰ c (take n l)
    → (j : ℕ) × (j < n) × (get_elem? l j ≡ some c)
index_of_mem zero l h = absurd (Memᴰ.not-nil h)
index_of_mem (suc n) [] h = absurd (Memᴰ.not-nil h)
index_of_mem (suc n) (x ∷ l) (Memᴰ.head e) = (0, omega arith, ground arith)
index_of_mem (suc n) (x ∷ l) (Memᴰ.tail h) =
    let (j, b, e) = index_of_mem n l h in (suc j, omega arith, e)

module _ (m : Model) (n : ℕ) (s : m.State) (k : Checker) (e : k.count ≡ suc n)
    (fits : k.count ≤ length k.calls) where
  Linearization-of_start : StartsWithin m n s k k.count 0 → Linearization m s (left k)
  Linearization-of_start (j, _, hi, st) =
      Linearization-perm m (Perm.symm (left-perm j n st.first k e fits (omega arith) st.at_index))
        (Linearization-cons m st.is_first st.first_step)

  start_of_begin :
      (b : Begins m s (left k)) → Memᴰ b.first (left k) → StartsWithin m n s k k.count 0
  start_of_begin b h =
      let (j, lt, at_j) = index_of_mem k.count k.calls h in
      let rest =
        Perm.cons_inv (Perm.trans b.split (left-perm j n b.first k e fits (omega arith) at_j)) in
      (
        j,
        omega arith,
        omega arith,
        record {
          first = b.first;
          at_index = at_j;
          is_first = λ d q. b.is_first d ((Perm.mem_iff rest).1 q);
          first_step = FirstStep-perm m rest b.first_step;
        },
      )

  start_of_Linearization : Linearization m s (left k) → ¬ ¬ StartsWithin m n s k k.count 0
  start_of_Linearization a miss = elim (Begins-of_Linearization m a) [
    | inl none_left ↦ omega (arith, ap length none_left, length-take k.count k.calls)
    | inr b ↦
        ∥∥₁_elim ((Perm.mem_iff b.split).0 mem-cons_self) ⊥_prop (λ h. miss (start_of_begin b h))
  ]

-- Past the limit the answer is `true`, and says nothing.
Tried-over_limit :
    {P : Type 0} (k : Checker)
    → ltb k.time_limit (k.time + 1) ≡ true
    → Tried P k (true, at_time k (k.time + 1))
Tried-over_limit k over = record {
  restored = refl;
  later = omega arith;
  if_true = λ _ t. absurd (ground arith);
  if_false = λ q. cc;
}

Tried-found : {P : Type 0} (k : Checker) → P → Tried P k (true, k)
Tried-found k p = record {
  restored = refl;
  later = omega arith;
  if_true = λ _ _. p;
  if_false = λ q. cc;
}

is_zero : (k : Checker) → k.count ≡ 0 → (k.count == 0) ≡ true
is_zero k e = ground arith

is_suc : (k : Checker) {n : ℕ} → k.count ≡ suc n → (k.count == 0) ≡ false
is_suc k e = ground arith

nothing_left : (m : Model) (s : m.State) (k : Checker) → k.count ≡ 0 → Linearization m s (left k)
nothing_left m s k e =
    subst (λ n. Linearization m s (take n k.calls)) (sym e) (Linearization-nil m s)

module _ (m : Model) where
  -- With fuel for one level more than there are calls left.
  search-IsRight : (fuel n : ℕ) → n < fuel → IsRight m (search m fuel) n
  unfolding search
  search-IsRight zero n h s k e fits = absurd (omega arith)
  search-IsRight (suc fuel) zero h s k e fits = elim (Bool-cases (ltb k.time_limit (k.time + 1))) [
    | inl over ↦ rw over (Tried-over_limit k over)
    | inr within ↦ rw within (
        rw (is_zero k e) (
          Tried-earlier (k.time + 1) (omega arith)
            (Tried-found (at_time k (k.time + 1)) (nothing_left m s k e))))
  ]
  search-IsRight (suc fuel) (suc n) h s k e fits =
      elim (Bool-cases (ltb k.time_limit (k.time + 1))) [
        | inl over ↦ rw over (Tried-over_limit k over)
        | inr within ↦
            let k' = at_time k (k.time + 1) in
            rw within (
              rw (is_suc k e) (
                Tried-earlier (k.time + 1) (omega arith) (
                  Tried-map (Linearization-of_start m n s k e fits)
                    (λ _. start_of_Linearization m n s k e fits)
                    (scan-Tried m n (search m fuel) (search-IsRight fuel n (omega arith)) k.count 0
                      s k' (omega arith) e fits))))
      ]

module _ (m : Model) (history : List Call) (limit : ℕ) where
  check-Tried :
      Tried
        (Linearization m m.initial_state (left (make_checker history limit)))
        (make_checker history limit)
        (check m (make_checker history limit))
  unfolding check make_checker
  check-Tried =
      search-IsRight m (suc (length history)) (length history) (omega arith) m.initial_state
        (make_checker history limit) refl (omega arith)

  left-make_checker : left (make_checker history limit) ≡ history
  unfolding make_checker
  left-make_checker = take_all (length history) history (omega arith)

  -- If the search answers `true` and its counter has not passed the limit on searches, then the
  -- history has a linearization: an order of its calls that respects real time and in which every
  -- completed call has the result that the model gives.
  pub check_sound :
      (check m (make_checker history limit)).0 ≡ true
      → (check m (make_checker history limit)).1.time ≤ limit
      → Linearization m m.initial_state history
  check_sound e t = rw left-make_checker at (check-Tried.if_true e (unfold make_checker in t))

  -- If the search answers `false`, whatever the limit, then no linearization exists, for a history
  -- in which no call ended before it began.
  pub check_complete :
      IsTimed history → lin_check_brute m history limit ≡ false → ¬ IsLinearizable m history
  unfolding lin_check_brute
  check_complete timed e a =
      ∥∥₁_elim a ⊥_prop
        (λ l. check-Tried.if_false e (rw left-make_checker timed) (rw left-make_checker l))

  -- When the search returns, the calls stand where they stood and the linearization so far is
  -- empty again: only the counter of searches has changed.
  pub check_restores :
      (check m (make_checker history limit)).1
      ≡ at_time (make_checker history limit) (check m (make_checker history limit)).1.time
  check_restores = check-Tried.restored

-- ===== src/Semantics/Checker/Depth.antt =====
-- One level of the search, given that the levels below it are right.
use mathlib.Core.List.{Perm, mem-cons_self, mem-cons_of_mem, mem-cons, not-mem-nil}
use mathlib.Core.Logic.Or
use mathlib.Core.Bool.{Bool-set}
use mathlib.Core.List.Perm
use mathlib.Core.Path.{subst}
use native.Mathlib.Decide.{ℕ_discrete}
use whirl_matrix.Base.{
  ℕ, zero, suc, ◌+◌, ◌-◌, ◌≤◌, ◌<◌, ◌≡◌, refl, ap, ◌∙◌, ◌⊎◌, inl, inr, true, false, ◌&&◌,
  Bool-cases, some, List, [], ◌∷◌, arith, length, get_elem?, get_elem?-lt, take,
}
use whirl_matrix.Semantics.{Call, Model, is_completed, apply_call, accepts}
use whirl_matrix.Semantics.Linearization.{Linearization, Takes}
use whirl_matrix.Semantics.Linearization.Steps.{FirstStep, without_effect, with_effect, IsFirst}
use whirl_matrix.Semantics.Checker.{
  Checker, Search, swap, preceded, is_candidate, enter, leave, step_into, try_apply, try_call,
  visit, scan,
}
use whirl_matrix.Semantics.Checker.Swap.{swap-swap, swap-perm, length-swap, pop_back-append}
use whirl_matrix.Semantics.Checker.Tried.{
  left, IsTimed, at_time, Tried, Tried-map, or_else, Tried-none,
}

-- The calls that are left when the one at index `i` is placed.
abbrev pub without : ℕ → ℕ → Checker → List Call
without m i k = take m (swap i m k.calls)

module _ (i m : ℕ) (c : Call) (k : Checker) (e : k.count ≡ suc m) (fits : k.count ≤ length k.calls)
    (h : i ≤ m) (at_i : get_elem? k.calls i ≡ some c) where
  pub left-perm : Perm (left k) (c ∷ without m i k)
  left-perm = rw e (swap-perm k.calls i m c h (omega arith) at_i)

  without-IsTimed : IsTimed (left k) → IsTimed (without m i k)
  without-IsTimed t d n = t d ((Perm.mem_iff left-perm).1 (mem-cons_of_mem c n))

-- The way back from a call undoes the way in.
leave-enter :
    (i n : ℕ) (c : Call) (k : Checker)
    → k.count ≡ suc n
    → k.count ≤ length k.calls
    → i ≤ n
    → (t : ℕ) → leave i (at_time (enter i c k) t) ≡ at_time k t
unfolding leave enter
leave-enter i n c k e fits h t =
    let back : k.count - 1 + 1 - 1 ≡ k.count - 1 = omega arith in
    rw
      (
        back,
        pop_back-append k.linear c,
        swap-swap k.calls i (k.count - 1) (omega arith) (omega arith),
      )
      (ground arith)

left-enter :
    (i n : ℕ) (c : Call) (k : Checker) → k.count ≡ suc n → left (enter i c k) ≡ without n i k
unfolding enter
left-enter i n c k e = let back : k.count - 1 ≡ n = omega arith in rw back

module _ (m : Model) where
  -- The call takes effect first, before those of `rest`.
  abbrev pub AppliesFirst : m.State → Call → List Call → Type 0
  AppliesFirst s c rest = (s' : m.State) × Takes m s c s' × Linearization m s' rest

  completed_applies :
      {s : m.State} {c : Call} {rest : List Call}
      → is_completed c ≡ true
      → FirstStep m s c rest
      → AppliesFirst s c rest
  completed_applies p (without_effect q a) = cc
  completed_applies p (with_effect {s'} t a) = (s', t, a)

  FirstStep-cases :
      {s : m.State} {c : Call} {rest : List Call}
      → FirstStep m s c rest
      → Linearization m s rest ⊎ AppliesFirst s c rest
  FirstStep-cases (without_effect q a) = inl a
  FirstStep-cases (with_effect {s'} t a) = inr (s', t, a)

  -- What the level below gives.
  abbrev pub IsRight : Search m → ℕ → Type 0
  IsRight rec n =
      (s : m.State) (k : Checker)
      → k.count ≡ n
      → k.count ≤ length k.calls
      → Tried (Linearization m s (left k)) k (rec s k)

  module _ (rec : Search m) (n : ℕ) (below : IsRight rec n) (i : ℕ) (h : i ≤ n) (c : Call) where
    step_into-Tried :
        (s : m.State) (k : Checker)
        → k.count ≡ suc n
        → k.count ≤ length k.calls
        → get_elem? k.calls i ≡ some c
        → Tried (Linearization m s (without n i k)) k (step_into m rec i c s k)
    unfolding step_into
    step_into-Tried s k e fits at_i =
        let fewer : k.count - 1 ≡ n = omega arith in
        let still : k.count - 1 ≤ length (swap i (k.count - 1) k.calls) =
          rw (length-swap i (k.count - 1) k.calls) (omega arith) in
        let r : Tried (Linearization m s (left (enter i c k))) (enter i c k) (rec s (enter i c k)) =
          below s (enter i c k) fewer still in
        record {
          restored = ap (leave i) r.restored ∙ leave-enter i n c k e fits h _;
          later = r.later;
          if_true = λ p t. rw (left-enter i n c k e) at (r.if_true p t);
          if_false = λ p t a.
              r.if_false p (rw (left-enter i n c k e) (without-IsTimed i n c k e fits h at_i t))
                (rw (left-enter i n c k e) a);
        }

    try_apply-Tried :
        (s : m.State) (k : Checker)
        → k.count ≡ suc n
        → k.count ≤ length k.calls
        → get_elem? k.calls i ≡ some c
        → Tried (AppliesFirst s c (without n i k)) k (try_apply m rec i c s k)
    unfolding try_apply
    try_apply-Tried s k e fits at_i =
        let next = (apply_call m s c).next_state in
        elim (Bool-cases ((apply_call m s c).is_ok && accepts m c (apply_call m s c))) [
          | inl p ↦ rw p (
              Tried-map (λ a. (next, (ground arith, ground arith, refl), a))
                (λ _ (s', t, a) miss. miss (subst (λ x. Linearization m x (without n i k)) t.2 a))
                (step_into-Tried next k e fits at_i))
          | inr p ↦ rw p (Tried-none k (λ _ (s', t, a). ground arith))
        ]

    try_call-Tried :
        (s : m.State) (k : Checker)
        → k.count ≡ suc n
        → k.count ≤ length k.calls
        → get_elem? k.calls i ≡ some c
        → Tried (FirstStep m s c (without n i k)) k (try_call m rec i c s k)
    unfolding try_call
    try_call-Tried s k e fits at_i = elim (Bool-cases (is_completed c)) [
      | inl p ↦
          rw (p, try_call)
            (Tried-map (λ (s', t, a). with_effect t a) (λ _ f miss. miss (completed_applies p f))
              (try_apply-Tried s k e fits at_i))
      | inr p ↦
          rw (p, try_call)
            (Tried-map {P = Linearization m s (without n i k) ⊎ AppliesFirst s c (without n i k)}
              (λ x. elim x [ inl a ↦ without_effect p a | inr (s', t, a) ↦ with_effect t a ])
              (λ _ f miss. miss (FirstStep-cases f))
              (or_else _ (λ k'. try_apply m rec i c s k') (step_into-Tried s k e fits at_i)
                (λ t _. try_apply-Tried s (at_time k t) e fits at_i)))
    ]

-- The inner loop finds a call that ended before `c` began, if there is one.
preceded-IsFirst : (c : Call) (l : List Call) → preceded c l ≡ false → IsFirst c l
unfolding preceded
preceded-IsFirst c [] h d k = absurd (not-mem-nil k)
preceded-IsFirst c (x ∷ l) h d k =
    Or.elim (Bool-set _ _) (mem-cons.0 k) (λ q. rw q (ground arith))
      (preceded-IsFirst c l (ground arith) d)

IsFirst-preceded : (c : Call) (l : List Call) → IsFirst c l → preceded c l ≡ false
unfolding preceded
IsFirst-preceded c [] h = refl
IsFirst-preceded c (x ∷ l) h =
    ground (arith, h x mem-cons_self, IsFirst-preceded c l (λ d k. h d (mem-cons_of_mem x k)))

module _ (m : Model) (n : ℕ) where
  -- The call at this index can be placed first.
  pub record Start (s : m.State) (calls : List Call) (i : ℕ) : Type 0 where
    pub first : Call
    pub at_index : get_elem? calls i ≡ some first
    pub is_first : IsFirst first (take n (swap i n calls))
    pub first_step : FirstStep m s first (take n (swap i n calls))

  Start-IsFirst :
      {s : m.State} (k : Checker) {i : ℕ} {c : Call}
      → get_elem? k.calls i ≡ some c
      → Start s k.calls i
      → IsFirst c (without n i k) × FirstStep m s c (without n i k)
  Start-IsFirst {s} k {i} {c} at_i st =
      let same : st.first ≡ c = cc (st.at_index, at_i) in
      subst (λ x. IsFirst x (without n i k) × FirstStep m s x (without n i k)) same
        (st.is_first, st.first_step)

  candidate-IsFirst :
      (i : ℕ) (c : Call) (k : Checker)
      → k.count ≡ suc n
      → k.count ≤ length k.calls
      → i ≤ n
      → get_elem? k.calls i ≡ some c
      → preceded c (left k) ≡ false
      → IsFirst c (without n i k)
  candidate-IsFirst i c k e fits h at_i p d q =
      preceded-IsFirst c (left k) p d
        ((Perm.mem_iff (left-perm i n c k e fits h at_i)).1 (mem-cons_of_mem c q))

  IsFirst-candidate :
      (i : ℕ) (c : Call) (k : Checker)
      → k.count ≡ suc n
      → k.count ≤ length k.calls
      → i ≤ n
      → get_elem? k.calls i ≡ some c
      → IsTimed (left k)
      → IsFirst c (without n i k)
      → preceded c (left k) ≡ false
  IsFirst-candidate i c k e fits h at_i t f =
      let p = left-perm i n c k e fits h at_i in
      IsFirst-preceded c (left k) λ d q.
        Or.elim (Bool-set _ _) (mem-cons.0 ((Perm.mem_iff p).0 q))
          (λ same. rw same (t c ((Perm.mem_iff p).1 mem-cons_self))) (f d)

  -- Some index from `i` on, of `r` many.
  abbrev pub StartsWithin : m.State → Checker → ℕ → ℕ → Type 0
  StartsWithin s k r i = (j : ℕ) × (i ≤ j) × (j < i + r) × Start s k.calls j

  StartsWithin-cases :
      {s : m.State} (k : Checker) (r i : ℕ)
      → StartsWithin s k (suc r) i
      → Start s k.calls i ⊎ StartsWithin s k r (i + 1)
  StartsWithin-cases {s} k r i (j, lo, hi, st) = elim (ℕ_discrete i j) [
    | yes q ↦ inl (rw q st)
    | no q ↦ inr (j, omega arith, omega arith, st)
  ]

  module _ (rec : Search m) (below : IsRight m rec n) where
    visit-Tried :
        (i : ℕ) (s : m.State) (k : Checker)
        → i ≤ n
        → k.count ≡ suc n
        → k.count ≤ length k.calls
        → Tried (Start s k.calls i) k (visit m rec i s k)
    unfolding visit is_candidate
    visit-Tried i s k h e fits =
        let (c, at_i) = get_elem?-lt k.calls i (omega arith) in
        rw (at_i, visit)
          (elim (Bool-cases (preceded c (left k))) [
            | inl p ↦ rw p (
                Tried-none k λ t f.
                  let q : preceded c (left k) ≡ false =
                    IsFirst-candidate i c k e fits h at_i t (Start-IsFirst k at_i f).0 in
                  cc (p, q))
            | inr p ↦ rw p (
                Tried-map
                  (λ f. record {
                    first = c;
                    at_index = at_i;
                    is_first = candidate-IsFirst i c k e fits h at_i p;
                    first_step = f;
                  })
                  (λ _ st miss. miss (Start-IsFirst k at_i st).1)
                  (try_call-Tried m rec n below i h c s k e fits at_i))
          ])

    pub scan-Tried :
        (r i : ℕ) (s : m.State) (k : Checker)
        → i + r ≡ suc n
        → k.count ≡ suc n
        → k.count ≤ length k.calls
        → Tried (StartsWithin s k r i) k (scan m rec r i s k)
    unfolding scan
    scan-Tried zero i s k h e fits = Tried-none k (λ _ (j, lo, hi, st). omega arith)
    scan-Tried (suc r) i s k h e fits =
        Tried-map {P = Start s k.calls i ⊎ StartsWithin s k r (i + 1)}
          (λ x. elim x [
            | inl st ↦ (i, omega arith, omega arith, st)
            | inr (j, lo, hi, st) ↦ (j, omega arith, omega arith, st)
          ])
          (λ _ w miss. miss (StartsWithin-cases k r i w))
          (or_else (visit m rec i s k) (λ k'. scan m rec r (i + 1) s k')
            (visit-Tried i s k (omega arith) e fits)
            (λ t _. scan-Tried r (i + 1) s (at_time k t) (omega arith) e fits))

-- ===== src/World/Next.antt =====
-- World::FindNextStep: which actor runs next.
use mathlib.Core.Path.{subst}
use whirl_matrix.Base.{
  some_inj, ◌≢◌, ℕ, zero, suc, ◌+◌, ◌<◌, ◌≤◌, ◌≡◌, ◌⊎◌, inl, inr, refl, sym, ap, ◌∙◌, true, false,
  Option, none, some, List, [], ◌∷◌, ltb, arith, Bool-cases, get_elem?,
}
use whirl_matrix.World.{NextStep, consider, scan_actors, find_next_step}

-- The step of `best` is not after that of the actor `j` at `t`: it is earlier, or at the same time and
-- of an actor that stands before.
abbrev pub NotAfter : NextStep → ℕ → ℕ → Type 0
NotAfter best j t = (best.time < t) ⊎ ((best.time ≡ t) × (best.actor_index ≤ j))

abbrev From : ℕ → List (Option ℕ) → NextStep → Type 0
From i times r = (k : ℕ) × (r.actor_index ≡ i + k) × (get_elem? times k ≡ some (some r.time))

abbrev AllFrom : ℕ → List (Option ℕ) → NextStep → Type 0
AllFrom i times r = (j t : ℕ) → get_elem? times j ≡ some (some t) → NotAfter r (i + j) t

-- What a scan of the actors from `i` on makes of the candidate `c`.
abbrev Scanned : ℕ → List (Option ℕ) → NextStep → Type 0
Scanned i times c =
    (r : NextStep) × (scan_actors i times (some c) ≡ some r)
    × NotAfter r c.actor_index c.time
    × AllFrom i times r
    × ((r ≡ c) ⊎ From i times r)

abbrev here : ℕ → ℕ → NextStep
here i t = record { actor_index = i; time = t }

NotAfter-shift : {r : NextStep} (i j t : ℕ) → NotAfter r (i + 1 + j) t → NotAfter r (i + suc j) t
NotAfter-shift i j t (inl h) = inl h
NotAfter-shift i j t (inr (h, k)) = inr (h, omega arith)

NotAfter-trans :
    {r c : NextStep} (i t : ℕ) → NotAfter r c.actor_index c.time → NotAfter c i t → NotAfter r i t
NotAfter-trans i t (inl h) (inl k) = inl (omega arith)
NotAfter-trans i t (inl h) (inr (k, l)) = inl (omega arith)
NotAfter-trans i t (inr (h, m)) (inl k) = inl (omega arith)
NotAfter-trans i t (inr (h, m)) (inr (k, l)) = inr (omega arith, omega arith)

none_there :
    (times : List (Option ℕ))
    → ((j t : ℕ) → get_elem? times j ≢ some (some t))
    → (j t : ℕ) → get_elem? (none ∷ times) j ≢ some (some t)
none_there times h zero t e = cc
none_there times h (suc j) t e = h j t e

cons-AllFrom :
    (i : ℕ) (x : Option ℕ) (times : List (Option ℕ)) (r : NextStep)
    → ((t : ℕ) → x ≡ some t → NotAfter r i t)
    → AllFrom (i + 1) times r
    → AllFrom i (x ∷ times) r
cons-AllFrom i x times r h k zero t e = subst (λ j. NotAfter r j t) (omega arith) (h t (some_inj e))
cons-AllFrom i x times r h k (suc j) t e = NotAfter-shift i j t (k j t e)

cons-From :
    (i : ℕ) (x : Option ℕ) (times : List (Option ℕ)) (r : NextStep)
    → From (i + 1) times r
    → From i (x ∷ times) r
cons-From i x times r (k, e, g) = (suc k, omega arith, g)

here-From :
    (i u : ℕ) (times : List (Option ℕ)) (r : NextStep) → r ≡ here i u → From i (some u ∷ times) r
here-From i u times r e = (
  0,
  ap (λ (s : NextStep). s.actor_index) e ∙ omega arith,
  ap (λ (s : NextStep). some (some s.time)) (sym e),
)

scan-later :
    (i u : ℕ) (times : List (Option ℕ)) (c : NextStep)
    → c.actor_index < i
    → ltb u c.time ≡ false
    → Scanned (i + 1) times c
    → Scanned i (some u ∷ times) c
unfolding scan_actors consider
scan-later i u times c h e (r, eq, before, all, from) = (
  r,
  rw (e, scan_actors) eq,
  before,
  cons-AllFrom i (some u) times r
      (λ t q. let same : u ≡ t = some_inj q in NotAfter-trans {c = c} i t before (ground arith))
      all,
  elim from [ inl q ↦ inl q | inr q ↦ inr (cons-From i (some u) times r q) ],
)

scan-sooner :
    (i u : ℕ) (times : List (Option ℕ)) (c : NextStep)
    → ltb u c.time ≡ true
    → Scanned (i + 1) times (here i u)
    → Scanned i (some u ∷ times) c
unfolding scan_actors consider
scan-sooner i u times c e (r, eq, before, all, from) = (
  r,
  rw (e, scan_actors) eq,
  NotAfter-trans {c = here i u} c.actor_index c.time before (inl (ground arith)),
  cons-AllFrom i (some u) times r (λ t q. subst (NotAfter r i) (some_inj q) before) all,
  inr (elim from [ inl q ↦ here-From i u times r q | inr q ↦ cons-From i (some u) times r q ]),
)

scan-Scanned :
    (i : ℕ) (times : List (Option ℕ)) (c : NextStep) → c.actor_index < i → Scanned i times c
unfolding scan_actors consider
scan-Scanned i [] c h = (c, refl, inr (refl, omega arith), (λ j t k. cc), inl refl)
scan-Scanned i (none ∷ times) c h =
    let (r, eq, before, all, from) = scan-Scanned (i + 1) times c (omega arith) in
    (
      r,
      eq,
      before,
      cons-AllFrom i none times r (λ t q. cc) all,
      elim from [ inl q ↦ inl q | inr q ↦ inr (cons-From i none times r q) ],
    )
scan-Scanned i (some u ∷ times) c h = elim (Bool-cases (ltb u c.time)) [
  | inl e ↦ scan-sooner i u times c e (scan-Scanned (i + 1) times (here i u) (omega arith))
  | inr e ↦ scan-later i u times c h e (scan-Scanned (i + 1) times c (omega arith))
]

-- The first actors that are not runnable are passed over.
first-Scanned :
    (i : ℕ) (times : List (Option ℕ))
    → ((scan_actors i times none ≡ none) × ((j t : ℕ) → get_elem? times j ≢ some (some t)))
      ⊎ ((r : NextStep) × (scan_actors i times none ≡ some r) × AllFrom i times r × From i times r)
unfolding scan_actors consider
first-Scanned i [] = inl (refl, λ j t k. cc)
first-Scanned i (none ∷ times) = elim (first-Scanned (i + 1) times) [
  | inl q ↦ inl (q.0, none_there times q.1)
  | inr q ↦
      inr (q.0, q.1, cons-AllFrom i none times q.0 (λ t e. cc) q.2, cons-From i none times q.0 q.3)
]
first-Scanned i (some u ∷ times) =
    let (r, eq, before, all, from) = scan-Scanned (i + 1) times (here i u) (omega arith) in
    inr (
      r,
      eq,
      cons-AllFrom i (some u) times r (λ t q. subst (NotAfter r i) (some_inj q) before) all,
      elim from [ inl q ↦ here-From i u times r q | inr q ↦ cons-From i (some u) times r q ],
    )

-- Either no actor is runnable and there is no next step, or the next step is that of a runnable
-- actor at its time, and no actor's is earlier, nor at the same time if the actor stands before.
pub find_next_step_lem :
    (times : List (Option ℕ))
    → ((find_next_step times ≡ none) × ((j t : ℕ) → get_elem? times j ≢ some (some t)))
      ⊎ ((r : NextStep) × (find_next_step times ≡ some r)
          × (get_elem? times r.actor_index ≡ some (some r.time))
          × ((j t : ℕ) → get_elem? times j ≡ some (some t) → NotAfter r j t))
unfolding find_next_step
find_next_step_lem times = elim (first-Scanned 0 times) [
  | inl q ↦ inl q
  | inr (r, eq, all, (k, e, g)) ↦ inr (
    r,
    eq,
    ap (get_elem? times) (e ∙ omega arith) ∙ g,
    λ j t h. subst (λ i. NotAfter r i t) (omega arith) (all j t h),
  )
]

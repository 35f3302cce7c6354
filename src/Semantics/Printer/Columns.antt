-- ===== src/Semantics/Printer/Columns.antt =====
-- The columns of a picture are in the order of real time.
use whirl_matrix.Base.{
  ℕ, ◌+◌, ◌≤◌, ◌<◌, ◌≡◌, sym, ap, ◌∙◌, inl, inr, Bool, true, false, ◌||◌, none, some, List, [], ◌∷◌,
  arith, All, Option-cases, length, ltb, ◌==◌, Bool-cases, some_inj,
}
use whirl_matrix.Semantics.{Call, precedes_in_real_time}
use whirl_matrix.Semantics.Printer.{insert_tp, add_tps, collect, compact, number_of, span}

-- The times are increasing, from `lo` on.
abbrev pub Increasing : ℕ → List ℕ → Type 0
Increasing lo [] = Unit
Increasing lo (t ∷ ts) = (lo ≤ t) × Increasing (t + 1) ts

abbrev is_in : ℕ → List ℕ → Bool
is_in x [] = false
is_in x (t ∷ ts) = (t == x) || is_in x ts

in_none : {A : Type 0} (x : ℕ) → is_in x [] ≡ true → A
in_none x e = cc

in_rest : (t x : ℕ) (ts : List ℕ) → (t == x) ≡ false → is_in x (t ∷ ts) ≡ true → is_in x ts ≡ true
in_rest t x ts e m = sym (ap (λ b. b || is_in x ts) e) ∙ m

Increasing-le : (lo x : ℕ) (ts : List ℕ) → Increasing lo ts → is_in x ts ≡ true → lo ≤ x
Increasing-le lo x [] s m = in_none x m
Increasing-le lo x (t ∷ ts) (h, s) m = elim (Bool-cases (t == x)) [
  | inl e ↦ ground (arith, h)
  | inr e ↦ let later = Increasing-le (t + 1) x ts s (in_rest t x ts e m) in omega arith
]

insert_tp-Increasing :
    (lo tp : ℕ) (ts : List ℕ) → lo ≤ tp → Increasing lo ts → Increasing lo (insert_tp tp ts)
unfolding insert_tp
insert_tp-Increasing lo tp [] b s = (b, tt)
insert_tp-Increasing lo tp (x ∷ ts) b (h, s) = elim (Bool-cases (ltb tp x)) [
  | inl e ↦ rw e (b, (ground arith, s))
  | inr e ↦ elim (Bool-cases (x == tp)) [
    | inl q ↦ rw (e, q) (h, s)
    | inr q ↦ rw (e, q) (h, insert_tp-Increasing (x + 1) tp ts (ground arith) s)
  ]
]

in-insert_tp : (tp : ℕ) (ts : List ℕ) → is_in tp (insert_tp tp ts) ≡ true
unfolding insert_tp
in-insert_tp tp [] = ground arith
in-insert_tp tp (x ∷ ts) = ground (arith, in-insert_tp tp ts)

in_after-insert_tp : (y tp : ℕ) (ts : List ℕ) → is_in y ts ≡ true → is_in y (insert_tp tp ts) ≡ true
unfolding insert_tp
in_after-insert_tp y tp [] m = in_none y m
in_after-insert_tp y tp (x ∷ ts) m = elim (Bool-cases (x == y)) [
  | inl e ↦ ground (arith, e)
  | inr e ↦ ground (arith, e, in_after-insert_tp y tp ts (in_rest x y ts e m))
]

-- The number of a time is its place.
number_of-compact :
    (n x lo : ℕ) (ts : List ℕ)
    → is_in x ts ≡ true
    → (n < number_of x (compact n ts)) × (number_of x (compact n ts) ≤ n + length ts)
unfolding number_of compact
number_of-compact n x lo [] m = in_none x m
number_of-compact n x lo (t ∷ ts) m = elim (Bool-cases (t == x)) [
  | inl e ↦ rw e (omega arith, omega arith)
  | inr e ↦
      let (low, high) = number_of-compact (n + 1) x lo ts (in_rest t x ts e m) in
      rw e (omega arith, omega arith)
]

-- The numbers are in the order of the times.
number_of-ltb :
    (n lo x y : ℕ) (ts : List ℕ)
    → Increasing lo ts
    → is_in x ts ≡ true
    → is_in y ts ≡ true
    → ltb (number_of x (compact n ts)) (number_of y (compact n ts)) ≡ ltb x y
unfolding number_of compact
number_of-ltb n lo x y [] s mx my = in_none x mx
number_of-ltb n lo x y (t ∷ ts) (h, s) mx my = elim (Bool-cases (t == x)) [
  | inl e ↦ elim (Bool-cases (t == y)) [
    | inl q ↦ rw (e, q) (ground arith)
    | inr q ↦
        let (low, high) = number_of-compact (n + 1) y lo ts (in_rest t y ts q my) in
        let above = Increasing-le (t + 1) y ts s (in_rest t y ts q my) in
        rw (e, q) (ground (arith, e, low, above))
  ]
  | inr e ↦ elim (Bool-cases (t == y)) [
    | inl q ↦
        let (low, high) = number_of-compact (n + 1) x lo ts (in_rest t x ts e mx) in
        let above = Increasing-le (t + 1) x ts s (in_rest t x ts e mx) in
        rw (e, q) (ground (arith, q, low, above))
    | inr q ↦
        rw (e, q)
          (number_of-ltb (n + 1) (t + 1) x y ts s (in_rest t x ts e mx) (in_rest t y ts q my))
  ]
]

abbrev pub IsShown : Call → List ℕ → Type 0
IsShown c ts = (is_in c.start_time ts ≡ true) × ((t : ℕ) → c.end_time ≡ some t → is_in t ts ≡ true)

add_tps-Increasing : (c : Call) (ts : List ℕ) → Increasing 0 ts → Increasing 0 (add_tps c ts)
unfolding add_tps
add_tps-Increasing c ts s =
    let started = insert_tp-Increasing 0 c.start_time ts (omega arith) s in
    elim (Option-cases c.end_time) [
      | inl e ↦ rw e started
      | inr (t, e) ↦
          rw e (insert_tp-Increasing 0 t (insert_tp c.start_time ts) (omega arith) started)
    ]

in_after-add_tps :
    (y : ℕ) (c : Call) (ts : List ℕ) → is_in y ts ≡ true → is_in y (add_tps c ts) ≡ true
unfolding add_tps
in_after-add_tps y c ts m =
    let started = in_after-insert_tp y c.start_time ts m in
    elim (Option-cases c.end_time) [
      | inl e ↦ rw e started
      | inr (t, e) ↦ rw e (in_after-insert_tp y t (insert_tp c.start_time ts) started)
    ]

add_tps-IsShown : (c : Call) (ts : List ℕ) → IsShown c (add_tps c ts)
unfolding add_tps
add_tps-IsShown c ts =
    let started = in-insert_tp c.start_time ts in
    elim (Option-cases c.end_time) [
      | inl e ↦ (rw e started, λ t q. absurd (no_end t (sym e ∙ q)))
      | inr (u, e) ↦ (
        rw e (in_after-insert_tp c.start_time u (insert_tp c.start_time ts) started),
        λ t q. rw e (rw (some_inj (sym q ∙ e)) (in-insert_tp u (insert_tp c.start_time ts))),
      )
    ]
  where
    no_end : (t : ℕ) → ¬ (none ≡ some t)
    no_end t h = cc

pub collect-Increasing :
    (h : List Call) (ts : List ℕ) → Increasing 0 ts → Increasing 0 (collect h ts)
unfolding collect
collect-Increasing [] ts s = s
collect-Increasing (c ∷ h) ts s = collect-Increasing h (add_tps c ts) (add_tps-Increasing c ts s)

in-collect :
    (y : ℕ) (h : List Call) (ts : List ℕ) → is_in y ts ≡ true → is_in y (collect h ts) ≡ true
unfolding collect
in-collect y [] ts m = m
in-collect y (c ∷ h) ts m = in-collect y h (add_tps c ts) (in_after-add_tps y c ts m)

pub collect-IsShown : (h : List Call) (ts : List ℕ) → All (λ c. IsShown c (collect h ts)) h
unfolding collect
collect-IsShown [] ts = tt
collect-IsShown (c ∷ h) ts =
    let (start, end) = add_tps-IsShown c ts in
    (
      (
        in-collect c.start_time h (add_tps c ts) start,
        λ t e. in-collect t h (add_tps c ts) (end t e),
      ),
      collect-IsShown h (add_tps c ts),
    )

abbrev pub span_in : List ℕ → Call → ℕ × ℕ
span_in ts c = span (compact 0 ts) (length ts + 1) c

pub span-precedes :
    (ts : List ℕ) (a b : Call)
    → Increasing 0 ts
    → IsShown a ts
    → IsShown b ts
    → ltb (span_in ts a).1 (span_in ts b).0 ≡ precedes_in_real_time a b
unfolding span precedes_in_real_time
span-precedes ts a b s ha hb = elim (Option-cases a.end_time) [
  | inl e ↦
      let (low, high) = number_of-compact 0 b.start_time 0 ts hb.0 in rw e (ground (arith, high))
  | inr (t, e) ↦ rw e (number_of-ltb 0 0 t b.start_time ts s (ha.1 t e) hb.0)
]

-- A call takes time if it has completed.
abbrev pub Lasts : Call → Type 0
Lasts c = (t : ℕ) → c.end_time ≡ some t → c.start_time < t

pub span-Lasts :
    (ts : List ℕ) (c : Call)
    → Increasing 0 ts
    → IsShown c ts
    → Lasts c
    → (span_in ts c).0 < (span_in ts c).1
unfolding span
span-Lasts ts c s (start, end) h = elim (Option-cases c.end_time) [
  | inl e ↦ let (low, high) = number_of-compact 0 c.start_time 0 ts start in rw e (omega arith)
  | inr (t, e) ↦
      let same = number_of-ltb 0 0 c.start_time t ts s start (end t e) in
      let before = h t e in rw e (ground (arith, same, before))
]

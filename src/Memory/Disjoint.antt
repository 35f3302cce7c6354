-- ===== src/Memory/Disjoint.antt =====
-- The blocks that a program holds do not overlap.
use mathlib.Core.Path.{subst}
use whirl_matrix.Base.{
  some_inj, Ensures, ensured, ℕ, zero, suc, ◌+◌, ◌-◌, ◌%◌, ◌≤◌, ◌<◌, ◌≡◌, ◌≢◌, ◌⊎◌, inl, inr, refl,
  ap, ◌∙◌, sym, true, some, List, [], ◌∷◌, ◌++◌, arith, ◌==◌, ==_iff, Bool-cases, get_elem?, All,
  ok,
}
use whirl_matrix.Memory.{
  BitHacks, Allocator, alloc_to_power_of_2, allocate, free, reset, make_allocator,
}
use whirl_matrix.Memory.Outcomes.{allocate-Ensures, free-Ensures}
use whirl_matrix.Memory.Layout.{occ, apart, at_most_once}
use whirl_matrix.Memory.Sound.{IsSound, Carved-IsSound, heads}
use whirl_matrix.Memory.Recycled.{Reused-IsSound, Freed-IsSound, reset-IsSound}

-- A program and its allocator: what it holds after any allocations, frees of blocks that it holds, and resets.
pub data Reached (hacks : BitHacks) : Allocator → List (ℕ × ℕ) → Type 0 where
  begins :
      {a : Allocator} {live : List (ℕ × ℕ)} (start end : ℕ)
      → make_allocator start end ≡ ok a
      → live ≡ []
      → Reached hacks a live
  allocates :
      {b : Allocator} {live' : List (ℕ × ℕ)} (a : Allocator) (live : List (ℕ × ℕ)) (bytes user : ℕ)
      → Reached hacks a live
      → allocate hacks bytes a ≡ ok (user, b)
      → live' ≡ (user, bytes) ∷ live
      → Reached hacks b live'
  frees :
      {b : Allocator} {live' : List (ℕ × ℕ)} (a : Allocator) (live before after : List (ℕ × ℕ))
      → (user bytes : ℕ) → Reached hacks a live
      → live ≡ before ++ (user, bytes) ∷ after
      → free hacks user a ≡ ok b
      → live' ≡ before ++ after
      → Reached hacks b live'
  resets :
      {b : Allocator} {live' : List (ℕ × ℕ)} (a : Allocator) (live : List (ℕ × ℕ))
      → Reached hacks a live
      → b ≡ reset a
      → live' ≡ []
      → Reached hacks b live'

All-at :
    (P : ℕ × ℕ → Type 0) (l : List (ℕ × ℕ)) (i : ℕ) (x : ℕ × ℕ)
    → All P l
    → get_elem? l i ≡ some x
    → P x
All-at P [] i x h e = cc
All-at P (y ∷ l) zero x (h, hs) e = subst P (some_inj e) h
All-at P (y ∷ l) (suc i) x (h, hs) e = All-at P l i x hs e

once :
    (live : List (ℕ × ℕ)) (i : ℕ) (x : ℕ × ℕ)
    → get_elem? live i ≡ some x
    → 1 ≤ occ (x.0 - 16) (heads live)
once [] i x e = cc
once (y ∷ live) zero x e =
    let same : y.0 - 16 ≡ x.0 - 16 = ap (λ (b : ℕ × ℕ). b.0 - 16) (some_inj e) in
    ground (arith, ==_iff (y.0 - 16) (x.0 - 16), same)
once (y ∷ live) (suc i) x e = omega (arith, once live i x e)

twice :
    (live : List (ℕ × ℕ)) (i j : ℕ) (x y : ℕ × ℕ)
    → get_elem? live i ≡ some x
    → get_elem? live j ≡ some y
    → i ≢ j
    → x.0 - 16 ≡ y.0 - 16
    → 2 ≤ occ (x.0 - 16) (heads live)
twice [] i j x y e f d h = cc
twice (z ∷ live) zero zero x y e f d h = absurd (d refl)
twice (z ∷ live) zero (suc j) x y e f d h =
    let same : z.0 - 16 ≡ x.0 - 16 = ap (λ (b : ℕ × ℕ). b.0 - 16) (some_inj e) in
    let rest : 1 ≤ occ (x.0 - 16) (heads live) =
      subst (λ n. 1 ≤ occ n (heads live)) (sym h) (once live j y f) in
    let first : ((z.0 - 16) == (x.0 - 16)) ≡ true = ground (arith, ==_iff (z.0 - 16) (x.0 - 16)) in
    rw (first, occ) (omega (arith, rest))
twice (z ∷ live) (suc i) zero x y e f d h =
    let same : z.0 - 16 ≡ x.0 - 16 = ap (λ (b : ℕ × ℕ). b.0 - 16) (some_inj f) ∙ sym h in
    let rest : 1 ≤ occ (x.0 - 16) (heads live) = once live i x e in
    let first : ((z.0 - 16) == (x.0 - 16)) ≡ true = ground (arith, ==_iff (z.0 - 16) (x.0 - 16)) in
    rw (first, occ) (omega (arith, rest))
twice (z ∷ live) (suc i) (suc j) x y e f d h =
    omega (arith, twice live i j x y e f (λ k. d (ap suc k)) h)

sound-disjoint :
    (a : Allocator) (blocks live : List (ℕ × ℕ)) (i j : ℕ) (x y : ℕ × ℕ)
    → IsSound a blocks live
    → get_elem? live i ≡ some x
    → get_elem? live j ≡ some y
    → i ≢ j
    → ((x.0 + x.1 ≤ y.0) ⊎ (y.0 + y.1 ≤ x.0)) × (a.start ≤ x.0) × (x.0 + x.1 < a.end)
sound-disjoint a blocks live i j x y v at_i at_j distinct =
    let (above, s, e, fits) = All-at _ live i x v.held at_i in
    let (above', t, f, fits') = All-at _ live j y v.held at_j in
    let (low, high) = v.inside (x.0 - 16) s e in
    elim (Bool-cases ((x.0 - 16) == (y.0 - 16))) [
      | inl g ↦
          let same : x.0 - 16 ≡ y.0 - 16 = ground (arith, ==_iff (x.0 - 16) (y.0 - 16)) in
          absurd (
            omega (
              arith,
              twice live i j x y at_i at_j distinct same,
              v.owned (x.0 - 16),
              at_most_once a.next (x.0 - 16) blocks v.stacked,
            ))
      | inr g ↦ elim (apart a.next (x.0 - 16) (y.0 - 16) s t blocks v.stacked e f g) [
        | inl before ↦ (inl (omega arith), omega arith, omega arith)
        | inr behind ↦ (inr (omega arith), omega arith, omega arith)
      ]
    ]

module _ (hacks : BitHacks) (rounds : (n : ℕ) → n ≤ hacks.round_up_to_next_power_of_two n) where
  rounded : (n : ℕ) → n ≤ alloc_to_power_of_2 hacks n
  unfolding alloc_to_power_of_2
  rounded n = ground (arith, rounds n)

  allocated-IsSound :
      (a b : Allocator) (blocks live : List (ℕ × ℕ)) (bytes user : ℕ)
      → IsSound a blocks live
      → allocate hacks bytes a ≡ ok (user, b)
      → (blocks' : List (ℕ × ℕ)) × IsSound b blocks' ((user, bytes) ∷ live)
  allocated-IsSound a b blocks live bytes user v e =
      let p = alloc_to_power_of_2 hacks bytes in
      elim (ensured _ _ (user, b) (allocate-Ensures hacks bytes a) e) [
        | inl c ↦
            ((a.next, p) ∷ blocks, Carved-IsSound a blocks live v p user bytes b (rounded bytes) c)
        | inr c ↦ (blocks, Reused-IsSound a blocks live v p user bytes b (rounded bytes) c)
      ]

  made-Ensures : (start end : ℕ) → Ensures (λ x. IsSound x [] []) (make_allocator start end)
  unfolding make_allocator
  made-Ensures start end = elim (Bool-cases ((end - start) % 4096 == 0)) [
    | inr e ↦ rw (e, make_allocator) tt
    | inl e ↦
        rw (e, make_allocator)
          (reset-IsSound (record {
            block_lists = [];
            headers = [];
            start = start;
            end = end;
            next = start;
            zfilled = start;
          }))
  ]

  made-IsSound : (a : Allocator) (start end : ℕ) → make_allocator start end ≡ ok a → IsSound a [] []
  unfolding make_allocator
  made-IsSound a start end e =
      ensured (λ x. IsSound x [] []) (make_allocator start end) a (made-Ensures start end) e

  reached-IsSound :
      (a : Allocator) (live : List (ℕ × ℕ))
      → Reached hacks a live
      → (blocks : List (ℕ × ℕ)) × IsSound a blocks live
  reached-IsSound a live (begins start end made e) =
      ([], subst (IsSound a []) (sym e) (made-IsSound a start end made))
  reached-IsSound b live' (allocates a live bytes user r done e) =
      let (blocks, v) = reached-IsSound a live r in
      let (blocks', w) = allocated-IsSound a b blocks live bytes user v done in
      (blocks', subst (IsSound b blocks') (sym e) w)
  reached-IsSound b live' (frees a live before after user bytes r held done e) =
      let (blocks, v) = reached-IsSound a live r in
      let w =
        Freed-IsSound a blocks before after user bytes (subst (IsSound a blocks) held v) b
          (ensured _ _ b (free-Ensures hacks user a) done) in
      (blocks, subst (IsSound b blocks) (sym e) w)
  reached-IsSound b live' (resets a live r done e) = (
    [],
    subst (λ x. IsSound x [] live') (sym done)
        (subst (IsSound (reset a) []) (sym e) (reset-IsSound a)),
  )

  -- The blocks that a program holds, after any allocations, frees of blocks that it holds and resets, lie in the
  -- arena, and two of them, as many bytes each as were asked for, have no byte in common, when the
  -- rounding to a power of two rounds up.
  pub live-disjoint :
      (a : Allocator) (live : List (ℕ × ℕ)) (i j : ℕ) (x y : ℕ × ℕ)
      → Reached hacks a live
      → get_elem? live i ≡ some x
      → get_elem? live j ≡ some y
      → i ≢ j
      → ((x.0 + x.1 ≤ y.0) ⊎ (y.0 + y.1 ≤ x.0)) × (a.start ≤ x.0) × (x.0 + x.1 < a.end)
  live-disjoint a live i j x y r at_i at_j distinct =
      let (blocks, v) = reached-IsSound a live r in
      sound-disjoint a blocks live i j x y v at_i at_j distinct

-- ===== src/Guids/Unique.antt =====
-- No two of the ids are the same.
use Prim.Native.String.{String, ◌++◌ as str_append, ◌∷◌ as str_cons}
use Prim.Native.Char.{Char}
use text.Mathlib.TextLemmas.{append_cancel_left, tail-eq_of_cons-eq, cons-append, nil-append}
use native.Mathlib.Nat.{mod-eq_of_lt}
use whirl_matrix.Base.{
  some_inj, ℕ, zero, suc, ◌+◌, ◌%◌, ◌^◌, ◌<◌, ◌≡◌, Bool-cases, inl, inr, ap, ◌∙◌, sym, some, ◌==◌,
  get_elem?, arith,
}
use whirl_matrix.Guids.{char_of, generate_next, generate}

module _ (print : ℕ → String) where
  abbrev guid_of : ℕ → String
  guid_of value =
      str_append "guid-" (str_append (char_of (value % 3)) (str_append "-" (print value)))

  generate_at :
      (count i next : ℕ) (guid : String)
      → next + count < 2 ^ 64
      → get_elem? (generate print count next) i ≡ some guid
      → (guid ≡ guid_of (next + i + 1)) × (i < count)
  unfolding generate generate_next
  generate_at zero i next guid h e = cc
  generate_at (suc count) zero next guid h e =
      let small : (next + 1) % 2 ^ 64 ≡ next + 1 = mod-eq_of_lt (omega arith) in
      (
        sym (some_inj e)
            ∙ ap guid_of small
            ∙ ap guid_of {x = next + 1} {y = next + 0 + 1} (omega arith),
        omega arith,
      )
  generate_at (suc count) (suc i) next guid h e =
      let small : (next + 1) % 2 ^ 64 ≡ next + 1 = mod-eq_of_lt (omega arith) in
      let r =
        generate_at count i (next + 1) guid (omega arith)
          (ap (λ n. get_elem? (generate print count n) i) (sym small) ∙ e) in
      (
        r.0 ∙ ap guid_of {x = next + 1 + i + 1} {y = next + suc i + 1} (omega arith),
        omega (arith, r.1),
      )

  tail_of : (i : ℕ) (s : String) → (c : Char) × (str_append (char_of i) s ≡ str_cons c s)
  unfolding char_of
  tail_of i s = elim (Bool-cases (i == 0)) [
    | inl e ↦ rw (e, char_of) ("Y", cons-append "Y" "" s ∙ ap (str_cons "Y") (nil-append s))
    | inr e ↦
        rw (e, char_of)
          (elim (Bool-cases (i == 1)) [
            | inl f ↦ rw (f, char_of) ("X", cons-append "X" "" s ∙ ap (str_cons "X") (nil-append s))
            | inr f ↦ rw (f, char_of) ("Z", cons-append "Z" "" s ∙ ap (str_cons "Z") (nil-append s))
          ])
  ]

  -- The ids of a generator, fewer than 2^64 of them, are different: two that are equal are the same call's, when
  -- different numbers are printed differently.
  pub generate-injective :
      (count i j : ℕ) (guid : String)
      → ((m n : ℕ) → print m ≡ print n → m ≡ n)
      → count < 2 ^ 64
      → get_elem? (generate print count 0) i ≡ some guid
      → get_elem? (generate print count 0) j ≡ some guid
      → i ≡ j
  generate-injective count i j guid injective small at_i at_j =
      let (e, bi) = generate_at count i 0 guid (omega arith) at_i in
      let (f, bj) = generate_at count j 0 guid (omega arith) at_j in
      let a = 0 + i + 1 in
      let b = 0 + j + 1 in
      let (x, p) = tail_of (a % 3) (str_append "-" (print a)) in
      let (y, q) = tail_of (b % 3) (str_append "-" (print b)) in
      let whole = append_cancel_left "guid-" _ _ (sym e ∙ f) in
      let tails = tail-eq_of_cons-eq (sym p ∙ whole ∙ q) in
      let numbers = injective a b (append_cancel_left "-" (print a) (print b) tails) in
      omega (arith, numbers)

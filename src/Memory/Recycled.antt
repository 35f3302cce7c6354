-- ===== src/Memory/Recycled.antt =====
-- Blocks that are given back, used again or dropped by a reset.
use mathlib.Core.Path.{subst}
use whirl_matrix.Base.{
  some_inj, bit, ℕ, zero, suc, ◌+◌, ◌-◌, ◌%◌, ◌^◌, ◌≤◌, ◌≡◌, inl, inr, refl, ap, ◌∙◌, sym, false,
  Option, some, List, [], ◌∷◌, ◌++◌, arith, ◌==◌, ==_iff, Bool-cases, get_elem?, get_elem?-set, set,
  replicate, lt_of_get_elem?, All, if◌then◌else◌,
}
use whirl_matrix.Fs.Table.{find_fd}
use whirl_matrix.Memory.{Allocator, reset, hard_reset}
use whirl_matrix.Memory.Outcomes.{Reused, Released, Freed}
use whirl_matrix.Memory.Layout.{occ, concat, occ-set, size_of, class-size}
use whirl_matrix.Memory.Sound.{IsSound, heads, Free}

module _ (a : Allocator) (blocks live : List (ℕ × ℕ)) (v : IsSound a blocks live) where
  -- With the list of a class changed to a part of it, or to it and one more free block.
  listed-set :
      (k : ℕ) (old new : List ℕ)
      → get_elem? a.block_lists k ≡ some old
      → All (Free blocks k) new
      → (j : ℕ) (l : List ℕ) → get_elem? (set a.block_lists k new) j ≡ some l
      → (j == 0) ≡ false
      → All (Free blocks j) l
  listed-set k old new found all_free j l e small =
      let changed =
        get_elem?-set a.block_lists k j new (lt_of_get_elem? a.block_lists k old found) in
      elim (Bool-cases (k == j)) [
        | inl f ↦
            let same : k ≡ j = ground (arith, ==_iff k j) in
            let here : ◌≡◌ {A = Option (List ℕ)} (some new) (some l) =
              ap (λ t. if t then some new else get_elem? a.block_lists j) (sym f)
              ∙ sym changed
              ∙ e in
            subst (λ x. All (Free blocks x) l) same
              (subst (λ x. All (Free blocks k) x) (some_inj here) all_free)
        | inr f ↦
            v.listed j l
              (ap (λ t. if t then some new else get_elem? a.block_lists j) (sym f)
                ∙ sym changed
                ∙ e)
              small
      ]

  pub Reused-IsSound :
      (p user n : ℕ) (b : Allocator)
      → n ≤ p
      → Reused p a user b
      → IsSound b blocks ((user, n) ∷ live)
  Reused-IsSound p user n b fits c =
      let k = c.class_index in
      let all_free = v.listed k (c.block ∷ c.rest) c.found c.small in
      let (s, at_block, size) = all_free.0 in
      let wanted : p ≡ size_of k = class-size p k c.of_class c.small in
      let place : user - 16 ≡ c.block = omega (arith, c.place) in
      subst (λ x. IsSound x blocks ((user, n) ∷ live)) (sym c.after)
        (record {
          stacked = v.stacked;
          inside = v.inside;
          filled = v.filled;
          recorded = v.recorded;
          listed = listed-set k (c.block ∷ c.rest) c.rest c.found all_free.1;
          owned = λ x. omega (
            arith,
            v.owned x,
            occ-set x k a.block_lists (c.block ∷ c.rest) c.rest c.found,
            ap (λ y. bit (y == x)) place,
          );
          held = (
            (
              omega (arith, c.place),
              s,
              ap (λ y. find_fd y blocks) place ∙ at_block,
              omega (arith, fits, wanted, size),
            ),
            v.held,
          );
        })

All-without :
    (P : ℕ × ℕ → Type 0) (before : List (ℕ × ℕ)) (b : ℕ × ℕ) (after : List (ℕ × ℕ))
    → All P (before ++ b ∷ after)
    → P b × All P (before ++ after)
All-without P [] b after h = h
All-without P (x ∷ before) b after (h, hs) =
    let (k, ks) = All-without P before b after hs in (k, (h, ks))

occ-without :
    (x : ℕ) (before : List (ℕ × ℕ)) (b : ℕ × ℕ) (after : List (ℕ × ℕ))
    → occ x (heads (before ++ b ∷ after)) ≡ bit ((b.0 - 16) == x) + occ x (heads (before ++ after))
occ-without x [] b after = refl
occ-without x (y ∷ before) b after = omega (arith, occ-without x before b after)

module _ (a : Allocator) (blocks before after : List (ℕ × ℕ)) (user n : ℕ)
    (v : IsSound a blocks (before ++ (user, n) ∷ after)) where
  forgotten-IsSound : IsSound a blocks (before ++ after)
  forgotten-IsSound = record {
    stacked = v.stacked;
    inside = v.inside;
    filled = v.filled;
    recorded = v.recorded;
    listed = v.listed;
    owned = λ x. omega (arith, v.owned x, occ-without x before (user, n) after);
    held = (All-without _ before (user, n) after v.held).1;
  }

  Released-IsSound :
      (size : ℕ) (b : Allocator)
      → find_fd (user - 16) a.headers ≡ some size
      → Released a (user - 16) size b
      → IsSound b blocks (before ++ after)
  Released-IsSound size b header c =
      let k = c.class_index in
      let (above, s, at_block, fits) = (All-without _ before (user, n) after v.held).0 in
      let written : size ≡ s % 2 ^ 32 = some_inj (sym header ∙ v.recorded (user - 16) s at_block) in
      let sized : size ≡ size_of k = class-size size k c.of_class c.small in
      subst (λ x. IsSound x blocks (before ++ after)) (sym c.after)
        (record {
          stacked = v.stacked;
          inside = v.inside;
          filled = v.filled;
          recorded = v.recorded;
          listed =
              listed-set a blocks (before ++ (user, n) ∷ after) v k c.old ((user - 16) ∷ c.old)
                c.found ((s, at_block, sym written ∙ sized), v.listed k c.old c.found c.small);
          owned = λ x. omega (
            arith,
            v.owned x,
            occ-without x before (user, n) after,
            occ-set x k a.block_lists c.old ((user - 16) ∷ c.old) c.found,
          );
          held = (All-without _ before (user, n) after v.held).1;
        })

  pub Freed-IsSound : (b : Allocator) → Freed a user b → IsSound b blocks (before ++ after)
  Freed-IsSound b (size, header, inl e) =
      subst (λ x. IsSound x blocks (before ++ after)) (sym e) forgotten-IsSound
  Freed-IsSound b (size, header, inr c) = Released-IsSound size b header c

replicate-nil : (n k : ℕ) (l : List ℕ) → get_elem? (replicate n []) k ≡ some l → l ≡ []
replicate-nil zero k l e = cc
replicate-nil (suc n) zero l e = sym (some_inj e)
replicate-nil (suc n) (suc k) l e = replicate-nil n k l e

concat-replicate : (n : ℕ) → concat (replicate n []) ≡ []
concat-replicate zero = refl
concat-replicate (suc n) = concat-replicate n

-- After a reset nothing is carved, held or free.
pub reset-IsSound : (a : Allocator) → IsSound (reset a) [] []
unfolding reset hard_reset find_fd
reset-IsSound a = record {
  stacked = tt;
  inside = λ x s e. cc;
  filled = (omega arith, omega arith);
  recorded = λ x s e. cc;
  listed = λ k l e small. subst (λ t. All (Free [] k) t) (sym (replicate-nil 11 k l e)) tt;
  owned = λ x. omega arith;
  held = tt;
}

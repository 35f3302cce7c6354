-- ===== src/Memory/Layout.antt =====
-- The blocks that have been carved out of the arena, the newest first: they lie one behind the other.
use whirl_matrix.Base.{
  some_inj, count_where, count-append, ℕ, zero, suc, ◌+◌, ◌≤◌, ◌<◌, ◌≡◌, ◌⊎◌, inl, inr, refl, sym,
  false, Option, some, List, [], ◌∷◌, ◌++◌, map, arith, ◌==◌, ==_iff, Bool-cases, get_elem?, set,
  if◌then◌else◌,
}
use whirl_matrix.Fs.Table.{find_fd}
use whirl_matrix.Memory.{class_of, drop_headers}

abbrev pub Stacked : ℕ → List (ℕ × ℕ) → Type 0
Stacked top [] = Unit
Stacked top ((x, size) ∷ blocks) = (x + 16 + size ≤ top) × Stacked x blocks

abbrev pub occ : ℕ → List ℕ → ℕ
occ x = count_where (λ y. y == x)

abbrev pub addresses : List (ℕ × ℕ) → List ℕ
addresses = map (λ (b : ℕ × ℕ). b.0)

pub below_top :
    (top x s : ℕ) (blocks : List (ℕ × ℕ))
    → Stacked top blocks
    → find_fd x blocks ≡ some s
    → x + 16 + s ≤ top
unfolding find_fd
below_top top x s [] h e = cc
below_top top x s ((y, size) ∷ blocks) (h, hs) e = elim (Bool-cases (y == x)) [
  | inl f ↦
      let here : ◌≡◌ {A = Option ℕ} (some size) (some s) = ground (arith, f) in
      ground (arith, ==_iff y x, some_inj here)
  | inr f ↦
      let found : find_fd x blocks ≡ some s = ground (arith, f) in
      omega (arith, h, below_top y x s blocks hs found)
]

pub apart :
    (top x y s t : ℕ) (blocks : List (ℕ × ℕ))
    → Stacked top blocks
    → find_fd x blocks ≡ some s
    → find_fd y blocks ≡ some t
    → (x == y) ≡ false
    → (x + 16 + s ≤ y) ⊎ (y + 16 + t ≤ x)
unfolding find_fd
apart top x y s t [] h e f d = cc
apart top x y s t ((z, size) ∷ blocks) (h, hs) e f d = elim (Bool-cases (z == x)) [
  | inl g ↦
      let same : z ≡ x = ground (arith, ==_iff z x) in
      let other : find_fd y blocks ≡ some t = ground (arith, same) in
      inr (omega (arith, same, below_top z y t blocks hs other))
  | inr g ↦
      let found : find_fd x blocks ≡ some s = ground (arith, g) in
      elim (Bool-cases (z == y)) [
        | inl k ↦
            let same : z ≡ y = ground (arith, ==_iff z y) in
            inl (omega (arith, same, below_top z x s blocks hs found))
        | inr k ↦
            let other : find_fd y blocks ≡ some t = ground (arith, k) in
            apart z x y s t blocks hs found other d
      ]
]

pub none_above :
    (top x : ℕ) (blocks : List (ℕ × ℕ))
    → Stacked top blocks
    → top ≤ x
    → occ x (addresses blocks) ≡ 0
none_above top x [] h k = refl
none_above top x ((y, size) ∷ blocks) (h, hs) k =
    let rest = none_above y x blocks hs (omega arith) in ground (arith, rest)

pub at_most_once :
    (top x : ℕ) (blocks : List (ℕ × ℕ)) → Stacked top blocks → occ x (addresses blocks) ≤ 1
at_most_once top x [] h = omega arith
at_most_once top x ((y, size) ∷ blocks) (h, hs) = elim (Bool-cases (y == x)) [
  | inl e ↦
      let late : y ≤ x = ground (arith, ==_iff y x) in
      rw (e, occ) (omega (arith, none_above y x blocks hs late))
  | inr e ↦ rw (e, occ) (omega (arith, at_most_once y x blocks hs))
]

-- The list of all free blocks.
abbrev pub concat : List (List ℕ) → List ℕ
concat [] = []
concat (l ∷ ls) = l ++ concat ls

pub occ-set :
    (x k : ℕ) (lists : List (List ℕ)) (old new : List ℕ)
    → get_elem? lists k ≡ some old
    → occ x (concat (set lists k new)) + occ x old ≡ occ x (concat lists) + occ x new
occ-set x k [] old new e = cc
occ-set x zero (l ∷ ls) old new e =
    let same : l ≡ old = some_inj e in
    rw (sym same) (
      omega (
        arith,
        count-append (λ y. y == x) new (concat ls),
        count-append (λ y. y == x) l (concat ls),
      ))
occ-set x (suc k) (l ∷ ls) old new e = omega (
  arith,
  count-append (λ y. y == x) l (concat (set ls k new)),
  count-append (λ y. y == x) l (concat ls),
  occ-set x k ls old new e,
)

pub drop-keeps :
    (lo hi y : ℕ) (headers : List (ℕ × ℕ))
    → y < lo
    → find_fd y (drop_headers lo hi headers) ≡ find_fd y headers
unfolding find_fd drop_headers
drop-keeps lo hi y [] h = refl
drop-keeps lo hi y ((x, size) ∷ headers) h = ground (arith, drop-keeps lo hi y headers, ==_iff x y)

-- The size of the blocks of a class.
abbrev pub size_of : ℕ → ℕ
size_of k =
    if k == 1
    then 16
    else if k == 2
    then 32
    else if k == 3
    then 64
    else if k == 4
    then 128
    else if k == 5
    then 256
    else if k == 6
    then 512
    else if k == 7
    then 1024
    else if k == 8
    then 2048
    else if k == 9
    then 4096
    else 8192

pub class-size : (n k : ℕ) → class_of n ≡ k → (k == 0) ≡ false → n ≡ size_of k
unfolding class_of
class-size n k e h = ground (arith, e, h)

-- ===== src/Fs/Paths.antt =====
-- FileSystem::PathAppend, PathSplit, RootPath and TmpPath. A path is the list of its bytes.
use mathlib.Core.List.{append_assoc}
use whirl_matrix.Base.{
  ℕ, suc, ◌+◌, ◌≡◌, ◌≢◌, refl, ap, ◌∙◌, Bool, true, false, Bool-cases, inl, inr, Option, none, some,
  List, [], ◌∷◌, ◌++◌, arith, ◌==◌, if◌then◌else◌, length, take, drop, All,
}

abbrev pub slash : ℕ
slash = b'/'

unfoldable pub root_path : List ℕ
root_path = slash ∷ []

unfoldable pub tmp_path : List ℕ
tmp_path = slash ∷ b't' ∷ b'm' ∷ b'p' ∷ []

unfoldable pub ends_with : ℕ → List ℕ → Bool
ends_with c [] = false
ends_with c (x ∷ []) = x == c
ends_with c (x ∷ y ∷ l) = ends_with c (y ∷ l)

unfoldable pub path_append : List ℕ → List ℕ → List ℕ
unfolding ends_with
path_append base_path name =
    if ends_with slash base_path then base_path ++ name else base_path ++ slash ∷ name

-- std::string_view::find_last_of a character.
unfoldable pub find_last_of : ℕ → List ℕ → Option ℕ
find_last_of c [] = none
find_last_of c (x ∷ l) = elim (find_last_of c l) [
  | some i ↦ some (suc i)
  | none ↦ if x == c then some 0 else none
]

-- The directory and the name; without a slash, the whole path and no name.
unfoldable pub path_split : List ℕ → List ℕ × List ℕ
unfolding find_last_of
path_split path = elim (find_last_of slash path) [
  | some split_pos ↦ (take split_pos path, drop (split_pos + 1) path)
  | none ↦ (path, [])
]

-- No slash in the name.
abbrev pub IsName : List ℕ → Type 0
IsName = All λ c. c ≢ slash

find_last_of-name : (name : List ℕ) → IsName name → find_last_of slash name ≡ none
unfolding find_last_of
find_last_of-name [] h = refl
find_last_of-name (x ∷ l) h = ground (arith, find_last_of-name l h.1)

find_last_of-append :
    (dir name : List ℕ) → IsName name → find_last_of slash (dir ++ slash ∷ name) ≡ some (length dir)
unfolding find_last_of
find_last_of-append [] name h = rw (find_last_of-name name h, find_last_of) refl
find_last_of-append (x ∷ dir) name h = rw (find_last_of-append dir name h, find_last_of) refl

take-length : (l r : List ℕ) → take (length l) (l ++ r) ≡ l
take-length [] r = refl
take-length (x ∷ l) r = ap (◌∷◌ x) (take-length l r)

drop-length : (l r : List ℕ) (c : ℕ) → drop (length l + 1) (l ++ c ∷ r) ≡ r
drop-length [] r c = refl
drop-length (x ∷ l) r c =
    let e : suc (length l) + 1 ≡ suc (length l + 1) = omega arith in rw e (drop-length l r c)

path_split-slash :
    (dir name : List ℕ) → IsName name → path_split (dir ++ slash ∷ name) ≡ (dir, name)
unfolding path_split
path_split-slash dir name h =
    rw (find_last_of-append dir name h, path_split)
      (rw (take-length dir (slash ∷ name), drop-length dir name slash) refl)

-- What stands before a slash at the end.
unfoldable pub strip_slash : List ℕ → List ℕ
strip_slash [] = []
strip_slash (x ∷ []) = if x == slash then [] else x ∷ []
strip_slash (x ∷ y ∷ l) = x ∷ strip_slash (y ∷ l)

strip_slash-lem :
    (base : List ℕ) → ends_with slash base ≡ true → base ≡ strip_slash base ++ slash ∷ []
unfolding strip_slash ends_with
strip_slash-lem [] h = cc
strip_slash-lem (x ∷ []) h = ground arith
strip_slash-lem (x ∷ y ∷ l) h = ap (◌∷◌ x) (strip_slash-lem (y ∷ l) h)

strip_slash_none : (base : List ℕ) → ends_with slash base ≡ false → strip_slash base ≡ base
unfolding strip_slash ends_with
strip_slash_none [] h = refl
strip_slash_none (x ∷ []) h = ground arith
strip_slash_none (x ∷ y ∷ l) h = ap (◌∷◌ x) (strip_slash_none (y ∷ l) h)

-- Splitting a path that was put together from a directory and a name without a slash gives them
-- back, the directory without the slash at its end.
pub path_split-path_append :
    (base name : List ℕ)
    → IsName name
    → path_split (path_append base name) ≡ (strip_slash base, name)
unfolding path_append
path_split-path_append base name h = elim (Bool-cases (ends_with slash base)) [
  | inl e ↦
      rw (e, path_append)
        (ap (λ (l : List ℕ). path_split (l ++ name)) (strip_slash-lem base e)
          ∙ ap path_split (append_assoc (strip_slash base) (slash ∷ []) name)
          ∙ path_split-slash (strip_slash base) name h)
  | inr e ↦ rw (e, path_append) (rw (strip_slash_none base e) (path_split-slash base name h))
]

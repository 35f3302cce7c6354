-- ===== src/Fs/Descriptors.antt =====
-- FileSystem::Append and FileSystem::Read: what a process sees of its files through descriptors.
use Prim.Native.String.{String}
use whirl_matrix.Base.{
  ℕ, zero, suc, ◌+◌, ◌<◌, ◌≡◌, refl, sym, ap, ◌∙◌, Bool, true, false, Option, none, some,
  Option-cases, inl, inr, List, [], ◌∷◌, ◌++◌, arith, ◌==◌, if◌then◌else◌, length, length-append,
  set, get_elem?-set, take, drop, ok, ◌>>=◌,
}
use whirl_matrix.Fs.Contents.{File, Reader, file_append, p_read_lem, bytes-file_append}
use whirl_matrix.Fs.Table.{find, find_fd, set_fd, find_fd-set_fd, set_fd-set_fd}
use whirl_matrix.Fs.{
  read, append, OpenedFile, FileSystem, object, object_in, get_opened_file, mode_eq, read_file,
  append_file, update_object,
}
use whirl_matrix.Fs.Links.{IsLinked}

-- The bytes at a path.
unfoldable pub content : String → FileSystem → Option (List ℕ)
content p fs = elim (find p fs.files) [ none ↦ none | some f ↦ some (object f fs).bytes ]

-- The path leads to this file.
unfoldable pub leads_to : String → ℕ → FileSystem → Bool
leads_to p f fs = elim (find p fs.files) [ none ↦ false | some g ↦ g == f ]

pub object_in-set :
    (l : List File) (f g : ℕ) (o : File)
    → f < length l
    → object_in (set l f o) g ≡ (if f == g then o else object_in l g)
unfolding object_in
object_in-set l f g o h = ground (arith, get_elem?-set l f g o h)

abbrev pub extended : List ℕ → Option (List ℕ) → Option (List ℕ)
extended bytes none = none
extended bytes (some old) = some (old ++ bytes)

content-update_object :
    (p : String) (f : ℕ) (o : File) (fs : FileSystem)
    → f < length fs.objects
    → content p (update_object f o fs) ≡ (if leads_to p f fs then some o.bytes else content p fs)
unfolding content leads_to update_object object
content-update_object p f o fs h = elim (Option-cases (find p fs.files)) [
  | inl e ↦ ground arith
  | inr (g, e) ↦ ground (arith, object_in-set fs.objects f g o h)
]

-- Where the path leads to the file, its bytes are the content.
content-leads_to :
    (p : String) (f : ℕ) (fs : FileSystem)
    → leads_to p f fs ≡ true
    → content p fs ≡ some (object f fs).bytes
unfolding content leads_to
content-leads_to p f fs h = elim (Option-cases (find p fs.files)) [
  | inl e ↦ ground arith
  | inr (g, e) ↦ ground (arith, ap (λ (x : ℕ). (object x fs).bytes) {x = g} {y = f})
]

pub append_file_opened :
    (fd : ℕ) (bytes : List ℕ) (o : OpenedFile) (fs : FileSystem)
    → find_fd fd fs.opened_files ≡ some o
    → o.mode ≡ append
    → append_file fd bytes fs ≡ ok (update_object o.file (file_append bytes (object o.file fs)) fs)
unfolding append_file get_opened_file mode_eq
append_file_opened fd bytes o fs e m = rw (e, ◌>>=◌) (rw (m, mode_eq) refl)

-- An append through a descriptor that is open for it succeeds: the bytes go behind those of the
-- file that the descriptor was opened on, if a path still leads to it. The contents of all other
-- paths and the open descriptors stay as they are.
pub append_file_lem :
    (fd : ℕ) (bytes : List ℕ) (o : OpenedFile) (fs : FileSystem)
    → IsLinked fs
    → find_fd fd fs.opened_files ≡ some o
    → o.mode ≡ append
    → (fs' : FileSystem) × (append_file fd bytes fs ≡ ok fs')
      × (fs'.opened_files ≡ fs.opened_files)
      × ((p : String)
          → content p fs'
            ≡ (if leads_to p o.file fs then extended bytes (content p fs) else content p fs))
append_file_lem fd bytes o fs v e m = (
  update_object o.file (file_append bytes (object o.file fs)) fs,
  append_file_opened fd bytes o fs e m,
  unfold update_object in refl,
  λ p. ground (
    arith,
    content-update_object p o.file (file_append bytes (object o.file fs)) fs
        (v.opened_linked fd o e),
    content-leads_to p o.file fs,
    bytes-file_append bytes (object o.file fs),
  ),
)

take-nil : (n : ℕ) → ◌≡◌ {A = List ℕ} (take n []) []
take-nil zero = refl
take-nil (suc n) = refl

drop-nil : (n : ℕ) → ◌≡◌ {A = List ℕ} (drop n []) []
drop-nil zero = refl
drop-nil (suc n) = refl

take-suc : (a b x : ℕ) (l : List ℕ) → take (suc a + b) (x ∷ l) ≡ x ∷ take (a + b) l
take-suc a b x l = let e : suc a + b ≡ suc (a + b) = omega arith in rw e

drop-suc : (a b x : ℕ) (l : List ℕ) → drop (suc b + a) (x ∷ l) ≡ drop (b + a) l
drop-suc a b x l = let e : suc b + a ≡ suc (b + a) = omega arith in rw e

take-take-drop :
    (a b : ℕ) (l : List ℕ) → take a l ++ take b (drop (length (take a l)) l) ≡ take (a + b) l
take-take-drop zero b l = let e : 0 + b ≡ b = omega arith in rw e
take-take-drop (suc a) b [] = rw (take-nil b, take-nil (suc a + b))
take-take-drop (suc a) b (x ∷ l) = rw (take-suc a b x l) (ap (◌∷◌ x) (take-take-drop a b l))

drop-drop : (a b : ℕ) (l : List ℕ) → drop a (drop b l) ≡ drop (b + a) l
drop-drop a zero l = let e : 0 + a ≡ a = omega arith in rw e
drop-drop a (suc b) [] = rw (drop-nil a, drop-nil (suc b + a))
drop-drop a (suc b) (x ∷ l) = rw (drop-suc a b x l) (drop-drop a b l)

-- The state after a read of so many bytes.
abbrev moved : ℕ → OpenedFile → ℕ → FileSystem → FileSystem
moved fd o n fs = record fs {
  opened_files = set_fd fd (record o { offset = o.offset + n }) fs.opened_files;
}

-- What a read through a descriptor gives and leaves.
pub read_file_lem :
    (r : Reader) (fd n : ℕ) (o : OpenedFile) (fs : FileSystem) (bytes : List ℕ)
    → find_fd fd fs.opened_files ≡ some o
    → o.mode ≡ read
    → take n (drop o.offset (object o.file fs).bytes) ≡ bytes
    → read_file r fd n fs ≡ ok (bytes, moved fd o (length bytes) fs)
unfolding read_file get_opened_file
read_file_lem r fd n o fs bytes e m q =
    rw (e, ◌>>=◌) (rw (m, mode_eq) (rw (p_read_lem r o.offset n (object o.file fs), q) refl))

moved-moved :
    (fd a b : ℕ) (o : OpenedFile) (fs : FileSystem)
    → moved fd (record o { offset = o.offset + a }) b (moved fd o a fs) ≡ moved fd o (a + b) fs
moved-moved fd a b o fs =
    let e : o.offset + a + b ≡ o.offset + (a + b) = omega arith in
    rw
      (
        e,
        set_fd-set_fd fd (record o { offset = o.offset + (a + b) })
            (record o { offset = o.offset + a }) fs.opened_files,
      )
      refl

-- Two reads in a row through one descriptor give, one after the other, the bytes that one read of
-- both sizes gives, and leave the same state.
pub read_file_twice :
    (r : Reader) (fd a b : ℕ) (o : OpenedFile) (fs : FileSystem)
    → find_fd fd fs.opened_files ≡ some o
    → o.mode ≡ read
    → (xs : List ℕ) × (ys : List ℕ) × (fs1 : FileSystem) × (fs2 : FileSystem) × (read_file r fd a fs
        ≡ ok (xs, fs1))
      × (read_file r fd b fs1 ≡ ok (ys, fs2))
      × (read_file r fd (a + b) fs ≡ ok (xs ++ ys, fs2))
read_file_twice r fd a b o fs e m =
    let l = (object o.file fs).bytes in
    let xs = take a (drop o.offset l) in
    let o1 : OpenedFile = record o { offset = o.offset + length xs } in
    let ys = take b (drop (o.offset + length xs) l) in
    let both : take (a + b) (drop o.offset l) ≡ xs ++ ys =
      sym (take-take-drop a b (drop o.offset l))
      ∙ ap (λ t. xs ++ take b t) (drop-drop (length xs) o.offset l) in
    let fs1 = moved fd o (length xs) fs in
    let again : find_fd fd fs1.opened_files ≡ some o1 =
      ground (arith, find_fd-set_fd fd fd o1 o fs.opened_files e) in
    (
      xs,
      ys,
      fs1,
      moved fd o1 (length ys) fs1,
      read_file_lem r fd a o fs xs e m refl,
      read_file_lem r fd b o1 fs1 ys again m (unfold object in refl),
      read_file_lem r fd (a + b) o fs (xs ++ ys) e m both
          ∙ ap (λ (n : ℕ). ok (xs ++ ys, moved fd o n fs)) (length-append xs ys)
          ∙ ap (λ t. ok (xs ++ ys, t)) (sym (moved-moved fd (length xs) (length ys) o fs)),
    )

-- ===== src/Fs/Calls.antt =====
-- Every call of the file system keeps its references in order.
use Prim.Native.String.{String}
use mathlib.Core.Path.{subst}
use whirl_matrix.Base.{
  ℕ, ◌≡◌, Bool, true, false, some, Option-cases, inl, inr, List, [], ◌∷◌, arith, Outcome, ok, panic,
  ◌>>=◌, ◌>>◌, verify, Outcome-cases,
}
use whirl_matrix.Fs.Contents.{Reader}
use whirl_matrix.Fs.Table.{find, find_fd, set_fd, find_fd-set_fd}
use whirl_matrix.Fs.{
  FileMode, read, OpenedFile, FileSystem, open_file, get_opened_file, mode_eq, read_file,
  append_file, close, create, truncate, unlink, reset, find_existing_file,
}
use whirl_matrix.Fs.Links.{
  IsLinked, reset-IsLinked, unlink-IsLinked, update_object-IsLinked, close-opened,
  open_file-IsLinked, create-IsLinked,
}

-- What a call that may end the process leaves.
abbrev pub Keeps : Outcome FileSystem → Type 0
Keeps (ok fs) = IsLinked fs
Keeps panic = Unit

moved-IsLinked :
    (k offset : ℕ) (x : OpenedFile) (fs : FileSystem)
    → find_fd k fs.opened_files ≡ some x
    → IsLinked fs
    → IsLinked
        (record fs { opened_files = set_fd k (record x { offset = offset }) fs.opened_files })
moved-IsLinked k offset x fs h v = record {
  files_linked = v.files_linked;
  apart = v.apart;
  opened_linked = λ fd o e. ground (
    arith,
    find_fd-set_fd k fd (record x { offset = offset }) x fs.opened_files h,
    v.opened_linked fd o,
    v.opened_linked k x h,
  );
  fds_below = λ fd o e. ground (
    arith,
    find_fd-set_fd k fd (record x { offset = offset }) x fs.opened_files h,
    v.fds_below fd o,
    v.fds_below k x h,
  );
}

Keeps-verify : (b : Bool) (fs : FileSystem) → IsLinked fs → Keeps (verify b >> ok fs)
Keeps-verify true fs v = v
Keeps-verify false fs v = tt

append_file-IsLinked :
    (fd : ℕ) (bytes : List ℕ) (fs : FileSystem) → IsLinked fs → Keeps (append_file fd bytes fs)
unfolding append_file get_opened_file
append_file-IsLinked fd bytes fs v = elim (Option-cases (find_fd fd fs.opened_files)) [
  | inl e ↦ rw (e, ◌>>=◌) tt
  | inr (o, e) ↦ rw (e, ◌>>=◌) (Keeps-verify _ _ (update_object-IsLinked o.file _ fs v))
]

truncate-IsLinked : (k : String) (n : ℕ) (fs : FileSystem) → IsLinked fs → Keeps (truncate k n fs)
unfolding truncate find_existing_file
truncate-IsLinked k n fs v = elim (Option-cases (find k fs.files)) [
  | inl e ↦ rw (e, ◌>>=◌) tt
  | inr (f, e) ↦ rw (e, ◌>>=◌) (update_object-IsLinked f _ fs v)
]

close-IsLinked : (fd : ℕ) (fs : FileSystem) → IsLinked fs → Keeps (close fd fs)
unfolding close
close-IsLinked fd fs v = elim (Option-cases (find_fd fd fs.opened_files)) [
  | inl e ↦ rw (e, close) tt
  | inr (o, e) ↦ rw (e, close) (close-opened fd fs v)
]

-- The state that a read leaves.
pub read_state : Reader → ℕ → ℕ → FileSystem → Outcome FileSystem
read_state r fd size fs = read_file r fd size fs >>= λ x. ok x.1

Keeps-verify_read :
    (b : Bool) (x : List ℕ) (fs : FileSystem)
    → IsLinked fs
    → Keeps (◌>>=◌ {A = List ℕ × FileSystem} (verify b >> ok (x, fs)) (λ y. ok y.1))
Keeps-verify_read true x fs v = v
Keeps-verify_read false x fs v = tt

read_state-IsLinked :
    (r : Reader) (fd size : ℕ) (fs : FileSystem) → IsLinked fs → Keeps (read_state r fd size fs)
unfolding read_state read_file get_opened_file
read_state-IsLinked r fd size fs v = elim (Option-cases (find_fd fd fs.opened_files)) [
  | inl e ↦ rw (e, ◌>>=◌) tt
  | inr (o, e) ↦
      rw (e, ◌>>=◌) (Keeps-verify_read (mode_eq o.mode read) _ _ (moved-IsLinked fd _ o fs e v))
]

-- The calls of a process, and the crash of its server.
pub data Call : Type 0 where
  opens : String → FileMode → Call
  reads : ℕ → ℕ → Call
  appends : ℕ → List ℕ → Call
  closes : ℕ → Call
  creates : String → Call
  truncates : String → ℕ → Call
  unlinks : String → Call
  crashes : Call

unfoldable pub step : Reader → Call → FileSystem → Outcome FileSystem
unfolding read_state
step r (opens p m) fs = ok (open_file p m fs).1
step r (reads fd size) fs = read_state r fd size fs
step r (appends fd bytes) fs = append_file fd bytes fs
step r (closes fd) fs = close fd fs
step r (creates p) fs = ok (create p fs).1
step r (truncates p n) fs = truncate p n fs
step r (unlinks p) fs = ok (unlink p fs)
step r crashes fs = ok (reset fs)

unfoldable pub run : Reader → List Call → FileSystem → Outcome FileSystem
unfolding step
run r [] fs = ok fs
run r (c ∷ cs) fs = step r c fs >>= run r cs

step-IsLinked : (r : Reader) (c : Call) (fs : FileSystem) → IsLinked fs → Keeps (step r c fs)
unfolding step
step-IsLinked r (opens p m) fs v = open_file-IsLinked p m fs v
step-IsLinked r (reads fd size) fs v = read_state-IsLinked r fd size fs v
step-IsLinked r (appends fd bytes) fs v = append_file-IsLinked fd bytes fs v
step-IsLinked r (closes fd) fs v = close-IsLinked fd fs v
step-IsLinked r (creates p) fs v = create-IsLinked p fs v
step-IsLinked r (truncates p n) fs v = truncate-IsLinked p n fs v
step-IsLinked r (unlinks p) fs v = unlink-IsLinked p fs v
step-IsLinked r crashes fs v = reset-IsLinked fs v

-- After any calls and crashes that do not end the process, every path and every open descriptor
-- leads to a file, no two paths lead to the same one, and no descriptor in use is above the counter
-- from which the next one is taken.
pub run-IsLinked :
    (r : Reader) (cs : List Call) (fs fs' : FileSystem)
    → IsLinked fs
    → run r cs fs ≡ ok fs'
    → IsLinked fs'
unfolding run
run-IsLinked r [] fs fs' v e = let same : fs ≡ fs' = cc in subst IsLinked same v
run-IsLinked r (c ∷ cs) fs fs' v q = elim (Outcome-cases (step r c fs)) [
  | inl p ↦ cc (p, q)
  | inr (fs1, p) ↦ run-IsLinked r cs fs1 fs' (subst Keeps p (step-IsLinked r c fs v)) (rw p at q)
]

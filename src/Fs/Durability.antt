-- ===== src/Fs/Durability.antt =====
-- What is written survives a crash and is read back after it.
use Prim.Native.String.{String}
use text.Mathlib.TextPositions.{eq_refl}
use whirl_matrix.Base.{
  ℕ, ◌+◌, ◌<◌, ◌≡◌, refl, sym, ap, ◌∙◌, Option, none, some, Option-cases, inl, inr, List, [], ◌∷◌,
  ◌++◌, arith, ==_refl, length, length-append, get_elem?-append, take, Outcome, ok, panic, ◌>>=◌,
}
use whirl_matrix.Fs.Contents.{Reader, new_file, file_append, p_read_lem, bytes-file_append}
use whirl_matrix.Fs.Table.{find, find-insert, find_fd}
use whirl_matrix.Fs.{
  FileMode, read, append, OpenedFile, FileSystem, init_offset, object, object_in, add_file, open_at,
  open_file, read_file, append_file, reset, update_object,
}
use whirl_matrix.Fs.Links.{IsLinked, open_file-found, open_file-new}
use whirl_matrix.Fs.Descriptors.{content, append_file_opened, object_in-set}

-- `ExpectOk` on the result of Open.
abbrev expect_ok : Option ℕ × FileSystem → Outcome (ℕ × FileSystem)
expect_ok (none, fs) = panic
expect_ok (some fd, fs) = ok (fd, fs)

-- Append to the file, crash, and read from its start.
unfoldable pub write_crash_read : Reader → String → List ℕ → ℕ → FileSystem → Outcome (List ℕ)
unfolding open_file append_file reset read_file
write_crash_read r p bytes n fs = do
  (fd, fs1) ← expect_ok (open_file p append fs)
  fs2 ← append_file fd bytes fs1
  (fd', fs3) ← expect_ok (open_file p read (reset fs2))
  (found, fs4) ← read_file r fd' n fs3
  ok found

-- The descriptor that is given out, with what it stands for.
opened : String → FileMode → ℕ → FileSystem → OpenedFile
opened p m f fs = record {
  fd = fs.next_fd + 1;
  path = p;
  mode = m;
  offset = init_offset f m fs;
  file = f;
}

find_fd-open_at :
    (p : String) (m : FileMode) (f : ℕ) (fs : FileSystem)
    → find_fd (fs.next_fd + 1) (open_at p m f fs).1.opened_files ≡ some (opened p m f fs)
unfolding open_at find_fd opened
find_fd-open_at p m f fs = rw (==_refl (fs.next_fd + 1))

append_opened :
    (p : String) (f : ℕ) (bytes : List ℕ) (fs : FileSystem)
    → append_file (fs.next_fd + 1) bytes (open_at p append f fs).1
      ≡ ok (update_object f (file_append bytes (object f fs)) (open_at p append f fs).1)
append_opened p f bytes fs =
    unfold opened open_at object in
    append_file_opened (fs.next_fd + 1) bytes (opened p append f fs) (open_at p append f fs).1
      (find_fd-open_at p append f fs) refl

write_crash_read-found :
    (r : Reader) (p : String) (bytes : List ℕ) (n f : ℕ) (fs : FileSystem)
    → find p fs.files ≡ some f
    → f < length fs.objects
    → write_crash_read r p bytes n fs ≡ ok (take n ((object f fs).bytes ++ bytes))
unfolding write_crash_read open_at
write_crash_read-found r p bytes n f fs e h =
    let o = file_append bytes (object f fs) in
    let after = reset (update_object f o (open_at p append f fs).1) in
    let written : (object f after).bytes ≡ (object f fs).bytes ++ bytes =
      unfold object update_object reset open_at in
      rw (object_in-set fs.objects f f o h, ==_refl f) (bytes-file_append bytes (object f fs)) in
    rw (open_file-found p append f fs e) (
      rw (append_opened p f bytes fs) (
        rw (open_file-found p read f after e)
          (ap ok (p_read_lem r 0 n (object f after) ∙ ap (take n) written))))

-- Of the bytes at a path, none if nothing is there.
abbrev pub bytes_at : String → FileSystem → List ℕ
bytes_at p fs = elim (content p fs) [ none ↦ [] | some l ↦ l ]

-- A new file is empty, and a path leads to it.
added :
    (p : String) (fs : FileSystem)
    → find p fs.files ≡ none
    → (find p (add_file p fs).1.files ≡ some (add_file p fs).0)
      × ((add_file p fs).0 < length (add_file p fs).1.objects)
      × ((object (add_file p fs).0 (add_file p fs).1).bytes ≡ [])
unfolding add_file object object_in new_file
added p fs e = (
  rw (find-insert p p (length fs.objects) fs.files e, eq_refl p) refl,
  omega (arith, length-append fs.objects (new_file ∷ [])),
  ground (arith, get_elem?-append fs.objects new_file (length fs.objects)),
)

write_crash_read-new :
    (r : Reader) (p : String) (bytes : List ℕ) (n : ℕ) (fs : FileSystem)
    → find p fs.files ≡ none
    → write_crash_read r p bytes n fs ≡ write_crash_read r p bytes n (add_file p fs).1
unfolding write_crash_read
write_crash_read-new r p bytes n fs e =
    let there = (added p fs e).0 in
    rw (open_file-new p fs e, open_file-found p append (add_file p fs).0 (add_file p fs).1 there)
      refl

bytes_at-found :
    (p : String) (f : ℕ) (fs : FileSystem)
    → find p fs.files ≡ some f
    → bytes_at p fs ≡ (object f fs).bytes
unfolding content
bytes_at-found p f fs e = ground arith

bytes_at-missing : (p : String) (fs : FileSystem) → find p fs.files ≡ none → bytes_at p fs ≡ []
unfolding content
bytes_at-missing p fs e = ground arith

-- What is appended to a file is there after a crash: appending to a path that may be new, crashing,
-- and reading from the start succeeds, and gives the first bytes of the old content followed by the
-- appended bytes, as many as are asked for.
pub write_crash_read_lem :
    (r : Reader) (p : String) (bytes : List ℕ) (n : ℕ) (fs : FileSystem)
    → IsLinked fs
    → write_crash_read r p bytes n fs ≡ ok (take n (bytes_at p fs ++ bytes))
write_crash_read_lem r p bytes n fs v = elim (Option-cases (find p fs.files)) [
  | inl e ↦
      let (there, linked, nothing) = added p fs e in
      write_crash_read-new r p bytes n fs e
      ∙ write_crash_read-found r p bytes n (add_file p fs).0 (add_file p fs).1 there linked
      ∙ ap (λ (l : List ℕ). ok (take n (l ++ bytes))) (nothing ∙ sym (bytes_at-missing p fs e))
  | inr (f, e) ↦
      write_crash_read-found r p bytes n f fs e (v.files_linked p f e)
      ∙ ap (λ (l : List ℕ). ok (take n (l ++ bytes))) (sym (bytes_at-found p f fs e))
]

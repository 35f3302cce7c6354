-- ===== src/Fs/Links.antt =====
-- The references of the file system: when none dangles, no two paths share a file, and the open descriptors are
-- below the next one.
use Prim.Native.String.{String}
use text.Mathlib.TextEquality.{eq_iff}
use whirl_matrix.Base.{
  ℕ, ◌≤◌, ◌<◌, ◌≡◌, true, false, none, some, Option-cases, inl, inr, [], ◌∷◌, arith, length,
  length-append, length-set,
}
use whirl_matrix.Fs.Contents.{File, new_file}
use whirl_matrix.Fs.Table.{
  find, contains, find-insert, find-erase, find_fd, erase_fd, find_fd-erase_fd,
}
use whirl_matrix.Fs.{
  FileMode, read, append, OpenedFile, FileSystem, empty, add_file, find_or_create_file, open_at,
  open_file, create, unlink, reset, update_object,
}

pub record IsLinked (fs : FileSystem) : Type 0 where
  pub files_linked : (p : String) (f : ℕ) → find p fs.files ≡ some f → f < length fs.objects
  pub apart : (p q : String) (f : ℕ) → find p fs.files ≡ some f → find q fs.files ≡ some f → p ≡ q
  pub opened_linked :
      (fd : ℕ) (o : OpenedFile) → find_fd fd fs.opened_files ≡ some o → o.file < length fs.objects
  pub fds_below : (fd : ℕ) (o : OpenedFile) → find_fd fd fs.opened_files ≡ some o → fd ≤ fs.next_fd

pub empty-IsLinked : IsLinked empty
unfolding empty find find_fd
empty-IsLinked = record {
  files_linked = λ p f e. cc;
  apart = λ p q f e. cc;
  opened_linked = λ fd o e. cc;
  fds_below = λ fd o e. cc;
}

pub reset-IsLinked : (fs : FileSystem) → IsLinked fs → IsLinked (reset fs)
unfolding reset find_fd
reset-IsLinked fs v = record {
  files_linked = v.files_linked;
  apart = v.apart;
  opened_linked = λ fd o e. cc;
  fds_below = λ fd o e. cc;
}

pub unlink-IsLinked : (p : String) (fs : FileSystem) → IsLinked fs → IsLinked (unlink p fs)
unfolding unlink
unlink-IsLinked k fs v = record {
  files_linked = λ p f e. ground (arith, find-erase k p fs.files, v.files_linked p f);
  apart =
      λ p q f e d. ground (arith, find-erase k p fs.files, find-erase k q fs.files, v.apart p q f);
  opened_linked = v.opened_linked;
  fds_below = v.fds_below;
}

pub update_object-IsLinked :
    (f : ℕ) (o : File) (fs : FileSystem) → IsLinked fs → IsLinked (update_object f o fs)
unfolding update_object
update_object-IsLinked g x fs v = record {
  files_linked = λ p f e. rw (length-set fs.objects g x) (v.files_linked p f e);
  apart = v.apart;
  opened_linked = λ fd o e. rw (length-set fs.objects g x) (v.opened_linked fd o e);
  fds_below = v.fds_below;
}

pub add_file-IsLinked :
    (k : String) (fs : FileSystem)
    → find k fs.files ≡ none
    → IsLinked fs
    → IsLinked (add_file k fs).1
unfolding add_file
add_file-IsLinked k fs new v =
    let n = length fs.objects in
    let longer = length-append fs.objects (new_file ∷ []) in
    record {
      files_linked = λ p f e.
          rw longer
            (ground (arith, eq_iff k p, find-insert k p n fs.files new, v.files_linked p f));
      apart = λ p q f e d. ground (
        arith,
        eq_iff k p,
        eq_iff k q,
        find-insert k p n fs.files new,
        find-insert k q n fs.files new,
        v.files_linked p f,
        v.files_linked q f,
        v.apart p q f,
      );
      opened_linked = λ fd o e. rw longer (ground (arith, v.opened_linked fd o e));
      fds_below = v.fds_below;
    }

pub close-opened :
    (fd : ℕ) (fs : FileSystem)
    → IsLinked fs
    → IsLinked (record fs { opened_files = erase_fd fd fs.opened_files })
close-opened k fs v = record {
  files_linked = v.files_linked;
  apart = v.apart;
  opened_linked =
      λ fd o e. ground (arith, find_fd-erase_fd k fd fs.opened_files, v.opened_linked fd o);
  fds_below = λ fd o e. ground (arith, find_fd-erase_fd k fd fs.opened_files, v.fds_below fd o);
}

-- Open, by what it finds.
pub open_file-found :
    (k : String) (m : FileMode) (f : ℕ) (fs : FileSystem)
    → find k fs.files ≡ some f
    → open_file k m fs ≡ open_at k m f fs
unfolding open_file find_or_create_file
open_file-found k m f fs e = ground arith

pub open_file-missing :
    (k : String) (fs : FileSystem) → find k fs.files ≡ none → open_file k read fs ≡ (none, fs)
unfolding open_file find_or_create_file
open_file-missing k fs e = ground arith

pub open_file-new :
    (k : String) (fs : FileSystem)
    → find k fs.files ≡ none
    → open_file k append fs ≡ open_at k append (add_file k fs).0 (add_file k fs).1
unfolding open_file find_or_create_file
open_file-new k fs e = ground arith

open_at-IsLinked :
    (k : String) (m : FileMode) (f : ℕ) (fs : FileSystem)
    → f < length fs.objects
    → IsLinked fs
    → IsLinked (open_at k m f fs).1
unfolding open_at
open_at-IsLinked k m f fs here v = record {
  files_linked = v.files_linked;
  apart = v.apart;
  opened_linked = λ fd o e. unfold find_fd in ground (arith, v.opened_linked fd o);
  fds_below = λ fd o e. unfold find_fd in ground (arith, v.fds_below fd o);
}

add_file-linked :
    (k : String) (fs : FileSystem) → (add_file k fs).0 < length (add_file k fs).1.objects
unfolding add_file
add_file-linked k fs = omega (arith, length-append fs.objects (new_file ∷ []))

pub open_file-IsLinked :
    (k : String) (m : FileMode) (fs : FileSystem) → IsLinked fs → IsLinked (open_file k m fs).1
open_file-IsLinked k read fs v = elim (Option-cases (find k fs.files)) [
  | inl e ↦ rw (open_file-missing k fs e) v
  | inr (f, e) ↦
      rw (open_file-found k read f fs e) (open_at-IsLinked k read f fs (v.files_linked k f e) v)
]
open_file-IsLinked k append fs v = elim (Option-cases (find k fs.files)) [
  | inl e ↦
      rw (open_file-new k fs e)
        (open_at-IsLinked k append _ _ (add_file-linked k fs) (add_file-IsLinked k fs e v))
  | inr (f, e) ↦
      rw (open_file-found k append f fs e) (open_at-IsLinked k append f fs (v.files_linked k f e) v)
]

create-missing :
    (k : String) (fs : FileSystem)
    → find k fs.files ≡ none
    → create k fs ≡ (true, (add_file k fs).1)
unfolding create contains
create-missing k fs e = ground arith

create-found :
    (k : String) (f : ℕ) (fs : FileSystem) → find k fs.files ≡ some f → create k fs ≡ (false, fs)
unfolding create contains
create-found k f fs e = ground arith

pub create-IsLinked : (k : String) (fs : FileSystem) → IsLinked fs → IsLinked (create k fs).1
create-IsLinked k fs v = elim (Option-cases (find k fs.files)) [
  | inl e ↦ rw (create-missing k fs e) (add_file-IsLinked k fs e v)
  | inr (f, e) ↦ rw (create-found k f fs e) v
]

-- ===== src/Fs.antt =====
-- matrix/fs/fs.hpp and fs.cpp: the simulated file system of a server. A `std::shared_ptr<File>` is
-- an index into `objects`; a file stays there when its path is unlinked, for those who have it
-- open. A path is its text, `Path::Repr()`.
pub mod Contents
pub mod Table
pub mod Links
pub mod Calls
pub mod Descriptors
pub mod Errors
pub mod Durability
pub mod Paths
use Prim.Native.String.{String}
use whirl_matrix.Base.{
  ℕ, ◌+◌, Bool, true, false, Option, none, some, List, [], ◌∷◌, ◌++◌, ◌==◌, if◌then◌else◌, length,
  get_elem?, set, Outcome, ok, panic, ◌>>=◌, ◌>>◌, verify,
}
use whirl_matrix.Digest.{Hashes, new_digest, combine, eat_string}
use Contents.{File, Reader, new_file, file_size, file_truncate, file_append, p_read, file_digest}
use Table.{find, insert, erase, find_fd, erase_fd, set_fd, contains}

pub data FileMode : Type 0 where
  read append : FileMode

unfoldable pub mode_eq : FileMode → FileMode → Bool
mode_eq read read = true
mode_eq append append = true
mode_eq _ _ = false

pub record OpenedFile : Type 0 where
  pub fd : ℕ
  pub path : String
  pub mode : FileMode
  pub offset : ℕ
  pub file : ℕ

pub record FileSystem : Type 0 where
  pub objects : List File
  -- persistent
  pub files : List (String × ℕ)
  -- of the process
  pub opened_files : List (ℕ × OpenedFile)
  pub next_fd : ℕ

unfoldable pub empty : FileSystem
empty = record { objects = []; files = []; opened_files = []; next_fd = 0 }

unfoldable pub exists : String → FileSystem → Bool
unfolding contains
exists file_path fs = contains file_path fs.files

-- A new object, and its reference.
unfoldable pub create_file : FileSystem → ℕ × FileSystem
unfolding new_file
create_file fs = (length fs.objects, record fs { objects = fs.objects ++ new_file ∷ [] })

-- CreateFile and the insertion of the path.
unfoldable pub add_file : String → FileSystem → ℕ × FileSystem
unfolding create_file insert
add_file file_path fs =
    let (f, fs') = create_file fs in (f, record fs' { files = insert file_path f fs'.files })

unfoldable pub find_or_create_file : String → FileMode → FileSystem → Option ℕ × FileSystem
unfolding add_file find
find_or_create_file file_path open_mode fs = elim (find file_path fs.files) [
  | some f ↦ (some f, fs)
  | none ↦ elim open_mode [
    | append ↦ let (f, fs') = add_file file_path fs in (some f, fs')
    | read ↦ (none, fs)
  ]
]

unfoldable pub find_existing_file : String → FileSystem → Outcome ℕ
unfolding find
find_existing_file file_path fs = elim (find file_path fs.files) [ none ↦ panic | some f ↦ ok f ]

-- The object behind a reference. References are never dangling (`IsLinked`).
unfoldable pub object_in : List File → ℕ → File
unfolding new_file
object_in objects f = elim (get_elem? objects f) [ none ↦ new_file | some o ↦ o ]

unfoldable pub object : ℕ → FileSystem → File
unfolding object_in
object f fs = object_in fs.objects f

unfoldable pub update_object : ℕ → File → FileSystem → FileSystem
update_object f o fs = record fs { objects = set fs.objects f o }

unfoldable pub init_offset : ℕ → FileMode → FileSystem → ℕ
unfolding object file_size
init_offset f read fs = 0
init_offset f append fs = file_size (object f fs)

-- A new descriptor for the object.
unfoldable pub open_at : String → FileMode → ℕ → FileSystem → Option ℕ × FileSystem
unfolding init_offset
open_at file_path mode f fs =
    let fd = fs.next_fd + 1 in
    let opened : OpenedFile = record {
      fd = fd;
      path = file_path;
      mode = mode;
      offset = init_offset f mode fs;
      file = f;
    } in
    (some fd, record fs { next_fd = fd; opened_files = (fd, opened) ∷ fs.opened_files })

-- A file that is not there is an error for a reader: no descriptor.
unfoldable pub open_file : String → FileMode → FileSystem → Option ℕ × FileSystem
unfolding find_or_create_file open_at
open_file file_path mode fs =
    let (file, fs') = find_or_create_file file_path mode fs in
    elim file [ none ↦ (none, fs') | some f ↦ open_at file_path mode f fs' ]

unfoldable pub get_opened_file : ℕ → FileSystem → Outcome OpenedFile
unfolding find_fd
get_opened_file fd fs = elim (find_fd fd fs.opened_files) [ none ↦ panic | some o ↦ ok o ]

abbrev pub check_mode : OpenedFile → FileMode → Outcome (Unit {0})
check_mode o expected = verify (mode_eq o.mode expected)

unfoldable pub read_file : Reader → ℕ → ℕ → FileSystem → Outcome (List ℕ × FileSystem)
unfolding get_opened_file mode_eq object p_read set_fd
read_file r fd buffer_size fs = do
  o ← get_opened_file fd fs
  check_mode o read
  let bytes = p_read r o.offset buffer_size (object o.file fs)
  let moved : OpenedFile = record o { offset = o.offset + length bytes }
  ok (bytes, record fs { opened_files = set_fd fd moved fs.opened_files })

unfoldable pub append_file : ℕ → List ℕ → FileSystem → Outcome FileSystem
unfolding get_opened_file mode_eq object file_append update_object
append_file fd bytes fs = do
  o ← get_opened_file fd fs
  check_mode o append
  ok (update_object o.file (file_append bytes (object o.file fs)) fs)

unfoldable pub sync_dir : String → FileSystem → FileSystem
sync_dir dir fs = fs

unfoldable pub sync : ℕ → FileSystem → FileSystem
sync fd fs = fs

unfoldable pub close : ℕ → FileSystem → Outcome FileSystem
unfolding find_fd erase_fd
close fd fs = elim (find_fd fd fs.opened_files) [
  | none ↦ panic
  | some o ↦ ok (record fs { opened_files = erase_fd fd fs.opened_files })
]

unfoldable pub create : String → FileSystem → Bool × FileSystem
unfolding contains add_file
create file_path fs =
    if contains file_path fs.files then (false, fs) else (true, (add_file file_path fs).1)

unfoldable pub truncate : String → ℕ → FileSystem → Outcome FileSystem
unfolding find_existing_file object file_truncate update_object
truncate file_path new_size fs = do
  f ← find_existing_file file_path fs
  ok (update_object f (file_truncate new_size (object f fs)) fs)

unfoldable pub unlink : String → FileSystem → FileSystem
unfolding erase
unlink file_path fs = record fs { files = erase file_path fs.files }

-- On a crash of the server.
unfoldable pub reset : FileSystem → FileSystem
reset fs = record fs { opened_files = []; next_fd = 0 }

-- The fold of ComputeDigest over the files.
unfoldable pub digest_files : Hashes → List File → List (String × ℕ) → ℕ → ℕ
unfolding eat_string combine file_digest object_in
digest_files w objects [] digest = digest
digest_files w objects ((path, f) ∷ m) digest =
    digest_files w objects m
      (combine w (eat_string w digest path) (file_digest w (object_in objects f)))

unfoldable pub compute_digest : Hashes → FileSystem → ℕ
unfolding digest_files
compute_digest w fs = digest_files w fs.objects fs.files (new_digest w)

-- DirIterator: the paths that are left.
unfoldable pub list_all_files : FileSystem → List (String × ℕ)
list_all_files fs = fs.files

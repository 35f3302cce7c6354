-- ===== src/Tests/Files.antt =====
-- The file system with one file, and the database.
use Prim.Native.String.{String}
use whirl_matrix.Base.{All, true, ◌≡◌, refl, List, [], ◌∷◌, ◌++◌, take, arith, ok, if◌then◌else◌}
use whirl_matrix.Fs
use whirl_matrix.Fs.{FileSystem, OpenedFile, FileMode, read, append, read_file, append_file}
use whirl_matrix.Fs.Contents.{Reader}
use whirl_matrix.Fs.Links.{IsLinked, empty-IsLinked}
use whirl_matrix.Fs.Calls
use whirl_matrix.Fs.Calls.{Call, opens, appends, reads, crashes, run-IsLinked}
use whirl_matrix.Fs.Descriptors.{content, leads_to, extended, append_file_lem}
use whirl_matrix.Fs.Durability.{write_crash_read, bytes_at, write_crash_read_lem}
use whirl_matrix.Fs.Paths.{path_append, path_split, strip_slash, path_split-path_append}
use whirl_matrix.Db.Cursor.{Iterator, seek, lower_bound, at_entry, current, next_entry}
use whirl_matrix.Db.Scan.{scan, is_before, StartsAt, scan-seek}

abbrev memory_reader : Reader
memory_reader = record { read = λ view size. take size view; read_lem = λ view size. refl }

-- Path "a" leads to a file with two bytes, and descriptor 1 has it open.
abbrev one_file : FileMode → FileSystem
one_file mode = record {
  objects = record { bytes = 7 ∷ 8 ∷ [] } ∷ [];
  files = ("a", 0) ∷ [];
  opened_files = (1, record { fd = 1; path = "a"; mode = mode; offset = 0; file = 0 }) ∷ [];
  next_fd = 1;
}

abbrev descriptor : FileMode → OpenedFile
descriptor mode = record { fd = 1; path = "a"; mode = mode; offset = 0; file = 0 }

abbrev written : List Call
written = opens "a" append ∷ appends 1 (7 ∷ 8 ∷ []) ∷ []

one_file-IsLinked : IsLinked (one_file append)
unfolding Fs.Calls.run Fs.empty append_file Fs.open_file
one_file-IsLinked =
    run-IsLinked memory_reader written Fs.empty (one_file append) empty-IsLinked refl

run-IsLinked_example : IsLinked (one_file append)
unfolding Fs.Calls.run Fs.empty append_file Fs.open_file
run-IsLinked_example =
    run-IsLinked memory_reader written Fs.empty (one_file append) empty-IsLinked refl

append_file_lem_example :
    (fs' : FileSystem) × (append_file 1 (9 ∷ []) (one_file append) ≡ ok fs')
    × (fs'.opened_files ≡ (one_file append).opened_files)
    × ((p : String)
        → content p fs' ≡ (
            if leads_to p 0 (one_file append)
            then extended (9 ∷ []) (content p (one_file append))
            else content p (one_file append)))
append_file_lem_example =
    append_file_lem 1 (9 ∷ []) (descriptor append) (one_file append) one_file-IsLinked
      (unfold Fs.Table.find_fd in refl) refl

write_crash_read_lem_example :
    write_crash_read memory_reader "b" (1 ∷ 2 ∷ []) 5 (one_file append)
    ≡ ok (take 5 (bytes_at "b" (one_file append) ++ 1 ∷ 2 ∷ []))
write_crash_read_lem_example =
    write_crash_read_lem memory_reader "b" (1 ∷ 2 ∷ []) 5 (one_file append) one_file-IsLinked

path_split-path_append_example :
    path_split (path_append (b'/' ∷ b'd' ∷ b'/' ∷ []) (b'f' ∷ []))
    ≡ (strip_slash (b'/' ∷ b'd' ∷ b'/' ∷ []), b'f' ∷ [])
path_split-path_append_example =
    path_split-path_append (b'/' ∷ b'd' ∷ b'/' ∷ []) (b'f' ∷ []) ((λ e. absurd (omega arith)), tt)

abbrev three_entries : Iterator
three_entries = record { entries = ("a", "1") ∷ ("c", "2") ∷ ("d", "3") ∷ []; valid = true; it = 0 }

scan-seek_example :
    (pre : List (String × String)) × (suf : List (String × String)) × (three_entries.entries
      ≡ pre ++ suf)
    × (scan 4 (seek "b" three_entries) ≡ ok suf)
    × All (λ e. is_before "b" e ≡ true) pre
    × StartsAt "b" suf
scan-seek_example = scan-seek "b" three_entries

-- What a scan from "b" visits.
from_b : scan 4 (seek "b" three_entries) ≡ ok (("c", "2") ∷ ("d", "3") ∷ [])
unfolding scan seek lower_bound at_entry current next_entry
from_b = refl

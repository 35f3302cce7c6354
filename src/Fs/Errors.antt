-- ===== src/Fs/Errors.antt =====
-- The calls that fail: those on descriptors that are closed or lost by a crash.
use whirl_matrix.Base.{
  ℕ, ◌≡◌, refl, ◌∙◌, inl, inr, none, some, List, Bool-cases, ok, panic, ◌==◌, ==_refl,
  if◌then◌else◌,
}
use whirl_matrix.Fs.Contents.{Reader}
use whirl_matrix.Fs.Table.{find_fd, erase_fd, find_fd-erase_fd}
use whirl_matrix.Fs.{FileSystem, OpenedFile, get_opened_file, read_file, append_file, close, reset}

abbrev pub Refused : Reader → ℕ → ℕ → List ℕ → FileSystem → Type 0
Refused r fd size bytes fs =
    (read_file r fd size fs ≡ panic) × (append_file fd bytes fs ≡ panic) × (close fd fs ≡ panic)

unknown-Refused :
    (r : Reader) (fd size : ℕ) (bytes : List ℕ) (fs : FileSystem)
    → find_fd fd fs.opened_files ≡ none
    → Refused r fd size bytes fs
unfolding read_file append_file close get_opened_file
unknown-Refused r fd size bytes fs e =
    (rw (e, get_opened_file) refl, rw (e, get_opened_file) refl, rw (e, close) refl)

get_opened_file_eq :
    (fd j : ℕ) (fs fs' : FileSystem)
    → fs'.opened_files ≡ erase_fd fd fs.opened_files
    → get_opened_file j fs' ≡ (if fd == j then panic else get_opened_file j fs)
unfolding get_opened_file
get_opened_file_eq fd j fs fs' e =
    let found = find_fd-erase_fd fd j fs.opened_files in
    rw (e, get_opened_file)
      (rw (found, get_opened_file)
        (elim (Bool-cases (fd == j)) [ inl h ↦ rw h refl | inr h ↦ rw h refl ]))

-- An open descriptor can be closed. From then on reads, appends and another close of it fail, until a file is
-- opened, and the other descriptors stand for what they stood for. After a crash of the server every
-- call on any descriptor fails in the same way.
pub closed-Refused :
    (r : Reader) (fd j size : ℕ) (bytes : List ℕ) (fs : FileSystem) (o : OpenedFile)
    → find_fd fd fs.opened_files ≡ some o
    → (fs' : FileSystem) × (close fd fs ≡ ok fs')
      × Refused r fd size bytes fs'
      × (get_opened_file j fs' ≡ (if fd == j then panic else get_opened_file j fs))
      × Refused r j size bytes (reset fs)
unfolding reset close
closed-Refused r fd j size bytes fs o e =
    let fs' = record fs { opened_files = erase_fd fd fs.opened_files } in
    (
      fs',
      rw (e, close) refl,
      unknown-Refused r fd size bytes fs'
          (find_fd-erase_fd fd fd fs.opened_files ∙ rw (==_refl fd) refl),
      get_opened_file_eq fd j fs fs' refl,
      unknown-Refused r j size bytes (reset fs) (unfold find_fd in refl),
    )

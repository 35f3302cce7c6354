-- ===== src/Db.antt =====
-- matrix/db: the database of a server. Its table in memory is the list of its entries in the order
-- of the keys; the log on disk of the persist library is a parameter of the write-ahead log (Wal).
-- Versions are unsigned 64-bit numbers. The delays of cache misses are not modelled.
pub mod Wal
pub mod Reads
pub mod Replay
pub mod Cursor
pub mod Scan
use Prim.Native.String.{String}
use whirl_matrix.Base.{
  ℕ, zero, suc, ◌+◌, ◌%◌, ◌^◌, Bool, true, false, Option, none, some, List, [], ◌∷◌, Outcome, ok,
  panic, ◌>>=◌, ◌>>◌, verify,
}
use whirl_matrix.Fs.Table.{find, insert, erase}
use whirl_matrix.Db.Wal.{
  Mutation, puts, deletes, LogFile, WalWriter, WalReader, open_writer, append, make_reader,
  read_next, writer_offset,
}

-- MemTable
unfoldable pub put : String → String → List (String × String) → List (String × String)
unfolding insert erase
put key value entries = insert key value (erase key entries)

unfoldable pub try_get : String → List (String × String) → Option String
unfolding find
try_get key entries = find key entries

unfoldable pub delete : String → List (String × String) → List (String × String)
unfolding erase
delete key entries = erase key entries

unfoldable pub apply_to_mem_table : List Mutation → List (String × String) → List (String × String)
unfolding put delete
apply_to_mem_table [] entries = entries
apply_to_mem_table (puts key value ∷ muts) entries = apply_to_mem_table muts (put key value entries)
apply_to_mem_table (deletes key ∷ muts) entries = apply_to_mem_table muts (delete key entries)

pub record Database (F : Type 0) : Type 0 where
  pub opened : Bool
  pub mem_table : List (String × String)
  pub version : ℕ
  pub wal : Option (WalWriter F)

abbrev pub new_database : {F : Type 0} → Database F
new_database = record { opened = false; mem_table = []; version = 0; wal = none }

unfoldable pub next_version : ℕ → ℕ
next_version version = (version + 1) % 2 ^ 64

module _ {F : Type 0} ⦃o : LogFile F⦄ where
  -- The loop of ReplayWAL, on fuel: each turn moves the reader on.
  unfoldable pub replay_batches :
      ℕ
      → WalReader F
      → List (String × String)
      → ℕ
      → Outcome (List (String × String) × ℕ × WalReader F)
  unfolding read_next apply_to_mem_table next_version
  replay_batches zero reader entries version = panic
  replay_batches (suc fuel) reader entries version = read_next reader >>= λ next. elim next [
    | none ↦ ok (entries, version, reader)
    | some (batch, reader') ↦
        replay_batches fuel reader' (apply_to_mem_table batch entries) (next_version version)
  ]

  -- ReplayWAL, with the offset for the writer; `wal` is the file of the log, if it exists.
  unfoldable pub replay_wal : Option F → Database F → Outcome (Database F × ℕ)
  unfolding replay_batches make_reader writer_offset
  replay_wal wal db = elim wal [
    | none ↦ ok (record db { mem_table = [] }, 0)
    | some file ↦ replay_batches (o.size file + 1) (make_reader file) [] 0 >>= λ r.
        ok (record db { mem_table = r.0; version = r.1 }, writer_offset r.2)
  ]

  -- A file that is not there is created when the log is opened for writing.
  unfoldable pub file_of : Option F → F
  file_of wal = elim wal [ none ↦ o.created | some file ↦ file ]

  unfoldable pub open_db : Option F → Database F → Outcome (Database F)
  unfolding replay_wal file_of open_writer
  open_db wal db = replay_wal wal db >>= λ r.
      ok (record r.0 { opened = true; wal = some (open_writer r.1 (file_of wal)) })

  unfoldable pub do_write : List Mutation → WalWriter F → Database F → Database F
  unfolding append apply_to_mem_table next_version
  do_write batch w db = record db {
    wal = some (append batch w);
    mem_table = apply_to_mem_table batch db.mem_table;
    version = next_version db.version;
  }

  -- EnsureOpened and DoWrite; an opened database has its log.
  unfoldable pub write : List Mutation → Database F → Outcome (Database F)
  unfolding do_write
  write batch db =
      verify db.opened >> elim db.wal [ none ↦ panic | some w ↦ ok (do_write batch w db) ]

  unfoldable pub put_value : String → String → Database F → Outcome (Database F)
  unfolding write
  put_value key value db = write (puts key value ∷ []) db

  unfoldable pub delete_key : String → Database F → Outcome (Database F)
  unfolding write
  delete_key key db = write (deletes key ∷ []) db

  unfoldable pub get_value : String → Database F → Outcome (Option String)
  unfolding try_get
  get_value key db = verify db.opened >> ok (try_get key db.mem_table)

  -- MakeSnapshot: the entries and the version.
  unfoldable pub make_snapshot : Database F → Outcome (List (String × String) × ℕ)
  make_snapshot db = verify db.opened >> ok (db.mem_table, db.version)

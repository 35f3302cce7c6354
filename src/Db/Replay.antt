-- ===== src/Db/Replay.antt =====
-- Database::Open and Database::Write: what is read again from the log is what has been written.
use Prim.Native.String.{String}
use text.Mathlib.Text.{◌==◌ as str_eq}
use text.Mathlib.TextEquality.{eq_iff}
use whirl_matrix.Base.{
  ℕ, ◌+◌, ◌≡◌, refl, ap, ◌∙◌, Bool, true, Option, none, some, List, [], ◌∷◌, ◌++◌, arith,
  if◌then◌else◌, Outcome, ok, panic, verify, ◌>>=◌, ◌>>◌, Ensures, ensured, >>=-Ensures,
}
use whirl_matrix.Fs.Table.{erase, find-insert, find-erase}
use whirl_matrix.Db.Wal.{
  Mutation, LogFile, WalWriter, open_writer, append, make_reader, writer_offset,
}
use whirl_matrix.Db.Reads.{
  replay, replay-append, Reads, at_end, Reads-within, Reads-open, Reads-append, Replayed,
  replay_batches-Replayed, replay_batches-Reads,
}
use whirl_matrix.Db.{
  Database, apply_to_mem_table, next_version, put, try_get, replay_batches, replay_wal, file_of,
  open_db, write, do_write, new_database,
}

-- The writes of a session.
unfoldable pub write_all :
    {F : Type 0} ⦃o : LogFile F⦄ → List (List Mutation) → Database F → Outcome (Database F)
unfolding write
write_all [] db = ok db
write_all (b ∷ bs) db = write b db >>= write_all bs

module _ {F : Type 0} ⦃o : LogFile F⦄ where
  -- The database is what its log says, and the writer is at the end of the log.
  abbrev Agrees : Database F → Type 0
  Agrees db =
      (w : WalWriter F) × (bs : List (List Mutation)) × (db.opened ≡ true)
      × (db.wal ≡ some w)
      × (o.size w.file ≡ w.offset)
      × Reads w.file 0 bs w.offset
      × (replay bs [] 0 ≡ (db.mem_table, db.version))

  open_db-Agrees : (wal : Option F) → Ensures Agrees (open_db wal new_database)
  unfolding open_db replay_wal file_of open_writer make_reader writer_offset replay
  open_db-Agrees none =
      let size = o.size-open_at 0 o.created (omega (arith, o.size-created)) in
      (
        record { file = o.open_at 0 o.created; offset = 0 },
        [],
        refl,
        refl,
        size,
        (refl, at_end (o.open_at 0 o.created) 0 size),
        refl,
      )
  open_db-Agrees (some f) =
      let fresh : Database F = new_database in
      >>=-Ensures Opened Agrees
        (replay_batches (o.size f + 1) (record { file = f; offset = 0 }) [] 0 >>= λ r.
          ok (record fresh { mem_table = r.0; version = r.1 }, r.2.offset))
        _
        (>>=-Ensures (Replayed f 0 [] 0) Opened
          (replay_batches (o.size f + 1) (record { file = f; offset = 0 }) [] 0) _
          (replay_batches-Replayed (o.size f + 1) f 0 [] 0) (λ r q. q))
        λ r (bs, reads, e).
          let (more, whole) = Reads-within f 0 bs r.1 (omega arith) reads in
          (
            record { file = o.open_at r.1 f; offset = r.1 },
            bs,
            refl,
            refl,
            o.size-open_at r.1 f whole,
            Reads-open f 0 bs r.1 (omega arith) whole reads,
            e,
          )
    where
      Opened : Database F × ℕ → Type 0
      Opened r =
          (bs : List (List Mutation)) × Reads f 0 bs r.1
          × (replay bs [] 0 ≡ (r.0.mem_table, r.0.version))

  written :
      (b : List Mutation) (w : WalWriter F) (db : Database F) (opened : Bool)
      (wal : Option (WalWriter F))
      → opened ≡ true
      → wal ≡ some w
      → (verify opened >> elim wal [ none ↦ panic | some k ↦ ok (do_write b k db) ])
        ≡ ok (do_write b w db)
  written b w db opened wal h k = rw (h, k) refl

  write-Agrees :
      (b : List Mutation) (db : Database F)
      → Agrees db
      → (db' : Database F) × (write b db ≡ ok db') × Agrees db'
  unfolding do_write write append
  write-Agrees b db (w, bs, opened, there, size, reads, eq) = (
    do_write b w db,
    written b w db db.opened db.wal opened there,
    (
      append b w,
      bs ++ b ∷ [],
      opened,
      refl,
      o.size-append (o.serialize b) w.file w.offset size,
      Reads-append w.file 0 bs w.offset b size reads,
      replay-append bs b [] 0 ∙ ap (λ r. (apply_to_mem_table b r.0, next_version r.1)) eq,
    ),
  )

  write_all-Agrees :
      (bs : List (List Mutation)) (db : Database F)
      → Agrees db
      → (db' : Database F) × (write_all bs db ≡ ok db') × Agrees db'
  unfolding write_all
  write_all-Agrees [] db a = (db, refl, a)
  write_all-Agrees (b ∷ bs) db a =
      let (db1, eq, a1) = write-Agrees b db a in
      let (db', rest, a') = write_all-Agrees bs db1 a1 in (db', rw eq rest, a')

  -- The two databases have the same table and version, and their logs are to be written on at the same offset.
  abbrev pub IsSame : Database F → WalWriter F → Database F → Type 0
  IsSame db w again =
      (again.opened ≡ true)
      × (again.mem_table ≡ db.mem_table)
      × (again.version ≡ db.version)
      × (again.wal ≡ some (open_writer w.offset w.file))

  reopened :
      (db : Database F)
      → Agrees db
      → (w : WalWriter F) × (db.wal ≡ some w)
        × ((again : Database F) × (open_db (some w.file) new_database ≡ ok again)
            × IsSame db w again)
  unfolding open_db replay_wal file_of make_reader writer_offset
  reopened db (w, bs, opened, there, size, reads, eq) =
      let (more, whole) = Reads-within w.file 0 bs w.offset (omega arith) reads in
      let run =
        replay_batches-Reads (o.size w.file + 1) w.file 0 bs w.offset [] 0 reads (omega arith) in
      (
        w,
        there,
        (
          record {
            opened = true;
            mem_table = (replay bs [] 0).0;
            version = (replay bs [] 0).1;
            wal = some (open_writer w.offset w.file);
          },
          rw run refl,
          (refl, ap (λ r. r.0) eq, ap (λ r. r.1) eq, refl),
        ),
      )

  -- Any writes to a database that was opened on a log, or on none yet, succeed; and a database that is
  -- opened on the log that they leave is the one they leave: its table and its version, so that no
  -- write is lost, and the offset at which the log goes on.
  pub open_db-write_all :
      (wal : Option F) (bs : List (List Mutation)) (db : Database F)
      → open_db wal new_database ≡ ok db
      → (db' : Database F) × (write_all bs db ≡ ok db')
        × ((w : WalWriter F) × (db'.wal ≡ some w)
            × ((again : Database F) × (open_db (some w.file) new_database ≡ ok again)
                × IsSame db' w again))
  open_db-write_all wal bs db opens =
      let agrees = ensured Agrees (open_db wal new_database) db (open_db-Agrees wal) opens in
      let (db', runs, a') = write_all-Agrees bs db agrees in (db', runs, reopened db' a')

-- A key that has been put has its value, and the other keys have theirs.
pub try_get-put :
    (k j v : String) (entries : List (String × String))
    → try_get j (put k v entries) ≡ (if str_eq k j then some v else try_get j entries)
unfolding try_get put
try_get-put k j v entries =
    find-insert k j v (erase k entries) (find-erase k k entries ∙ ground (arith, eq_iff k k))
    ∙ rw (find-erase k j entries) (ground arith)

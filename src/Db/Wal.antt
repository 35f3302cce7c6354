-- ===== src/Db/Wal.antt =====
-- matrix/db/wal.hpp and wal.cpp: the writer and the reader of the write-ahead log. The log on disk of the persist library
-- and the serialization of muesli are a parameter.
use Prim.Native.String.{String}
use whirl_matrix.Base.{ℕ, ◌<◌, ◌≤◌, ◌≡◌, Option, none, some, List, Outcome, ok, panic}

-- node::db::Mutation
pub data Mutation : Type 0 where
  puts : String → String → Mutation
  deletes : String → Mutation

-- A file of records, each some bytes. A reader at an offset gives the next record and the offset behind it; a writer
-- opened at an offset cuts the file off there, and appends at its end. Only what is at the end of the
-- file is said of an append.
pub record LogFile (F : Type 0) : Type 1 where
  pub Bytes : Type 0
  pub created : F
  pub size : F → ℕ
  pub read_record : F → ℕ → Option (Bytes × ℕ)
  pub open_at : ℕ → F → F
  pub append_record : Bytes → F → ℕ → F × ℕ
  pub serialize : List Mutation → Bytes
  pub deserialize : Bytes → Option (List Mutation)
  pub size-created : size created ≡ 0
  pub read-advances :
      (f : F) (p q : ℕ) (r : Bytes) → read_record f p ≡ some (r, q) → (p < q) × (q ≤ size f)
  pub size-open_at : (p : ℕ) (f : F) → p ≤ size f → size (open_at p f) ≡ p
  pub open_at-keeps :
      (p : ℕ) (f : F) (i q : ℕ) (r : Bytes)
      → read_record f i ≡ some (r, q)
      → q ≤ p
      → read_record (open_at p f) i ≡ some (r, q)
  pub size-append :
      (r : Bytes) (f : F) (p : ℕ)
      → size f ≡ p
      → size (append_record r f p).0 ≡ (append_record r f p).1
  pub append-reads :
      (r : Bytes) (f : F) (p : ℕ)
      → size f ≡ p
      → read_record (append_record r f p).0 p ≡ some (r, (append_record r f p).1)
  pub append-keeps :
      (r : Bytes) (f : F) (p i q : ℕ) (s : Bytes)
      → size f ≡ p
      → read_record f i ≡ some (s, q)
      → read_record (append_record r f p).0 i ≡ some (s, q)
  pub deserialize-serialize : (b : List Mutation) → deserialize (serialize b) ≡ some b

pub record WalWriter (F : Type 0) : Type 0 where
  pub file : F
  pub offset : ℕ

pub record WalReader (F : Type 0) : Type 0 where
  pub file : F
  pub offset : ℕ

module _ {F : Type 0} ⦃o : LogFile F⦄ where
  unfoldable pub open_writer : ℕ → F → WalWriter F
  open_writer offset file = record { file = o.open_at offset file; offset = offset }

  unfoldable pub append : List Mutation → WalWriter F → WalWriter F
  append batch w =
      let (file, offset) = o.append_record (o.serialize batch) w.file w.offset in
      record { file = file; offset = offset }

  unfoldable pub make_reader : F → WalReader F
  make_reader file = record { file = file; offset = 0 }

  -- The next batch, and the reader behind it. Bytes that are no entry are an exception.
  unfoldable pub read_next : WalReader F → Outcome (Option (List Mutation × WalReader F))
  read_next r = elim (o.read_record r.file r.offset) [
    | none ↦ ok none
    | some (bytes, next) ↦ elim (o.deserialize bytes) [
      | none ↦ panic
      | some muts ↦ ok (some (muts, record r { offset = next }))
    ]
  ]

  unfoldable pub writer_offset : WalReader F → ℕ
  writer_offset r = r.offset

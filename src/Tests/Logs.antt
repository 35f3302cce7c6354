-- ===== src/Tests/Logs.antt =====
-- The database on a log that is the list of its records; an offset is a number of records.
use whirl_matrix.Base.{
  true, false, ℕ, zero, suc, ◌+◌, ◌<◌, ◌≤◌, ◌≡◌, refl, ap, ◌∙◌, Option, none, some, some_inj, List,
  [], ◌∷◌, ◌++◌, arith, ok, length, take, length-append, length-take, get_elem?, get_elem?-append,
  lt_of_get_elem?, ◌==◌, if◌then◌else◌,
}
use whirl_matrix.Db.Wal.{Mutation, puts, deletes, LogFile, WalWriter}
use whirl_matrix.Db.{Database, open_db, new_database}
use whirl_matrix.Db.Replay.{write_all, IsSame, open_db-write_all}

abbrev Batches : Type 0
Batches = List (List Mutation)

abbrev stamped : ℕ → Option (List Mutation) → Option (List Mutation × ℕ)
stamped p none = none
stamped p (some b) = some (b, p + 1)

stamped_by :
    (p : ℕ) (x : Option (List Mutation)) (r : List Mutation) (q : ℕ)
    → stamped p x ≡ some (r, q)
    → (x ≡ some r) × (p + 1 ≡ q)
stamped_by p none r q h = cc
stamped_by p (some b) r q h =
    let same = some_inj h in
    (ap (λ (y : List Mutation × ℕ). some y.0) same, ap (λ (y : List Mutation × ℕ). y.1) same)

advances :
    (f : Batches) (p q : ℕ) (r : List Mutation)
    → stamped p (get_elem? f p) ≡ some (r, q)
    → (p < q) × (q ≤ length f)
advances f p q r h =
    let (there, next) = stamped_by p (get_elem? f p) r q h in
    let inside = lt_of_get_elem? f p r there in (omega arith, omega arith)

cut : (p i : ℕ) (f : Batches) → i < p → get_elem? (take p f) i ≡ get_elem? f i
cut zero i f h = absurd (omega arith)
cut (suc p) i [] h = refl
cut (suc p) zero (b ∷ f) h = refl
cut (suc p) (suc i) (b ∷ f) h = cut p i f (omega arith)

grown :
    (r : List Mutation) (f : Batches) (i q : ℕ) (s : List Mutation)
    → stamped i (get_elem? f i) ≡ some (s, q)
    → stamped i (get_elem? (f ++ r ∷ []) i) ≡ some (s, q)
grown r f i q s h =
    let (there, next) = stamped_by i (get_elem? f i) s q h in
    let before : (i == length f) ≡ false = ground (arith, lt_of_get_elem? f i s there) in
    ap (stamped i) (get_elem?-append f r i ∙ ap (λ b. if b then some r else get_elem? f i) before)
    ∙ h

added :
    (r : List Mutation) (f : Batches) (p : ℕ)
    → length f ≡ p
    → stamped p (get_elem? (f ++ r ∷ []) p) ≡ some (r, p + 1)
added r f p h =
    let last : (p == length f) ≡ true = ground (arith, h) in
    ap (stamped p) (get_elem?-append f r p ∙ ap (λ b. if b then some r else get_elem? f p) last)

instance abbrev list_log : LogFile Batches
list_log = record {
  Bytes = List Mutation;
  created = [];
  size = length;
  read_record = λ f p. stamped p (get_elem? f p);
  open_at = take;
  append_record = λ r f p. (f ++ r ∷ [], p + 1);
  serialize = λ b. b;
  deserialize = λ b. some b;
  size-created = refl;
  read-advances = advances;
  size-open_at = λ p f h. omega (arith, length-take p f);
  open_at-keeps = λ p f i q r h b.
      let (there, next) = stamped_by i (get_elem? f i) r q h in
      ap (stamped i) (cut p i f (omega arith)) ∙ h;
  size-append = λ r f p h. omega (arith, length-append f (r ∷ []));
  append-reads = added;
  append-keeps = λ r f p i q s e h. grown r f i q s h;
  deserialize-serialize = λ b. refl;
}

-- A log with a write, and a session that adds two.
abbrev one_batch : Batches
one_batch = (puts "j" "u" ∷ []) ∷ []

abbrev at_first : Database Batches
at_first = record {
  opened = true;
  mem_table = ("j", "u") ∷ [];
  version = 1;
  wal = some (record { file = one_batch; offset = 1 });
}

open_db-write_all_example :
    (db' : Database Batches) × (write_all ((puts "k" "v" ∷ []) ∷ (deletes "j" ∷ []) ∷ []) at_first
      ≡ ok db')
    × ((w : WalWriter Batches) × (db'.wal ≡ some w)
        × ((again : Database Batches) × (open_db (some w.file) new_database ≡ ok again)
            × IsSame db' w again))
unfolding open_db
open_db-write_all_example =
    open_db-write_all (some one_batch) ((puts "k" "v" ∷ []) ∷ (deletes "j" ∷ []) ∷ []) at_first refl

-- ===== src/Db/Reads.antt =====
-- The batches that a reader gives of a log, and what opening it and appending to it do to them.
use Prim.Native.String.{String}
use whirl_matrix.Base.{
  ℕ, zero, suc, ◌+◌, ◌<◌, ◌≤◌, ◌≡◌, refl, inl, inr, none, some, List, [], ◌∷◌, ◌++◌, arith, length,
  Option-cases, Outcome, ok, panic, Ensures,
}
use whirl_matrix.Db.Wal.{Mutation, LogFile, WalReader, read_next}
use whirl_matrix.Db.{apply_to_mem_table, next_version, replay_batches}

-- A table and its version after some batches.
unfoldable pub replay :
    List (List Mutation) → List (String × String) → ℕ → List (String × String) × ℕ
unfolding apply_to_mem_table next_version
replay [] entries version = (entries, version)
replay (b ∷ bs) entries version = replay bs (apply_to_mem_table b entries) (next_version version)

pub replay-append :
    (bs : List (List Mutation)) (b : List Mutation) (entries : List (String × String)) (version : ℕ)
    → replay (bs ++ b ∷ []) entries version ≡ (
      apply_to_mem_table b (replay bs entries version).0,
      next_version (replay bs entries version).1,
    )
unfolding replay
replay-append [] b entries version = refl
replay-append (c ∷ bs) b entries version =
    replay-append bs b (apply_to_mem_table c entries) (next_version version)

module _ {F : Type 0} ⦃o : LogFile F⦄ where
  -- From the offset `p` on the file has these batches, and ends at `q` for a reader.
  abbrev pub Reads : F → ℕ → List (List Mutation) → ℕ → Type 0
  Reads f p [] q = (p ≡ q) × (o.read_record f p ≡ none)
  Reads f p (b ∷ bs) q =
      (r : o.Bytes) × (n : ℕ) × (o.read_record f p ≡ some (r, n))
      × (o.deserialize r ≡ some b)
      × Reads f n bs q

  pub at_end : (f : F) (p : ℕ) → o.size f ≡ p → o.read_record f p ≡ none
  at_end f p e = elim (Option-cases (o.read_record f p)) [
    | inl h ↦ h
    | inr ((r, q), h) ↦ let (further, inside) = o.read-advances f p q r h in absurd (omega arith)
  ]

  pub Reads-within :
      (f : F) (p : ℕ) (bs : List (List Mutation)) (q : ℕ)
      → p ≤ o.size f
      → Reads f p bs q
      → (p + length bs ≤ q) × (q ≤ o.size f)
  Reads-within f p [] q b (e, h) = (omega arith, omega arith)
  Reads-within f p (c ∷ bs) q b (r, n, h, d, rest) =
      let (further, inside) = o.read-advances f p n r h in
      let (more, whole) = Reads-within f n bs q inside rest in (omega arith, whole)

  pub Reads-open :
      (f : F) (p : ℕ) (bs : List (List Mutation)) (q : ℕ)
      → p ≤ o.size f
      → q ≤ o.size f
      → Reads f p bs q
      → Reads (o.open_at q f) p bs q
  Reads-open f p [] q b c (e, h) = (e, rw e (at_end (o.open_at q f) q (o.size-open_at q f c)))
  Reads-open f p (m ∷ bs) q b c (r, n, h, d, rest) =
      let (further, inside) = o.read-advances f p n r h in
      let (more, whole) = Reads-within f n bs q inside rest in
      (r, n, o.open_at-keeps q f p n r h (omega arith), d, Reads-open f n bs q inside c rest)

  pub Reads-append :
      (f : F) (p : ℕ) (bs : List (List Mutation)) (q : ℕ) (b : List Mutation)
      → o.size f ≡ q
      → Reads f p bs q
      → Reads
          (o.append_record (o.serialize b) f q).0
          p
          (bs ++ b ∷ [])
          (o.append_record (o.serialize b) f q).1
  Reads-append f p [] q b end (e, h) =
      let after = o.append_record (o.serialize b) f q in
      (
        o.serialize b,
        after.1,
        rw e (o.append-reads (o.serialize b) f q end),
        o.deserialize-serialize b,
        (refl, at_end after.0 after.1 (o.size-append (o.serialize b) f q end)),
      )
  Reads-append f p (c ∷ bs) q b end (r, n, h, d, rest) =
      (r, n, o.append-keeps (o.serialize b) f q p n r end h, d, Reads-append f n bs q b end rest)

  -- What the loop of ReplayWAL gives, if it gives anything, is of the batches that it has read.
  abbrev pub Replayed :
      F → ℕ → List (String × String) → ℕ → List (String × String) × ℕ × WalReader F → Type 0
  Replayed f p entries version r =
      (bs : List (List Mutation)) × Reads f p bs r.2.offset
      × (replay bs entries version ≡ (r.0, r.1))

  one_more :
      (f : F) (p n : ℕ) (b : List Mutation) (s : o.Bytes) (entries : List (String × String))
      (version : ℕ)
      → o.read_record f p ≡ some (s, n)
      → o.deserialize s ≡ some b
      → (m : Outcome (List (String × String) × ℕ × WalReader F))
      → Ensures (Replayed f n (apply_to_mem_table b entries) (next_version version)) m
      → Ensures (Replayed f p entries version) m
  unfolding replay
  one_more f p n b s entries version h d panic k = tt
  one_more f p n b s entries version h d (ok r) (bs, reads, e) = (b ∷ bs, (s, n, h, d, reads), e)

  pub replay_batches-Replayed :
      (fuel : ℕ) (f : F) (p : ℕ) (entries : List (String × String)) (version : ℕ)
      → Ensures
          (Replayed f p entries version)
          (replay_batches fuel (record { file = f; offset = p }) entries version)
  unfolding replay_batches read_next replay
  replay_batches-Replayed zero f p entries version = tt
  replay_batches-Replayed (suc fuel) f p entries version = elim (Option-cases (o.read_record f p)) [
    | inl e ↦ rw (e, read_next) ([], (refl, e), refl)
    | inr ((s, n), e) ↦
        rw (e, read_next)
          (elim (Option-cases (o.deserialize s)) [
            | inl d ↦ rw (d, read_next) tt
            | inr (b, d) ↦
                rw (d, read_next)
                  (one_more f p n b s entries version e d _ (
                    replay_batches-Replayed fuel f n (apply_to_mem_table b entries)
                      (next_version version)))
          ])
  ]

  -- With a turn for each batch and one more, the loop reads all of them.
  pub replay_batches-Reads :
      (fuel : ℕ) (f : F) (p : ℕ) (bs : List (List Mutation)) (q : ℕ)
      (entries : List (String × String)) (version : ℕ)
      → Reads f p bs q
      → length bs < fuel
      → replay_batches fuel (record { file = f; offset = p }) entries version
        ≡ ok (
          (replay bs entries version).0,
          (replay bs entries version).1,
          record { file = f; offset = q },
        )
  unfolding replay_batches read_next replay
  replay_batches-Reads zero f p bs q entries version h b = absurd (omega arith)
  replay_batches-Reads (suc fuel) f p [] q entries version (e, h) b = rw (h, read_next) (rw e refl)
  replay_batches-Reads (suc fuel) f p (m ∷ bs) q entries version (r, n, h, d, rest) b =
      rw (h, read_next)
        (rw (d, read_next)
          (replay_batches-Reads fuel f n bs q (apply_to_mem_table m entries) (next_version version)
            rest (omega arith)))

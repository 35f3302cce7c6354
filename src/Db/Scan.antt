-- ===== src/Db/Scan.antt =====
-- The iterator of a snapshot: what a loop over Valid, Key, Value and Next visits.
use Prim.Native.String.{String, compare}
use Prim.Native.Nat.{Ordering}
use mathlib.Core.List.{append_assoc}
use whirl_matrix.Base.{
  ℕ, zero, suc, ◌+◌, ◌<◌, ◌≡◌, refl, sym, ap, ◌∙◌, inl, inr, Bool, true, false, some, List, [], ◌∷◌,
  ◌++◌, arith, All, length, length-append, get_elem?, ltb, Bool-cases, Outcome, ok, panic, ◌>>=◌,
}
use whirl_matrix.Db.Cursor.{
  Iterator, seek_to_first, make_iterator, lower_bound, at_entry, seek, current, next_entry,
}

abbrev Entries : Type 0
Entries = List (String × String)

-- The loop, on fuel for its turns.
unfoldable pub scan : ℕ → Iterator → Outcome (List (String × String))
unfolding current next_entry
scan zero i = panic
scan (suc n) i = elim i.valid [
  | false ↦ ok []
  | true ↦ current i >>= λ e. next_entry i >>= λ i'. scan n i' >>= λ es. ok (e ∷ es)
]

abbrev at_place : Entries → ℕ → Iterator
at_place entries p = record { entries = entries; valid = ltb p (length entries); it = p }

entry_here :
    (pre : Entries) (e : String × String) (suf : Entries)
    → get_elem? (pre ++ e ∷ suf) (length pre) ≡ some e
entry_here [] e suf = refl
entry_here (x ∷ pre) e suf = entry_here pre e suf

room : (pre suf : Entries) → length (pre ++ suf) ≡ length pre + length suf
room pre suf = length-append pre suf

scan_turn :
    (n : ℕ) (pre : Entries) (e : String × String) (suf : Entries)
    → scan (suc n) (at_place (pre ++ e ∷ suf) (length pre))
      ≡ (scan n (at_place (pre ++ e ∷ suf) (length pre + 1)) >>= λ es. ok (e ∷ es))
unfolding scan current next_entry at_entry
scan_turn n pre e suf =
    let inside : ltb (length pre) (length (pre ++ e ∷ suf)) ≡ true =
      ground (arith, room pre (e ∷ suf)) in
    rw inside (rw (entry_here pre e suf) refl)

moved :
    (pre : Entries) (e : String × String) (suf : Entries)
    → at_place ((pre ++ e ∷ []) ++ suf) (length (pre ++ e ∷ []))
      ≡ at_place (pre ++ e ∷ suf) (length pre + 1)
moved pre e suf =
    ap (λ es. at_place es (length (pre ++ e ∷ []))) (append_assoc pre (e ∷ []) suf)
    ∙ ap (at_place (pre ++ e ∷ suf)) (room pre (e ∷ []))

scan_from :
    (n : ℕ) (pre suf : Entries)
    → length suf < n
    → scan n (at_place (pre ++ suf) (length pre)) ≡ ok suf
scan_from zero pre suf h = absurd (omega arith)
scan_from (suc n) pre [] h =
    let outside : ltb (length pre) (length (pre ++ [])) ≡ false = ground (arith, room pre []) in
    unfold scan in rw outside refl
scan_from (suc n) pre (e ∷ suf) h =
    scan_turn n pre e suf
    ∙ ap (λ i. scan n i >>= λ es. ok (e ∷ es)) (sym (moved pre e suf))
    ∙ ap (λ r. r >>= λ es. ok (e ∷ es)) (scan_from n (pre ++ e ∷ []) suf (omega arith))

-- The loop over a new iterator visits all entries in their order, and ends.
pub scan-make_iterator :
    (entries : Entries) → scan (length entries + 1) (make_iterator entries) ≡ ok entries
unfolding make_iterator seek_to_first
scan-make_iterator [] = unfold scan in refl
scan-make_iterator (x ∷ entries) =
    let inside : true ≡ ltb 0 (length (x ∷ entries)) = ground arith in
    ap (λ b. scan (length (x ∷ entries) + 1) (record { entries = x ∷ entries; valid = b; it = 0 }))
      inside
    ∙ scan_from (length (x ∷ entries) + 1) [] (x ∷ entries) (omega arith)

-- The key of an entry is before the target.
abbrev pub is_before : String → String × String → Bool
is_before target e = elim (compare e.0 target) [ Ordering.lt ↦ true | _ ↦ false ]

-- The first entry that is not before the target, if there is one.
abbrev pub StartsAt : String → Entries → Type 0
StartsAt target [] = Unit
StartsAt target (e ∷ es) = is_before target e ≡ false

split_at :
    (target : String) (entries : Entries)
    → (pre : Entries) × (suf : Entries) × (entries ≡ pre ++ suf)
      × (lower_bound target entries ≡ length pre)
      × All (λ e. is_before target e ≡ true) pre
      × StartsAt target suf
unfolding lower_bound
split_at target [] = ([], [], refl, refl, tt, tt)
split_at target ((k, v) ∷ entries) = elim (Bool-cases (is_before target (k, v))) [
  | inl e ↦
      let (pre, suf, whole, bound, before, first) = split_at target entries in
      (
        (k, v) ∷ pre,
        suf,
        ap (λ es. (k, v) ∷ es) whole,
        ground (arith, e, bound),
        (e, before),
        first,
      )
  | inr e ↦ ([], (k, v) ∷ entries, refl, ground (arith, e), tt, e)
]

-- After Seek the loop visits a rest of the entries, in their order, and ends: the entries that it leaves out have
-- keys before the target, and the first one that it visits has not.
pub scan-seek :
    (target : String) (i : Iterator)
    → (pre : Entries) × (suf : Entries) × (i.entries ≡ pre ++ suf)
      × (scan (length i.entries + 1) (seek target i) ≡ ok suf)
      × All (λ e. is_before target e ≡ true) pre
      × StartsAt target suf
unfolding seek at_entry
scan-seek target i =
    let (pre, suf, whole, bound, before, first) = split_at target i.entries in
    (
      pre,
      suf,
      whole,
      ap (λ p. scan (length i.entries + 1) (at_place i.entries p)) bound
          ∙ ap (λ es. scan (length es + 1) (at_place es (length pre))) whole
          ∙ scan_from (length (pre ++ suf) + 1) pre suf (omega (arith, room pre suf)),
      before,
      first,
    )

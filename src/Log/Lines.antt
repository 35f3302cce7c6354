-- ===== src/Log/Lines.antt =====
-- The columns of the log have fixed widths.
use whirl_matrix.Base.{
  ℕ, ◌+◌, ◌-◌, ◌≤◌, ◌≡◌, ◌∙◌, inl, inr, List, [], ◌∷◌, ◌++◌, arith, length, length-append,
  length-replicate, length-take, replicate, ltb, Bool-cases,
}
use whirl_matrix.Runner.{limit_width}
use whirl_matrix.Log.{Libraries, Event, field, in_brackets, columns}

length-limit_width : (width : ℕ) (s : List ℕ) → length (limit_width width s) ≤ width
unfolding limit_width
length-limit_width width s = elim (Bool-cases (ltb (length s) width)) [
  | inl e ↦ rw e (ground (arith, e))
  | inr e ↦ rw e (omega (arith, length-take width s))
]

module _ (c : Libraries) where
  length-field : (width : ℕ) (s : List ℕ) → length (field c width s) ≡ width
  unfolding field
  length-field width s =
      let text = limit_width width s in
      length-append text (replicate (width - length text) b' ')
      ∙ omega
          (arith, length-limit_width width s, length-replicate {A = ℕ} (width - length text) b' ')

  length-in_brackets : (s : List ℕ) → length (in_brackets c s) ≡ length s + 2
  unfolding in_brackets
  length-in_brackets s = omega (arith, length-append s (b']' ∷ []))

  -- The level, the actor and the component of any event take the same number of bytes together, so that what
  -- follows them is aligned.
  length-columns : (event : Event c) → length (columns c event) ≡ 42
  unfolding columns
  length-columns event =
      let level = in_brackets c (field c 7 (c.level_to_string event.level)) in
      let actor = in_brackets c (field c 15 event.actor) in
      let component = in_brackets c (field c 12 event.component) in
      length-append level (b'\t' ∷ (actor ++ b'\t' ∷ component))
      ∙ omega (
        arith,
        length-append actor (b'\t' ∷ component),
        length-in_brackets (field c 7 (c.level_to_string event.level)),
        length-field 7 (c.level_to_string event.level),
        length-in_brackets (field c 15 event.actor),
        length-field 15 event.actor,
        length-in_brackets (field c 12 event.component),
        length-field 12 event.component,
      )

-- ===== src/Db/Cursor.antt =====
-- matrix/db/iterator.cpp: the iterator of a snapshot, a position in its entries. The delay of a move
-- is not modelled.
use Prim.Native.String.{String, compare}
use Prim.Native.Nat.{Ordering}
use whirl_matrix.Base.{
  ℕ, ◌+◌, ◌-◌, Bool, true, false, none, some, List, [], ◌∷◌, Outcome, ok, panic, ◌>>◌, verify, ◌==◌,
  ltb, if◌then◌else◌, length, get_elem?,
}

pub record Iterator : Type 0 where
  pub entries : List (String × String)
  pub valid : Bool
  pub it : ℕ

unfoldable pub seek_to_first : Iterator → Iterator
seek_to_first i = elim i.entries [
  | [] ↦ record i { valid = false }
  | e ∷ es ↦ record i { valid = true; it = 0 }
]

unfoldable pub make_iterator : List (String × String) → Iterator
unfolding seek_to_first
make_iterator entries = seek_to_first (record { entries = entries; valid = false; it = 0 })

unfoldable pub seek_to_last : Iterator → Iterator
seek_to_last i = elim i.entries [
  | [] ↦ record i { valid = false }
  | e ∷ es ↦ record i { valid = true; it = length es }
]

-- std::map::lower_bound: the first entry that is not before the key.
unfoldable pub lower_bound : String → List (String × String) → ℕ
lower_bound target [] = 0
lower_bound target ((k, v) ∷ es) = elim (compare k target) [
  | Ordering.lt ↦ lower_bound target es + 1
  | _ ↦ 0
]

unfoldable pub at_entry : ℕ → Iterator → Iterator
at_entry p i = record i { it = p; valid = ltb p (length i.entries) }

unfoldable pub seek : String → Iterator → Iterator
unfolding lower_bound at_entry
seek target i = at_entry (lower_bound target i.entries) i

unfoldable pub current : Iterator → Outcome (String × String)
current i = verify i.valid >> elim (get_elem? i.entries i.it) [ none ↦ panic | some e ↦ ok e ]

unfoldable pub next_entry : Iterator → Outcome Iterator
unfolding at_entry
next_entry i = verify i.valid >> ok (at_entry (i.it + 1) i)

unfoldable pub prev_entry : Iterator → Outcome Iterator
prev_entry i =
    verify i.valid
    >> ok (if i.it == 0 then record i { valid = false } else record i { it = i.it - 1 })

-- ===== src/Semantics/Printer.antt =====
-- matrix/semantics/printers/print.hpp and kv.hpp: the picture of a history. A text is the list of its bytes; the printing of
-- numbers, keys and values is a parameter. std::set and std::map are lists in the order of their keys.
pub mod Columns
pub mod Picture
use Prim.Native.String.{String}
use text.Mathlib.Text.{◌==◌ as str_eq}
use whirl_matrix.Base.{
  ℕ, ◌+◌, ◌-◌, ◌*◌, ltb, ◌==◌, Bool, true, false, Option, none, some, List, [], ◌∷◌, ◌++◌, length,
  set, replicate, Outcome, ok, panic, ◌>>=◌, ◌>>◌, verify, if◌then◌else◌,
}
use whirl_matrix.Semantics.{Value, Call, is_completed}
use whirl_matrix.Semantics.Kv.{Codec}

abbrev pub unit_length : ℕ
unit_length = 3

-- What the C++ library prints, and the printer of a call.
pub record Printing : Type 0 where
  pub bytes_of : String → List ℕ
  pub number : ℕ → List ℕ
  pub print_call : Call → Outcome (List ℕ)

-- std::set::insert
unfoldable pub insert_tp : ℕ → List ℕ → List ℕ
insert_tp tp [] = tp ∷ []
insert_tp tp (x ∷ tps) =
    let rest = insert_tp tp tps in
    if ltb tp x then tp ∷ x ∷ tps else if x == tp then x ∷ tps else x ∷ rest

unfoldable pub add_tps : Call → List ℕ → List ℕ
unfolding insert_tp
add_tps call tps = elim call.end_time [
  | none ↦ insert_tp call.start_time tps
  | some t ↦ insert_tp t (insert_tp call.start_time tps)
]

-- The time points of a history.
unfoldable pub collect : List Call → List ℕ → List ℕ
unfolding add_tps
collect [] tps = tps
collect (call ∷ history) tps = collect history (add_tps call tps)

-- The numbers of the time points, after `ctp`.
unfoldable pub compact : ℕ → List ℕ → List (ℕ × ℕ)
compact ctp [] = []
compact ctp (tp ∷ tps) = (tp, ctp + 1) ∷ compact (ctp + 1) tps

-- std::map::operator[], which is 0 for a time point that is not there.
unfoldable pub number_of : ℕ → List (ℕ × ℕ) → ℕ
number_of tp [] = 0
number_of tp ((x, ctp) ∷ tps) = let rest = number_of tp tps in if x == tp then ctp else rest

-- The numbers of the start and the end of a call.
unfoldable pub span : List (ℕ × ℕ) → ℕ → Call → ℕ × ℕ
unfolding number_of
span compact_tps max_tp call = (
  number_of call.start_time compact_tps,
  (elim call.end_time [ none ↦ max_tp | some t ↦ number_of t compact_tps ]),
)

unfoldable pub make_space : ℕ → List ℕ
make_space start_ts = replicate (start_ts * unit_length) b' '

-- A write of a character of a string.
unfoldable pub put_at : ℕ → ℕ → List ℕ → Outcome (List ℕ)
put_at i c s = verify (ltb i (length s)) >> ok (set s i c)

-- A length below 0 wraps around and is refused by the string.
unfoldable pub make_call_segment : ℕ → ℕ → Bool → Outcome (List ℕ)
unfolding put_at
make_call_segment start end completed =
    if ltb end start
    then panic
    else put_at 0 b'[' (replicate ((end - start) * unit_length) b'-') >>= λ call.
        if completed then put_at (length call - 1) b']' call else ok call

unfoldable pub join_labels : (String → List ℕ) → List String → List ℕ
join_labels bytes_of [] = []
join_labels bytes_of (label ∷ []) = bytes_of label
join_labels bytes_of (label ∷ next ∷ labels) =
    bytes_of label ++ b',' ∷ b' ' ∷ join_labels bytes_of (next ∷ labels)

unfoldable pub print_labels : (String → List ℕ) → List String → List ℕ
unfolding join_labels
print_labels bytes_of [] = []
print_labels bytes_of (label ∷ labels) = b'{' ∷ (join_labels bytes_of (label ∷ labels) ++ b'}' ∷ [])

module _ (p : Printing) where
  -- The two lines of the call at the place `i`.
  unfoldable pub print_lines : ℕ → ℕ × ℕ → Call → Outcome (List ℕ × List ℕ)
  unfolding make_space make_call_segment print_labels is_completed
  print_lines i (start_ts, end_ts) call = p.print_call call >>= λ text.
      make_call_segment start_ts end_ts (is_completed call) >>= λ segment. ok (
        make_space start_ts
            ++ (p.number (i + 1)
                ++ b'.' ∷ b' ' ∷ (text ++ b'\t' ∷ print_labels p.bytes_of call.labels)),
        make_space start_ts ++ segment,
      )

  unfoldable pub print_all : List (ℕ × ℕ) → ℕ → ℕ → List Call → Outcome (List (List ℕ × List ℕ))
  unfolding span print_lines
  print_all compact_tps max_tp i [] = ok []
  print_all compact_tps max_tp i (call ∷ history) =
      print_lines i (span compact_tps max_tp call) call >>= λ lines.
      print_all compact_tps max_tp (i + 1) history >>= λ rest. ok (lines ∷ rest)

  unfoldable pub print : List Call → Outcome (List (List ℕ × List ℕ))
  unfolding collect compact print_all
  print history =
      let tps = collect history [] in print_all (compact 0 tps) (length tps + 1) 0 history

-- KVCallPrinter
module _ (c : Codec) (key : c.K → List ℕ) (value : c.V → List ℕ) (as_value : Value → c.V) where
  abbrev comma : List ℕ
  comma = b',' ∷ b' ' ∷ []

  -- The value that a call has returned, or a mark of a call that has not completed.
  unfoldable pub print_result : Call → Outcome (List ℕ)
  unfolding is_completed
  print_result call = elim (is_completed call) [
    | true ↦ elim call.result [
      | none ↦ panic
      | some result ↦ ok (b':' ∷ b' ' ∷ value (as_value result))
    ]
    | false ↦ ok (b'?' ∷ [])
  ]

  unfoldable pub print_set : Call → Outcome (List ℕ)
  unfolding is_completed
  print_set call =
      let (k, v) = c.as_set call.arguments in
      ok (
        b'S'
        ∷ b'e'
        ∷ b't'
        ∷ b'('
        ∷ (key k ++ (comma ++ (value v ++ b')' ∷ (if is_completed call then [] else b'?' ∷ [])))))

  unfoldable pub print_get : Call → Outcome (List ℕ)
  unfolding print_result
  print_get call = print_result call >>= λ result.
      ok (b'G' ∷ b'e' ∷ b't' ∷ b'(' ∷ (key (c.as_get call.arguments) ++ b')' ∷ result))

  unfoldable pub print_cas : Call → Outcome (List ℕ)
  unfolding print_result
  print_cas call =
      let (k, expected_value, target_value) = c.as_cas call.arguments in
      print_result call >>= λ result. ok (
        b'C'
        ∷ b'a'
        ∷ b's'
        ∷ b'('
        ∷ (key k
            ++ (comma
                ++ (value expected_value ++ (comma ++ (value target_value ++ b')' ∷ result))))))

  unfoldable pub print_kv_call : Call → Outcome (List ℕ)
  unfolding print_set print_get print_cas
  print_kv_call call =
      if str_eq call.method "Set"
      then print_set call
      else if str_eq call.method "Get"
      then print_get call
      else if str_eq call.method "Cas"
      then print_cas call
      else ok []

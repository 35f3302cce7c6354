-- ===== src/History/Recorded.antt =====
-- What a recorded history is like: no call in it ended before it began, the calls that run began before now,
-- and their cookies rise.
use Prim.Native.String.{String}
use mathlib.Core.Path.{subst}
use whirl_matrix.Base.{
  ℕ, ◌+◌, ◌≤◌, ◌<◌, ◌≡◌, refl, false, Bool-cases, inl, inr, some, Option-cases, List, [], ◌∷◌, ◌++◌,
  arith, ◌==◌, All, All-append, All-map, Outcome, ok, panic,
}
use whirl_matrix.Semantics.{Value, Call, precedes_in_real_time}
use whirl_matrix.History.{
  RunningCall, HistoryRecorder, empty, find, erase, replace, complete, lost, call_started,
  add_label, finish, call_completed, call_lost, remove_call, RpcResult, record_call_result, value,
  transport_error, execution_error, other_error,
}

abbrev pub Entries : Type 0
Entries = List (ℕ × RunningCall)

abbrev pub Timed : Call → Type 0
Timed c = precedes_in_real_time c c ≡ false

-- A running call began by now, and has a cookie that was given out.
abbrev pub Began : ℕ → ℕ → ℕ × RunningCall → Type 0
Began t n e = (e.1.start_time ≤ t) × (e.0 ≤ n)

-- The cookies rise along the list.
abbrev pub Rising : Entries → Type 0
Rising [] = Unit
Rising ((i, c) ∷ m) = All (λ (e : ℕ × RunningCall). i < e.0) m × Rising m

pub record Inv (t : ℕ) (h : HistoryRecorder) : Type 0 where
  pub timed : All Timed h.finalized_calls
  pub began : All (Began t h.next_id) h.running_calls
  pub rising : Rising h.running_calls

find-All {κ} :
    (P : ℕ × RunningCall → Type κ) (id : ℕ) (m : Entries) {c : RunningCall}
    → find id m ≡ some c
    → All P m
    → (j : ℕ) × P (j, c)
unfolding find
find-All P id [] e h = cc
find-All P id ((j, d) ∷ m) {c = c} e h = elim (Bool-cases (j == id)) [
  | inl q ↦ (j, subst (λ x. P (j, x)) (some_eq (rw q at e)) h.0)
  | inr q ↦ find-All P id m (rw q at e) h.1
]
  where
    some_eq : some d ≡ some c → d ≡ c
    some_eq p = cc

erase-All {κ} : (P : ℕ × RunningCall → Type κ) (id : ℕ) (m : Entries) → All P m → All P (erase id m)
unfolding erase
erase-All P id [] h = tt
erase-All P id ((j, d) ∷ m) h = elim (Bool-cases (j == id)) [
  | inl q ↦ rw q h.1
  | inr q ↦ rw q (h.0, erase-All P id m h.1)
]

erase-Rising : (id : ℕ) (m : Entries) → Rising m → Rising (erase id m)
unfolding erase
erase-Rising id [] h = tt
erase-Rising id ((j, d) ∷ m) h = elim (Bool-cases (j == id)) [
  | inl q ↦ rw q h.1
  | inr q ↦ rw q (erase-All _ id m h.0, erase-Rising id m h.1)
]

append-Rising :
    (m : Entries) (n : ℕ) (c : RunningCall)
    → All (λ (e : ℕ × RunningCall). e.0 ≤ n) m
    → Rising m
    → Rising (m ++ (n + 1, c) ∷ [])
append-Rising [] n c b h = (tt, tt)
append-Rising ((j, d) ∷ m) n c b h =
    (All-append _ m ((n + 1, c) ∷ []) h.0 (omega arith, tt), append-Rising m n c b.1 h.1)

-- The entry that is replaced is the one that is found.
replace-All {κ} :
    (P : ℕ × RunningCall → Type κ) (id : ℕ) (c d : RunningCall) (m : Entries)
    → find id m ≡ some c
    → ((j : ℕ) → P (j, c) → P (j, d))
    → All P m
    → All P (replace id d m)
unfolding replace find
replace-All P id c d [] e p h = tt
replace-All P id c d ((j, x) ∷ m) e p h = elim (Bool-cases (j == id)) [
  | inl q ↦
      let same : x ≡ c = some_eq (rw q at e) in rw q (p j (subst (λ y. P (j, y)) same h.0), h.1)
  | inr q ↦ rw q (h.0, replace-All P id c d m (rw q at e) p h.1)
]
  where
    some_eq : some x ≡ some c → x ≡ c
    some_eq q = cc

replace-Rising :
    (id : ℕ) (c d : RunningCall) (m : Entries)
    → find id m ≡ some c
    → Rising m
    → Rising (replace id d m)
unfolding replace find
replace-Rising id c d [] e h = tt
replace-Rising id c d ((j, x) ∷ m) e h = elim (Bool-cases (j == id)) [
  | inl q ↦ rw q h
  | inr q ↦ rw q (
    replace-All (λ (y : ℕ × RunningCall). j < y.0) id c d m (rw q at e) (λ _ k. k) h.0,
    replace-Rising id c d m (rw q at e) h.1,
  )
]

pub empty-Inv : (t : ℕ) → Inv t empty
unfolding empty
empty-Inv t = record { timed = tt; began = tt; rising = tt }

pub Inv-later : {t u : ℕ} {h : HistoryRecorder} → t ≤ u → Inv t h → Inv u h
Inv-later {t} {u} {h} le v = record {
  timed = v.timed;
  began =
      All-map (Began t h.next_id) (Began u h.next_id) h.running_calls (λ e b. (omega arith, b.1))
        v.began;
  rising = v.rising;
}

pub call_started-Inv :
    (t : ℕ) (method input : String) (h : HistoryRecorder)
    → Inv t h
    → Inv t (call_started t method input h).1
unfolding call_started
call_started-Inv t method input h v = record {
  timed = v.timed;
  began =
      All-append (Began t (h.next_id + 1)) h.running_calls _
        (All-map (Began t h.next_id) (Began t (h.next_id + 1)) h.running_calls
          (λ e b. (b.0, omega arith)) v.began)
        ((omega arith, omega arith), tt);
  rising =
      append-Rising h.running_calls h.next_id _
        (All-map (Began t h.next_id) (λ e. e.0 ≤ h.next_id) h.running_calls (λ e b. b.1) v.began)
        v.rising;
}

-- What a fallible step leaves, if it leaves anything.
abbrev pub Keeps : ℕ → Outcome HistoryRecorder → Type 0
Keeps t (ok h) = Inv t h
Keeps t panic = Unit

pub add_label-Inv :
    (t id : ℕ) (label : String) (h : HistoryRecorder) → Inv t h → Keeps t (add_label id label h)
unfolding add_label
add_label-Inv t id label h v = elim (Option-cases (find id h.running_calls)) [
  | inl e ↦ rw (e, add_label) tt
  | inr (c, e) ↦
      rw (e, add_label)
        (record {
          timed = v.timed;
          began = replace-All (Began t h.next_id) id c _ h.running_calls e (λ j b. b) v.began;
          rising = replace-Rising id c _ h.running_calls e v.rising;
        })
]

finish-Inv :
    (f : RunningCall → Call) (t id : ℕ) (h : HistoryRecorder)
    → ((c : RunningCall) → c.start_time ≤ t → Timed (f c))
    → Inv t h
    → Keeps t (finish f id h)
unfolding finish
finish-Inv f t id h p v = elim (Option-cases (find id h.running_calls)) [
  | inl e ↦ rw (e, finish) tt
  | inr (c, e) ↦
      rw (e, finish)
        (record {
          timed =
              All-append Timed h.finalized_calls (f c ∷ []) v.timed
                (p c (find-All (Began t h.next_id) id h.running_calls e v.began).1.0, tt);
          began = erase-All (Began t h.next_id) id h.running_calls v.began;
          rising = erase-Rising id h.running_calls v.rising;
        })
]

pub complete-Timed :
    (t : ℕ) (c : RunningCall) (w : Value) → c.start_time ≤ t → Timed (complete t c w)
unfolding complete precedes_in_real_time
complete-Timed t c w h = ground arith

pub lost-Timed : (c : RunningCall) → Timed (lost c)
unfolding lost precedes_in_real_time
lost-Timed c = refl

remove_call-Inv : (t id : ℕ) (h : HistoryRecorder) → Inv t h → Inv t (remove_call id h)
unfolding remove_call
remove_call-Inv t id h v = record {
  timed = v.timed;
  began = erase-All (Began t h.next_id) id h.running_calls v.began;
  rising = erase-Rising id h.running_calls v.rising;
}

call_lost-Inv : (t id : ℕ) (h : HistoryRecorder) → Inv t h → Keeps t (call_lost id h)
unfolding call_lost
call_lost-Inv t id h v = finish-Inv lost t id h (λ c _. lost-Timed c) v

pub record_call_result-Inv :
    (t id : ℕ) (r : RpcResult) (h : HistoryRecorder)
    → Inv t h
    → Keeps t (record_call_result t id r h)
unfolding record_call_result call_completed
record_call_result-Inv t id (value output) h v =
    finish-Inv _ t id h (λ c le. complete-Timed t c _ le) v
record_call_result-Inv t id transport_error h v = call_lost-Inv t id h v
record_call_result-Inv t id execution_error h v = call_lost-Inv t id h v
record_call_result-Inv t id other_error h v = remove_call-Inv t id h v

-- ===== src/History/Runs.antt =====
-- Whole runs of the recorder: the calls that clients begin, and the results that they receive.
use Prim.Native.String.{String}
use text.Mathlib.Text.{◌==◌ as str_eq}
use mathlib.Core.Bool.{Bool-set}
use mathlib.Core.Path.{subst}
use mathlib.Core.List.{append-nil}
use whirl_matrix.Base.{
  ℕ, ◌≤◌, ◌<◌, ◌≡◌, refl, true, false, Bool-cases, inl, inr, none, some, List, [], ◌∷◌, ◌++◌, arith,
  ◌==◌, if◌then◌else◌, All, All-append, All-mem, Outcome, ok, panic, ◌>>=◌, Outcome-cases,
}
use whirl_matrix.Semantics.{Call}
use whirl_matrix.Semantics.Checker.Tried.{IsTimed}
use whirl_matrix.History.{
  RunningCall, HistoryRecorder, empty, find, erase, call_started, add_label, finish, complete, lost,
  call_completed, call_lost, channel_call, remove_call, lost_all, finalize, RpcResult,
  record_call_result, maybe_completed, value, transport_error, execution_error, other_error,
}
use whirl_matrix.History.Recorded.{
  Entries, Inv, Keeps, Rising, Timed, lost-Timed, Inv-later, empty-Inv, call_started-Inv,
  add_label-Inv, record_call_result-Inv,
}

-- What the clients do: begin calls, and receive results.
pub data Event : Type 0 where
  begins : String → String → String → Event
  receives : ℕ → RpcResult → Event

unfoldable pub handle : ℕ → Event → HistoryRecorder → Outcome HistoryRecorder
unfolding channel_call record_call_result
handle now (begins method input trace_id) h = elim (channel_call now method input trace_id h) [
  | ok (cookie, h') ↦ ok h'
  | panic ↦ panic
]
handle now (receives cookie result) h = record_call_result now cookie result h

-- The events with the times at which they happen.
unfoldable pub run : List (ℕ × Event) → HistoryRecorder → Outcome HistoryRecorder
unfolding handle
run [] h = ok h
run ((now, e) ∷ es) h = handle now e h >>= run es

-- The clock does not run backwards.
abbrev pub Ascending : ℕ → List (ℕ × Event) → Type 0
Ascending t [] = Unit
Ascending t ((now, e) ∷ es) = (t ≤ now) × Ascending now es

handle_untraced :
    (t : ℕ) (method input trace_id : String) (h : HistoryRecorder)
    → str_eq trace_id "" ≡ true
    → handle t (begins method input trace_id) h ≡ ok (call_started t method input h).1
unfolding handle channel_call
handle_untraced t method input trace_id h e = ground arith

-- With a trace id the result is that of `add_label`.
handle_traced :
    (t : ℕ) (method input trace_id : String) (h : HistoryRecorder)
    → str_eq trace_id "" ≡ false
    → handle t (begins method input trace_id) h
      ≡ add_label (call_started t method input h).0 trace_id (call_started t method input h).1
unfolding handle channel_call
handle_traced t method input trace_id h e = ground (
  arith,
  Outcome-cases
      (add_label (call_started t method input h).0 trace_id (call_started t method input h).1),
)

pub handle-Inv : (t : ℕ) (e : Event) (h : HistoryRecorder) → Inv t h → Keeps t (handle t e h)
handle-Inv t (receives cookie result) h v =
    unfold handle in record_call_result-Inv t cookie result h v
handle-Inv t (begins method input trace_id) h v =
    let started = call_started-Inv t method input h v in
    elim (Bool-cases (str_eq trace_id "")) [
      | inl e ↦ rw (handle_untraced t method input trace_id h e) started
      | inr e ↦
          rw (handle_traced t method input trace_id h e) (add_label-Inv t _ trace_id _ started)
    ]

run-Inv :
    (t : ℕ) (es : List (ℕ × Event)) (h h' : HistoryRecorder)
    → Ascending t es
    → Inv t h
    → run es h ≡ ok h'
    → (u : ℕ) × Inv u h'
unfolding run
run-Inv t [] h h' asc v e = let same : h ≡ h' = cc in (t, subst (Inv t) same v)
run-Inv t ((now, e) ∷ es) h h' asc v q = elim (Outcome-cases (handle now e h)) [
  | inl p ↦ cc (p, q)
  | inr (h1, p) ↦
      run-Inv now es h1 h' asc.1 (subst (Keeps now) p (handle-Inv now e h (Inv-later asc.0 v)))
        (rw p at q)
]

pub lost_all-Timed : (m : Entries) → All Timed (lost_all m)
unfolding lost_all
lost_all-Timed [] = tt
lost_all-Timed ((id, c) ∷ m) = (lost-Timed c, lost_all-Timed m)

-- In a history that the recorder has made, from any calls and results in the order of their times,
-- no call ended before it began: the histories are such as the checker's verdict needs.
pub run-IsTimed :
    (es : List (ℕ × Event)) (h : HistoryRecorder)
    → Ascending 0 es
    → run es empty ≡ ok h
    → IsTimed (finalize h).finalized_calls
unfolding finalize
run-IsTimed es h asc e c k =
    let (u, v) = run-Inv 0 es empty h asc (empty-Inv 0) e in
    All-mem Timed (λ _. Bool-set _ _) _
      (All-append Timed h.finalized_calls _ v.timed (lost_all-Timed h.running_calls)) k

find_above : (i : ℕ) (m : Entries) → All (λ (e : ℕ × RunningCall). i < e.0) m → find i m ≡ none
unfolding find
find_above i [] h = refl
find_above i ((j, c) ∷ m) h = ground (arith, find_above i m h.1)

find-erase :
    (id j : ℕ) (m : Entries) → Rising m → find j (erase id m) ≡ (if j == id then none else find j m)
unfolding find erase
find-erase id j [] r = ground arith
find-erase id j ((i, c) ∷ m) r = ground (arith, find-erase id j m r.1, find_above i m r.0)

-- What a result adds to the history of a call.
abbrev pub finalized : ℕ → RunningCall → RpcResult → List Call
finalized now c (value output) = complete now c (record { bytes = output }) ∷ []
finalized now c transport_error = lost c ∷ []
finalized now c execution_error = lost c ∷ []
finalized now c other_error = []

-- After `finish`, whatever the call is turned into.
finish_found :
    (f : RunningCall → Call) (t id : ℕ) (h : HistoryRecorder) (c : RunningCall)
    → Inv t h
    → find id h.running_calls ≡ some c
    → (h' : HistoryRecorder) × (finish f id h ≡ ok h')
      × (h'.finalized_calls ≡ h.finalized_calls ++ f c ∷ [])
      × ((j : ℕ) → find j h'.running_calls ≡ (if j == id then none else find j h.running_calls))
unfolding finish
finish_found f t id h c v e = (
  record h {
    running_calls = erase id h.running_calls;
    finalized_calls = h.finalized_calls ++ f c ∷ [];
  },
  rw (e, finish),
  refl,
  λ j. find-erase id j h.running_calls v.rising,
)

-- The result of a call that is running is recorded: a value completes the call now, an error of the
-- transport or of the execution leaves it open, any other error takes it out. The call is then
-- running no more, the other calls run on, and nothing else is added to the history.
pub record_call_result_once :
    (t now cookie : ℕ) (r : RpcResult) (h : HistoryRecorder) (c : RunningCall)
    → Inv t h
    → find cookie h.running_calls ≡ some c
    → (h' : HistoryRecorder) × (record_call_result now cookie r h ≡ ok h')
      × (h'.finalized_calls ≡ h.finalized_calls ++ finalized now c r)
      × ((j : ℕ) → find j h'.running_calls ≡ (if j == cookie then none else find j h.running_calls))
unfolding record_call_result call_completed call_lost remove_call maybe_completed
record_call_result_once t now cookie (value output) h c v e =
    finish_found (λ d. complete now d (record { bytes = output })) t cookie h c v e
record_call_result_once t now cookie transport_error h c v e = finish_found lost t cookie h c v e
record_call_result_once t now cookie execution_error h c v e = finish_found lost t cookie h c v e
record_call_result_once t now cookie other_error h c v e = (
  record h { running_calls = erase cookie h.running_calls },
  refl,
  simp append-nil,
  λ j. find-erase cookie j h.running_calls v.rising,
)

-- ===== src/History.antt =====
-- matrix/history/recorder.hpp, recorder.cpp and channel.cpp: the recorder that turns the calls of
-- the clients into the history that the checker reads. `now` is GlobalNow(). `std::map` is a list
-- of its entries in the order of their cookies, which is the order in which they are made.
pub mod Recorded
pub mod Runs
use Prim.Native.String.{String}
use text.Mathlib.Text.{◌==◌ as str_eq}
use whirl_matrix.Base.{
  ℕ, ◌+◌, Bool, true, false, Option, none, some, List, [], ◌∷◌, ◌++◌, ◌==◌, if◌then◌else◌, Outcome,
  ok, panic,
}
use whirl_matrix.Semantics.{Value, Arguments, Call, is_completed}

pub record RunningCall : Type 0 where
  pub method : String
  pub arguments : Arguments
  pub start_time : ℕ
  pub labels : List String

pub record HistoryRecorder : Type 0 where
  pub finalized_calls : List Call
  pub next_id : ℕ
  pub running_calls : List (ℕ × RunningCall)

unfoldable pub empty : HistoryRecorder
empty = record { finalized_calls = []; next_id = 0; running_calls = [] }

unfoldable pub find : ℕ → List (ℕ × RunningCall) → Option RunningCall
find id [] = none
find id ((j, c) ∷ m) = if j == id then some c else find id m

unfoldable pub erase : ℕ → List (ℕ × RunningCall) → List (ℕ × RunningCall)
erase id [] = []
erase id ((j, c) ∷ m) = if j == id then m else (j, c) ∷ erase id m

unfoldable pub replace : ℕ → RunningCall → List (ℕ × RunningCall) → List (ℕ × RunningCall)
replace id d [] = []
replace id d ((j, c) ∷ m) = if j == id then (j, d) ∷ m else (j, c) ∷ replace id d m

unfoldable pub complete : ℕ → RunningCall → Value → Call
complete now call result = record {
  method = call.method;
  arguments = call.arguments;
  result = some result;
  start_time = call.start_time;
  end_time = some now;
  labels = call.labels;
}

unfoldable pub lost : RunningCall → Call
lost call = record {
  method = call.method;
  arguments = call.arguments;
  result = none;
  start_time = call.start_time;
  end_time = none;
  labels = call.labels;
}

unfoldable pub call_started : ℕ → String → String → HistoryRecorder → ℕ × HistoryRecorder
call_started now method input h =
    let id = h.next_id + 1 in
    let call : RunningCall = record {
      method = method;
      arguments = record { bytes = input };
      start_time = now;
      labels = [];
    } in
    (id, record h { next_id = id; running_calls = h.running_calls ++ (id, call) ∷ [] })

unfoldable pub add_label : ℕ → String → HistoryRecorder → Outcome HistoryRecorder
unfolding find replace
add_label id label h = elim (find id h.running_calls) [
  | none ↦ panic
  | some c ↦ ok (record h {
    running_calls = replace id (record c { labels = c.labels ++ label ∷ [] }) h.running_calls;
  })
]

-- The source does not look whether the cookie is there: without it, its behaviour is undefined.
unfoldable pub finish : (RunningCall → Call) → ℕ → HistoryRecorder → Outcome HistoryRecorder
unfolding find erase
finish f id h = elim (find id h.running_calls) [
  | none ↦ panic
  | some c ↦ ok (record h {
    running_calls = erase id h.running_calls;
    finalized_calls = h.finalized_calls ++ f c ∷ [];
  })
]

unfoldable pub call_completed : ℕ → ℕ → String → HistoryRecorder → Outcome HistoryRecorder
unfolding finish complete
call_completed now id output = finish (λ c. complete now c (record { bytes = output })) id

unfoldable pub call_lost : ℕ → HistoryRecorder → Outcome HistoryRecorder
unfolding finish lost
call_lost = finish lost

unfoldable pub remove_call : ℕ → HistoryRecorder → HistoryRecorder
unfolding erase
remove_call id h = record h { running_calls = erase id h.running_calls }

unfoldable pub count_completed : List Call → ℕ
unfolding is_completed
count_completed [] = 0
count_completed (c ∷ l) = if is_completed c then count_completed l + 1 else count_completed l

unfoldable pub num_completed_calls : HistoryRecorder → ℕ
unfolding count_completed
num_completed_calls h = count_completed h.finalized_calls

unfoldable pub lost_all : List (ℕ × RunningCall) → List Call
unfolding lost
lost_all [] = []
lost_all ((id, c) ∷ m) = lost c ∷ lost_all m

unfoldable pub finalize : HistoryRecorder → HistoryRecorder
unfolding lost_all
finalize h = record h { finalized_calls = h.finalized_calls ++ lost_all h.running_calls }

-- channel.cpp: the result of an RPC is a value or an error. An error of the transport or of the
-- execution leaves open whether the call took effect.
pub data RpcResult : Type 0 where
  value : String → RpcResult
  transport_error execution_error other_error : RpcResult

unfoldable pub maybe_completed : RpcResult → Bool
maybe_completed transport_error = true
maybe_completed execution_error = true
maybe_completed _ = false

unfoldable pub record_call_result : ℕ → ℕ → RpcResult → HistoryRecorder → Outcome HistoryRecorder
unfolding call_completed call_lost remove_call maybe_completed
record_call_result now cookie (value output) h = call_completed now cookie output h
record_call_result now cookie error h =
    if maybe_completed error then call_lost cookie h else ok (remove_call cookie h)

-- HistoryChannel::Call, up to the call of the channel below.
unfoldable pub channel_call :
    ℕ → String → String → String → HistoryRecorder → Outcome (ℕ × HistoryRecorder)
unfolding call_started add_label
channel_call now method input trace_id h =
    let (cookie, h') = call_started now method input h in
    if str_eq trace_id ""
    then ok (cookie, h')
    else elim (add_label cookie trace_id h') [ ok h'' ↦ ok (cookie, h'') | panic ↦ panic ]

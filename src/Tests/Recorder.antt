-- ===== src/Tests/Recorder.antt =====
-- The recorder of histories on two calls.
use whirl_matrix.Base.{
  ℕ, ◌≡◌, refl, none, some, List, [], ◌∷◌, ◌++◌, arith, ok, ◌==◌, if◌then◌else◌,
}
use whirl_matrix.Semantics.Checker.Tried.{IsTimed}
use whirl_matrix.History.{
  HistoryRecorder, RunningCall, empty, find, record_call_result, finalize, value, call_started,
}
use whirl_matrix.History.Recorded.{empty-Inv, call_started-Inv}
use whirl_matrix.History.Runs.{
  run, Event, begins, receives, run-IsTimed, record_call_result_once, finalized,
}

abbrev two_calls : List (ℕ × Event)
two_calls = (1, begins "Set" "x" "") ∷ (2, begins "Get" "" "") ∷ (5, receives 1 (value "")) ∷ []

abbrev recorded : HistoryRecorder
recorded = record {
  finalized_calls =
      record {
        method = "Set";
        arguments = record { bytes = "x" };
        result = some (record { bytes = "" });
        start_time = 1;
        end_time = some 5;
        labels = [];
      }
      ∷ [];
  next_id = 2;
  running_calls =
      (2, record { method = "Get"; arguments = record { bytes = "" }; start_time = 2; labels = [] })
      ∷ [];
}

run-IsTimed_example : IsTimed (finalize recorded).finalized_calls
unfolding run empty
run-IsTimed_example =
    run-IsTimed two_calls recorded (omega arith, (omega arith, (omega arith, tt))) refl

abbrev set_call : RunningCall
set_call = record {
  method = "Set";
  arguments = record { bytes = "x" };
  start_time = 1;
  labels = [];
}

record_call_result_once_example :
    (h' : HistoryRecorder) × (record_call_result 5 1 (value "") (call_started 1 "Set" "x" empty).1
      ≡ ok h')
    × (h'.finalized_calls ≡ [] ++ finalized 5 set_call (value ""))
    × ((j : ℕ)
        → find j h'.running_calls
          ≡ (if j == 1 then none else find j (call_started 1 "Set" "x" empty).1.running_calls))
unfolding call_started empty find
record_call_result_once_example =
    record_call_result_once 1 5 1 (value "") (call_started 1 "Set" "x" empty).1 set_call
      (call_started-Inv 1 "Set" "x" empty (empty-Inv 1)) refl

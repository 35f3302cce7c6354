-- ===== src/Tests/Timelines.antt =====
-- A world of two servers and a frame on its way.
use whirl_matrix.History.{empty, finalize, value}
use whirl_matrix.History.Runs.{begins, receives, handle}
use whirl_matrix.Semantics.{precedes_in_real_time}
use whirl_matrix.Semantics.Linearization.{IsLinearizable}
use whirl_matrix.Semantics.Checker.{lin_check}
use whirl_matrix.Semantics.Kv.{kv_store_model, apply, decompose}
use whirl_matrix.Tests.Checker.{one_key}
use whirl_matrix.World.System.Recorded.{make_steps-refused}
use native.Mathlib.Nat.{div-le_self}
use whirl_matrix.Base.{
  ℕ, ◌+◌, ◌/◌, ◌^◌, ◌<◌, ◌≡◌, refl, inl, inr, Bool, true, false, [], ◌∷◌, arith, ltb, Bool-cases,
  Outcome, ok, panic, Ensures, if◌then◌else◌,
}
use whirl_matrix.Clocks.{timeout_of}
use whirl_matrix.Server.{Server, running}
use whirl_matrix.Transport.{closure}
use whirl_matrix.World.{World, step, make_steps}
use whirl_matrix.World.System.{
  record_call, System, Code, done, asks, timer, pause_server, resume_server, Programs, actors,
  actor_times, step_actor, run_effect,
}
use whirl_matrix.World.System.Effects.{AllFit}
use whirl_matrix.World.System.Timeline.{IsPunctual, IsOnward, make_steps-IsOnward}
use whirl_matrix.Tests.Nets.{hashes, one_frame}
use whirl_matrix.Tests.Machines.{busy}

abbrev at_work : ℕ → Server
at_work at = record busy {
  state = running;
  transport = record busy.transport {
    scheduler = record {
      items = record { item = record { at_time = at; task = closure 0 }; tie_braker = 1 } ∷ [];
      inserts = 1;
    };
  };
}

-- The program of a server: a timer, while it is early, and then a pause of the second server, which ends at once.
abbrev pauses : Code
pauses = asks (pause_server 1) (λ s. asks (resume_server 1) (λ s'. done))

abbrev with_timer : Bool → Code
with_timer true = asks (timer 5 1) (λ s. pauses)
with_timer false = pauses

abbrev programs : Programs
programs = record { code = λ j now task sys. with_timer (ltb now 1000); flight_time = λ now sys. 2 }

abbrev small : World System
small = record {
  actors = record { servers = at_work 3 ∷ at_work 7 ∷ []; network = one_frame; history = empty };
  now = 2;
  start_time = 2;
  step_number = 0;
  digest = 0;
}

everywhere : {A : Type 0} (P : A → Type 0) (m : Outcome A) → ((a : A) → P a) → Ensures P m
everywhere P (ok a) h = h a
everywhere P panic h = tt

pauses-AllFit : (now j : ℕ) (sys : System) → AllFit now j pauses sys
pauses-AllFit now j sys = (
  tt,
  everywhere (λ s. AllFit now j (asks (resume_server 1) (λ s'. done)) s)
      (run_effect now j (pause_server 1) sys)
      (λ s. (
        tt,
        everywhere (λ s'. AllFit now j done s') (run_effect now j (resume_server 1) s) (λ s'. tt),
      )),
)

short_timer :
    (now : ℕ) (rate : ℕ)
    → now < 1000
    → now + (if ltb (500 / rate) 1 then 1 else 500 / rate) < 2 ^ 64
short_timer now rate h = elim (Bool-cases (ltb (500 / rate) 1)) [
  | inl e ↦ rw e (omega arith)
  | inr e ↦ rw e (omega (arith, div-le_self 500 rate))
]

with_timer-AllFit :
    (early : Bool) (now j : ℕ) (sys : System)
    → (early ≡ true → now < 1000)
    → AllFit now j (with_timer early) sys
unfolding timeout_of
with_timer-AllFit true now j sys h = (
  (λ s q. short_timer now s.monotonic_clock.rate (h refl)),
  everywhere (λ s. AllFit now j pauses s) (run_effect now j (timer 5 1) sys) (pauses-AllFit now j),
)
with_timer-AllFit false now j sys h = pauses-AllFit now j sys

programs-IsPunctual : IsPunctual hashes programs 5000
programs-IsPunctual = (
  λ now j task sys b. with_timer-AllFit (ltb now 1000) now j sys (λ e. ground arith),
  λ now sys b. omega arith,
)

abbrev end_of : Outcome (ℕ × World System) → World System
end_of (ok r) = r.1
end_of panic = small

abbrev three_steps : World System
three_steps = end_of (make_steps hashes (actors hashes programs) 3 small)

make_steps-IsOnward_example : IsOnward hashes programs 5000 small three_steps
unfolding make_steps step actor_times step_actor whirl_matrix.Server.pause
make_steps-IsOnward_example =
    make_steps-IsOnward hashes programs 5000 3 3 small three_steps programs-IsPunctual
      (((λ e. (omega arith, tt)), ((λ e. (omega arith, tt)), tt)), (omega arith, tt)) refl
      (omega arith)

abbrev time_after : Outcome (ℕ × World System) → ℕ
time_after (ok r) = r.1.now
time_after panic = 0

-- The first server at 3, the frame at 5 and its message, and the second server at 7.
four_steps : time_after (make_steps hashes (actors hashes programs) 4 small) ≡ 7
unfolding make_steps step actor_times step_actor whirl_matrix.Server.pause
four_steps = refl

-- A read that returns a value that was never written, as the client records it.
abbrev reads : Code
reads =
    asks (record_call (begins "Get" "" ""))
      (λ s. asks (record_call (receives 1 (value "y"))) (λ s'. done))

abbrev readers : Programs
readers = record { code = λ j now task sys. reads; flight_time = λ now sys. 2 }

abbrev one_read : World System
one_read = end_of (make_steps hashes (actors hashes readers) 1 small)

make_steps-refused_example :
    ¬ IsLinearizable (kv_store_model one_key) (finalize one_read.actors.history).finalized_calls
unfolding make_steps step actor_times step_actor empty finalize lin_check apply handle decompose
    precedes_in_real_time
make_steps-refused_example =
    make_steps-refused hashes readers one_key 1 1 small one_read refl refl refl

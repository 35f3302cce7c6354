-- ===== src/Clocks.antt =====
-- matrix/clocks, matrix/time/time.hpp and matrix/guids: the virtual time of the world, the clocks of
-- a server and the generator of ids. Counts of jiffies are unsigned 64-bit numbers. A drift is an `int`
-- from -99 on: `rate` is `100 + drift_`, from 1 on. What the time model chooses is an argument.
pub mod Drift
use whirl_matrix.Base.{
  ℕ, ◌+◌, ◌-◌, ◌*◌, ◌/◌, ◌%◌, ◌^◌, not, ◌==◌, ltb, if◌then◌else◌, Outcome, ok, ◌>>◌, verify,
}

abbrev pub word : ℕ → ℕ
word n = n % 2 ^ 64

unfoldable pub elapsed : ℕ → ℕ → ℕ
elapsed rate real = word (real * rate) / 100

unfoldable pub sleep_or_timeout : ℕ → ℕ → ℕ
sleep_or_timeout rate user =
    if user == 0 then 0 else (let real = word (user * 100) / rate in if ltb real 1 then 1 else real)

pub record MonotonicClock : Type 0 where
  pub rate : ℕ
  pub last_reset : ℕ
  pub init : ℕ

unfoldable pub reset : ℕ → ℕ → MonotonicClock → MonotonicClock
reset init now clock = record clock { init = init; last_reset = now }

unfoldable pub init_clock : ℕ → ℕ → ℕ → MonotonicClock → MonotonicClock
unfolding reset
init_clock rate init now clock = reset init now (record clock { rate = rate })

unfoldable pub elapsed_since_last_reset : ℕ → MonotonicClock → ℕ
elapsed_since_last_reset now clock = now - clock.last_reset

unfoldable pub monotonic_now : ℕ → MonotonicClock → ℕ
unfolding elapsed elapsed_since_last_reset
monotonic_now now clock =
    word (elapsed clock.rate (elapsed_since_last_reset now clock) + clock.init)

unfoldable pub timeout_of : ℕ → MonotonicClock → ℕ
unfolding sleep_or_timeout
timeout_of delay clock = sleep_or_timeout clock.rate delay

-- A wall clock is its offset.
unfoldable pub wall_now : ℕ → ℕ → ℕ
wall_now now offset = word (now + offset)

-- Time::FastForwardTo
unfoldable pub fast_forward_to : ℕ → ℕ → Outcome ℕ
fast_forward_to future now = verify (not (ltb future now)) >> ok future

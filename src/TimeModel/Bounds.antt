-- ===== src/TimeModel/Bounds.antt =====
-- The range of what the time model draws.
use mathlib.Core.Path.{subst}
use native.Mathlib.Nat.{mul-le-mul_left}
use whirl_matrix.Base.{
  ℕ, ◌+◌, ◌*◌, ◌/◌, ◌^◌, ◌≤◌, ◌<◌, ◌≡◌, inl, inr, arith, Outcome, Outcome-cases, ok, panic,
}
use whirl_matrix.Clocks.{sleep_or_timeout}
use whirl_matrix.Clocks.Drift.{sleep_eq, quotient_lower, quotient_upper}
use whirl_matrix.TimeModel.{Generator, RandomSource, number_below, init_clock_drift, one_of}

-- A draw that succeeds, with a number in the range.
abbrev pub Yields : {R : Type 0} → ℕ → ℕ → Outcome (ℕ × RandomSource R) → Type 0
Yields lo hi (ok (n, source)) = (lo ≤ n) × (n < hi)
Yields lo hi panic = ⊥

module _ {R : Type 0} (g : Generator R) where
  -- The rate of a clock of the Crazy time model is at least 25 and less than 400, in hundredths.
  pub init_clock_drift-bounds :
      (source : RandomSource R) → Yields 25 400 (init_clock_drift g source)
  unfolding init_clock_drift number_below one_of
  init_clock_drift-bounds source = ground arith

-- The sleep of a clock whose rate is in the range of the Crazy time model.
sleep_range :
    (rate user : ℕ)
    → 25 ≤ rate
    → rate < 400
    → 1 ≤ user
    → user * 100 < 2 ^ 64
    → (sleep_or_timeout rate user ≤ 4 * user) × (user < 4 * (sleep_or_timeout rate user + 1))
sleep_range rate user lo hi some_time small =
    let q = user * 100 / rate in
    let below : q * rate ≤ user * 100 = quotient_lower (user * 100) rate in
    let above : user * 100 < q * rate + rate = quotient_upper (user * 100) rate (omega arith) in
    let slow : q * 25 ≤ q * rate = mul-le-mul_left q lo in
    let fast : q * rate ≤ q * 400 = mul-le-mul_left q (omega arith) in
    rw (sleep_eq rate user some_time small) (ground (arith, below, above, slow, fast))

module _ {R : Type 0} (g : Generator R) where
  -- On a clock whose drift the Crazy time model has drawn, a sleep of `user` jiffies, `user` not zero,
  -- takes at most four times as many jiffies of the world's time, and at least a fourth of them less
  -- one, where the multiplication does not wrap. The draw of the drift does not fail.
  pub sleep_bounds :
      (source : RandomSource R) (user : ℕ)
      → 1 ≤ user
      → user * 100 < 2 ^ 64
      → (rate : ℕ) × (source' : RandomSource R) × (init_clock_drift g source ≡ ok (rate, source'))
        × (sleep_or_timeout rate user ≤ 4 * user)
        × (user < 4 * (sleep_or_timeout rate user + 1))
  sleep_bounds source user some_time small = elim (Outcome-cases (init_clock_drift g source)) [
    | inl e ↦ absurd (subst (Yields 25 400) e (init_clock_drift-bounds g source))
    | inr ((rate, source'), e) ↦
        let (lo, hi) = subst (Yields 25 400) e (init_clock_drift-bounds g source) in
        (let (slow, fast) = sleep_range rate user lo hi some_time small in
          (rate, source', e, slow, fast))
  ]

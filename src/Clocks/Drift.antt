-- ===== src/Clocks/Drift.antt =====
-- matrix/clocks/drift.hpp: the clocks of a server against the time of the world.
use Prim.Native.Nat.{max}
use mathlib.Core.Path.{subst}
use native.Mathlib.Nat.{div-add-mod, mod-lt, mod-eq_of_lt}
use whirl_matrix.Base.{
  ℕ, ◌+◌, ◌*◌, ◌/◌, ◌^◌, ◌≤◌, ◌<◌, ◌≡◌, inl, inr, sym, ap, ◌∙◌, refl, true, false, arith,
  Bool-cases, ltb, if◌then◌else◌,
}
use whirl_matrix.Clocks.{elapsed, sleep_or_timeout}

-- The sleep of `user` jiffies, where nothing wraps.
pub sleep_eq :
    (rate user : ℕ)
    → 1 ≤ user
    → user * 100 < 2 ^ 64
    → sleep_or_timeout rate user ≡ (if ltb (user * 100 / rate) 1 then 1 else user * 100 / rate)
unfolding sleep_or_timeout
sleep_eq rate user h b = rw (mod-eq_of_lt b) (ground arith)

elapsed_eq : (rate real : ℕ) → real * rate < 2 ^ 64 → elapsed rate real ≡ real * rate / 100
unfolding elapsed
elapsed_eq rate real b = rw (mod-eq_of_lt b) refl

pub quotient_lower : (n d : ℕ) → n / d * d ≤ n
quotient_lower n d = grind (arith, div-add-mod n d)

pub quotient_upper : (n d : ℕ) → 1 ≤ d → n < n / d * d + d
quotient_upper n d h = grind (arith, div-add-mod n d, mod-lt n h)

abbrev IsClose : ℕ → ℕ → ℕ → Type 0
IsClose rate user real =
    (1 ≤ real)
    × (elapsed rate real ≤ max user (rate / 100))
    × (user * 100 < elapsed rate real * 100 + 100 + rate)

pub ltb_zero : (n d : ℕ) → 1 ≤ d → ltb (n / d) 1 ≡ true → n < d
ltb_zero n d h e =
    let zero_quotient : n / d ≡ 0 = ground arith in
    let upper : n < 0 * d + d = rw (sym zero_quotient) (quotient_upper n d h) in omega arith

elapsed-sleep_short :
    (rate user : ℕ)
    → 1 ≤ rate
    → sleep_or_timeout rate user ≡ 1
    → ltb (user * 100 / rate) 1 ≡ true
    → sleep_or_timeout rate user * rate < 2 ^ 64
    → IsClose rate user (sleep_or_timeout rate user)
elapsed-sleep_short rate user h s e c =
    let above : user * 100 < rate = ltb_zero (user * 100) rate h e in
    let room : 1 * rate < 2 ^ 64 = subst (λ r. r * rate < 2 ^ 64) s c in
    subst (IsClose rate user) (sym s) (
      omega arith,
      rw (elapsed_eq rate 1 room) (omega arith),
      rw (elapsed_eq rate 1 room) (omega arith),
    )

elapsed-sleep_long :
    (rate user : ℕ)
    → 1 ≤ rate
    → sleep_or_timeout rate user ≡ user * 100 / rate
    → ltb (user * 100 / rate) 1 ≡ false
    → sleep_or_timeout rate user * rate < 2 ^ 64
    → IsClose rate user (sleep_or_timeout rate user)
elapsed-sleep_long rate user h s e c =
    let below : sleep_or_timeout rate user * rate ≤ user * 100 =
      rw s (quotient_lower (user * 100) rate) in
    let above : user * 100 < sleep_or_timeout rate user * rate + rate =
      rw s (quotient_upper (user * 100) rate h) in
    let pos : 1 ≤ sleep_or_timeout rate user = rw s (ground arith) in
    rw (elapsed_eq rate (sleep_or_timeout rate user) c) (pos, omega arith, omega arith)

-- A sleep of `user` jiffies of a clock's time, `user` not zero, lasts at least one jiffy of the
-- world's, and the clock has then advanced by at most `user` jiffies, or by at most one hundredth
-- of the rate if that is more, and by more than `user` less one hundredth of the rate less one
-- jiffy, when no multiplication wraps.
pub elapsed-sleep_or_timeout :
    (rate user : ℕ)
    → 1 ≤ rate
    → 1 ≤ user
    → user * 100 < 2 ^ 64
    → sleep_or_timeout rate user * rate < 2 ^ 64
    → (1 ≤ sleep_or_timeout rate user)
      × (elapsed rate (sleep_or_timeout rate user) ≤ max user (rate / 100))
      × (user * 100 < elapsed rate (sleep_or_timeout rate user) * 100 + 100 + rate)
elapsed-sleep_or_timeout rate user h k b c = elim (Bool-cases (ltb (user * 100 / rate) 1)) [
  | inl e ↦
      elapsed-sleep_short rate user h
        (sleep_eq rate user k b ∙ ap (λ t. if t then 1 else user * 100 / rate) e) e c
  | inr e ↦
      elapsed-sleep_long rate user h
        (sleep_eq rate user k b ∙ ap (λ t. if t then 1 else user * 100 / rate) e) e c
]

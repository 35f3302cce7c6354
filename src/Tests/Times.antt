-- ===== src/Tests/Times.antt =====
-- The time model, the ids and the addresses at small inputs.
use mathlib.Core.List.{Perm}
use whirl_matrix.Base.{
  ℕ, zero, suc, ◌+◌, ◌*◌, ◌≤◌, ◌<◌, ◌≡◌, refl, ◌++◌, List, [], ◌∷◌, arith, ok, length,
}
use whirl_matrix.Clocks.{sleep_or_timeout}
use whirl_matrix.TimeModel.{Generator, RandomSource, init_clock_drift, global_random_select}
use whirl_matrix.TimeModel.Bounds.{sleep_bounds}
use whirl_matrix.TimeModel.Selection.{global_random_select_lem}
use whirl_matrix.Runtime.{parse_address, make_address}
use whirl_matrix.Runtime.Addresses.{parse_address-make_address}

abbrev counting : Generator ℕ
counting = record { seed = λ s. s; generate = λ r. (r * 7 + 3, r + 1) }

abbrev fresh : RandomSource ℕ
fresh = record { impl = 5; steps = 0 }

sleep_bounds_example :
    (rate : ℕ) × (source' : RandomSource ℕ) × (init_clock_drift counting fresh ≡ ok (rate, source'))
    × (sleep_or_timeout rate 10 ≤ 4 * 10)
    × (10 < 4 * (sleep_or_timeout rate 10 + 1))
sleep_bounds_example = sleep_bounds counting fresh 10 (omega arith) (omega arith)

abbrev four : List ℕ
four = 10 ∷ 20 ∷ 30 ∷ 40 ∷ []

global_random_select_lem_example :
    (selected rest : List ℕ) × (source' : RandomSource ℕ) × (global_random_select counting four 2
        fresh
      ≡ ok (selected, source'))
    × (length selected ≡ 2)
    × Perm (selected ++ rest) four
global_random_select_lem_example = global_random_select_lem counting four 2 fresh (omega arith)

-- Numbers as bytes, in unary.
abbrev strokes : ℕ → List ℕ
strokes zero = []
strokes (suc n) = b'1' ∷ strokes n

abbrev count_strokes : List ℕ → ℕ
count_strokes [] = 0
count_strokes (x ∷ l) = suc (count_strokes l)

reads_strokes : (n : ℕ) → count_strokes (strokes n) ≡ n
reads_strokes zero = refl
reads_strokes (suc n) = omega (arith, reads_strokes n)

parse_address-make_address_example :
    parse_address count_strokes (make_address strokes (b'a' ∷ b'b' ∷ []) 3) ≡ (b'a' ∷ b'b' ∷ [], 3)
parse_address-make_address_example =
    parse_address-make_address count_strokes strokes reads_strokes (b'a' ∷ b'b' ∷ []) 3
      (λ e. absurd (omega arith), (λ e. absurd (omega arith), tt)) (omega arith)

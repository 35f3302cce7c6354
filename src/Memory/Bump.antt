-- ===== src/Memory/Bump.antt =====
-- The bump pointer of the allocator: what AllocateNewBlock writes stays in the arena.
use whirl_matrix.Base.{ℕ, ◌+◌, ◌-◌, ◌%◌, ◌<◌, ◌≤◌, ◌≡◌, ok}
use whirl_matrix.Memory.{Allocator, zero_fill_to}

-- The part filled with zeroes is a whole number of blocks and ends in the arena, which is a whole
-- number of blocks; the next block begins in the arena, at an aligned address.
pub record IsBounded (a : Allocator) : Type 0 where
  pub ordered : (a.start ≤ a.next) × (a.start ≤ a.zfilled) × (a.next ≤ a.end) × (a.zfilled ≤ a.end)
  pub blocks : (a.end - a.start) % 4096 ≡ 0
  pub filled : (a.zfilled - a.start) % 4096 ≡ 0
  pub aligned : a.next % 16 ≡ 0

abbrev IsFilled : ℕ → ℕ → ℕ → ℕ → ℕ → Type 0
IsFilled fuel pos start zfilled end =
    (z : ℕ) × (zero_fill_to fuel pos zfilled ≡ ok z)
    × (pos < z)
    × (z ≤ end)
    × ((z - start) % 4096 ≡ 0)
    × (zfilled ≤ z)

-- A block that was carved out of the arena: its address is aligned, it lies behind every block before it and in the
-- part that is filled with zeroes, and the allocator is still as it should be.
abbrev pub Fresh : ℕ → Allocator → ℕ × Allocator → Type 0
Fresh bytes a (user, b) =
    (user % 16 ≡ 0)
    × (a.next < user)
    × (user + bytes ≡ b.next)
    × (b.next < b.zfilled)
    × (b.end ≡ a.end)
    × IsBounded b

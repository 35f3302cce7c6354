-- ===== src/Tests/Arena.antt =====
-- The blocks of an allocator and the packets of a transport at small inputs.
use whirl_matrix.Base.{
  ℕ, ◌+◌, ◌≤◌, ◌<◌, ◌⊎◌, refl, true, [], ◌∷◌, arith, if◌then◌else◌, leb, replicate,
}
use whirl_matrix.Memory.{
  BitHacks, Allocator, make_allocator, allocate, free, reset, do_allocate, allocate_new_block,
  alloc_to_power_of_2, get_alloc_class, class_of, zero_fill_to, drop_headers, write_block_header,
  overflow, try_acquire, from_here, release, push, hard_reset,
}
use whirl_matrix.Fs.Table.{find_fd}
use whirl_matrix.Memory.Disjoint.{Reached, begins, allocates, frees, live-disjoint}

abbrev hacks : BitHacks
hacks = record {
  round_up_to_next_power_of_two = λ n. if leb n 16 then 16 else if leb n 32 then 32 else n;
  is_power_of_two = λ n. true;
}

rounds_up : (n : ℕ) → n ≤ hacks.round_up_to_next_power_of_two n
rounds_up n = ground arith

abbrev arena : Allocator
arena = record {
  block_lists = replicate 11 [];
  headers = [];
  start = 4096;
  end = 12288;
  next = 4096;
  zfilled = 4096;
}

abbrev one_block : Allocator
one_block = record arena { headers = (4096, 16) ∷ []; next = 4128; zfilled = 8192 }

abbrev two_blocks : Allocator
two_blocks = record arena { headers = (4128, 32) ∷ (4096, 16) ∷ []; next = 4176; zfilled = 8192 }

abbrev one_free : Allocator
one_free = record two_blocks { block_lists = [] ∷ (4096 ∷ []) ∷ replicate 9 [] }

held : Reached hacks two_blocks ((4112, 10) ∷ (4144, 20) ∷ [])
unfolding make_allocator allocate free reset do_allocate allocate_new_block alloc_to_power_of_2
    get_alloc_class class_of zero_fill_to drop_headers write_block_header overflow try_acquire
    from_here release push hard_reset find_fd
held =
    allocates one_free ((4144, 20) ∷ []) 10 4112
      (frees two_blocks ((4144, 20) ∷ (4112, 10) ∷ []) ((4144, 20) ∷ []) [] 4112 10
        (allocates one_block ((4112, 10) ∷ []) 20 4144
          (allocates arena [] 10 4112 (begins 4096 12288 refl refl) refl refl) refl refl)
        refl refl refl)
      refl refl

live-disjoint_example :
    ((4112 + 10 ≤ 4144) ⊎ (4144 + 20 ≤ 4112)) × (4096 ≤ 4112) × (4112 + 10 < 12288)
live-disjoint_example =
    live-disjoint hacks rounds_up two_blocks ((4112, 10) ∷ (4144, 20) ∷ []) 0 1 (4112, 10)
      (4144, 20) held refl refl (λ e. absurd (omega arith))

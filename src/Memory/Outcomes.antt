-- ===== src/Memory/Outcomes.antt =====
-- What a call of the allocator that succeeds has done.
use whirl_matrix.Base.{
  Ensures, ensured, ℕ, zero, suc, ◌+◌, ◌-◌, ◌%◌, ◌^◌, ◌≤◌, ◌<◌, ◌≡◌, ◌⊎◌, inl, inr, refl, ap, ◌∙◌,
  true, false, Option, none, some, List, [], ◌∷◌, arith, ltb, leb, ◌==◌, Bool-cases, Option-cases,
  Outcome-cases, Outcome, ok, panic, verify, ◌>>=◌, ◌>>◌, get_elem?, set,
}
use whirl_matrix.Fs.Table.{find_fd}
use whirl_matrix.Memory.{
  BitHacks, Allocator, class_of, large_alloc_class, allocate_new_block, zero_fill_to, overflow,
  write_block_header, drop_headers, try_acquire, push, alloc_to_power_of_2, get_alloc_class,
  do_allocate, allocate, free, from_here, release,
}

weaken :
    (r : Outcome ℕ) (pos zfilled : ℕ)
    → Ensures (λ z. (zfilled + 4096 ≤ z) × (pos < z)) r
    → Ensures (λ z. (zfilled ≤ z) × (pos < z)) r
weaken (ok z) pos zfilled (h, k) = (omega arith, k)
weaken panic pos zfilled h = tt

zero_fill-Ensures :
    (fuel pos zfilled : ℕ)
    → Ensures (λ z. (zfilled ≤ z) × (pos < z)) (zero_fill_to fuel pos zfilled)
unfolding zero_fill_to
zero_fill-Ensures zero pos zfilled = tt
zero_fill-Ensures (suc fuel) pos zfilled = elim (Bool-cases (leb zfilled pos)) [
  | inl e ↦
      rw (e, zero_fill_to)
        (weaken (zero_fill_to fuel pos (zfilled + 4096)) pos zfilled
          (zero_fill-Ensures fuel pos (zfilled + 4096)))
  | inr e ↦ rw (e, zero_fill_to) (omega arith, ground arith)
]

-- A block that was carved out of the arena.
pub record Carved (bytes : ℕ) (a : Allocator) (user : ℕ) (b : Allocator) : Type 0 where
  pub place : user ≡ a.next + 16
  pub moved : b.next ≡ a.next + 16 + bytes
  pub filled : (a.zfilled ≤ b.zfilled) × (b.next < b.zfilled)
  pub room : b.next < a.end
  pub bounds : (b.start ≡ a.start) × (b.end ≡ a.end)
  pub lists : b.block_lists ≡ a.block_lists
  pub header : b.headers ≡ (a.next, bytes % 2 ^ 32) ∷ drop_headers a.zfilled b.zfilled a.headers

-- A block that was free.
pub record Reused (bytes : ℕ) (a : Allocator) (user : ℕ) (b : Allocator) : Type 0 where
  pub class_index : ℕ
  pub block : ℕ
  pub rest : List ℕ
  pub small : (class_index == 0) ≡ false
  pub of_class : class_of bytes ≡ class_index
  pub found : get_elem? a.block_lists class_index ≡ some (block ∷ rest)
  pub place : user ≡ block + 16
  pub after : b ≡ record a { block_lists = set a.block_lists class_index rest }

carve-Ensures :
    (bytes : ℕ) (a : Allocator)
    → Ensures (λ (r : ℕ × Allocator). Carved bytes a r.0 r.1) (allocate_new_block bytes a)
unfolding allocate_new_block overflow write_block_header
carve-Ensures bytes a = elim (Bool-cases (a.next % 16 == 0)) [
  | inr aligned ↦ rw (aligned, allocate_new_block) tt
  | inl aligned ↦
      rw (aligned, allocate_new_block)
        (elim (Bool-cases (leb a.end (a.next + 16 + bytes))) [
          | inl room ↦ rw (room, allocate_new_block) tt
          | inr room ↦
              rw (room, allocate_new_block)
                (elim (Outcome-cases
                  (zero_fill_to (a.next + 16 + bytes + 2) (a.next + 16 + bytes) a.zfilled)) [
                    | inl e ↦ rw (e, allocate_new_block) tt
                    | inr (z, e) ↦
                        let filled =
                          ensured _ _ z
                            (zero_fill-Ensures (a.next + 16 + bytes + 2) (a.next + 16 + bytes)
                              a.zfilled)
                            e in
                        rw (e, allocate_new_block)
                          (record {
                            place = refl;
                            moved = refl;
                            filled = filled;
                            room = ground arith;
                            bounds = (refl, refl);
                            lists = refl;
                            header = refl;
                          })
                  ])
        ])
]

-- An allocation: a block carved out, or one that was free.
abbrev pub Allocated : ℕ → Allocator → ℕ × Allocator → Type 0
Allocated bytes a r = Carved bytes a r.0 r.1 ⊎ Reused bytes a r.0 r.1

Carved-Allocated :
    (bytes : ℕ) (a : Allocator) (r : Outcome (ℕ × Allocator))
    → Ensures (λ (r : ℕ × Allocator). Carved bytes a r.0 r.1) r
    → Ensures (Allocated bytes a) r
Carved-Allocated bytes a (ok r) h = inl h
Carved-Allocated bytes a panic h = tt

abbrev from_acquired : ℕ → Allocator → Outcome (Option ℕ × List (List ℕ)) → Outcome (ℕ × Allocator)
from_acquired bytes a acquired = acquired >>= λ r. elim r.0 [
  | some block ↦ ok (block + 16, record a { block_lists = r.1 })
  | none ↦ allocate_new_block bytes (record a { block_lists = r.1 })
]

abbrev acquired_of : ℕ → List (List ℕ) → Option (List ℕ) → Outcome (Option ℕ × List (List ℕ))
acquired_of k lists none = panic
acquired_of k lists (some []) = ok (none, lists)
acquired_of k lists (some (block ∷ rest)) = ok (some block, set lists k rest)

acquired_eq :
    (k : ℕ) (lists : List (List ℕ)) (l : Option (List ℕ))
    → leb k 10 ≡ true
    → get_elem? lists k ≡ l
    → try_acquire k lists ≡ acquired_of k lists l
unfolding try_acquire
acquired_eq k lists none h e = rw (h, try_acquire) (rw (e, try_acquire) refl)
acquired_eq k lists (some []) h e = rw (h, try_acquire) (rw (e, try_acquire) refl)
acquired_eq k lists (some (block ∷ rest)) h e = rw (h, try_acquire) (rw (e, try_acquire) refl)

too_large : (k : ℕ) (lists : List (List ℕ)) → leb k 10 ≡ false → try_acquire k lists ≡ panic
unfolding try_acquire
too_large k lists h = rw (h, try_acquire) refl

reuse-Ensures :
    (bytes k : ℕ) (a : Allocator) (l : Option (List ℕ))
    → (k == 0) ≡ false
    → class_of bytes ≡ k
    → get_elem? a.block_lists k ≡ l
    → Ensures (Allocated bytes a) (from_acquired bytes a (acquired_of k a.block_lists l))
reuse-Ensures bytes k a none small of_class found = tt
reuse-Ensures bytes k a (some []) small of_class found =
    Carved-Allocated bytes a _ (carve-Ensures bytes a)
reuse-Ensures bytes k a (some (block ∷ rest)) small of_class found = inr (record {
  class_index = k;
  block = block;
  rest = rest;
  small = small;
  of_class = of_class;
  found = found;
  place = refl;
  after = refl;
})

acquire-Ensures :
    (bytes k : ℕ) (a : Allocator)
    → (k == 0) ≡ false
    → class_of bytes ≡ k
    → Ensures (Allocated bytes a) (from_acquired bytes a (try_acquire k a.block_lists))
acquire-Ensures bytes k a small of_class = elim (Bool-cases (leb k 10)) [
  | inr e ↦ rw (too_large k a.block_lists e) tt
  | inl e ↦
      rw (acquired_eq k a.block_lists (get_elem? a.block_lists k) e refl)
        (reuse-Ensures bytes k a (get_elem? a.block_lists k) small of_class refl)
]

class-Ensures :
    (n k : ℕ) (a : Allocator)
    → class_of n ≡ k
    → Ensures (Allocated n a) (elim (k == 0) [
      | true ↦ allocate_new_block n a
      | false ↦ from_acquired n a (try_acquire k a.block_lists)
    ])
class-Ensures n k a of_class = elim (Bool-cases (k == 0)) [
  | inl f ↦ rw (f, Ensures) (Carved-Allocated n a (allocate_new_block n a) (carve-Ensures n a))
  | inr f ↦ rw (f, Ensures) (acquire-Ensures n k a f of_class)
]

last_check :
    (n : ℕ) (a : Allocator) (r : Outcome (ℕ × Allocator))
    → Ensures (Allocated n a) r
    → Ensures (Allocated n a) (r >>= λ r. verify (r.0 % 16 == 0) >> ok r)
last_check n a panic h = tt
last_check n a (ok r) h = elim (Bool-cases (r.0 % 16 == 0)) [
  | inl e ↦ rw (e, Ensures) h
  | inr e ↦ rw (e, Ensures) tt
]

module _ (hacks : BitHacks) where
  do_allocate-Ensures :
      (bytes : ℕ) (a : Allocator)
      → Ensures (Allocated (alloc_to_power_of_2 hacks bytes) a) (do_allocate hacks bytes a)
  unfolding do_allocate get_alloc_class
  do_allocate-Ensures bytes a =
      let n = alloc_to_power_of_2 hacks bytes in
      elim (Bool-cases (hacks.is_power_of_two n)) [
        | inr e ↦ rw (e, do_allocate) tt
        | inl e ↦ rw (e, do_allocate) (class-Ensures n (class_of n) a refl)
      ]

  -- An allocation that succeeds is one of a size that is the power of two of the request.
  pub allocate-Ensures :
      (bytes : ℕ) (a : Allocator)
      → Ensures (Allocated (alloc_to_power_of_2 hacks bytes) a) (allocate hacks bytes a)
  unfolding allocate
  allocate-Ensures bytes a = elim (Bool-cases (ltb (2 ^ 32 - 1) bytes)) [
    | inl e ↦ rw (e, allocate) tt
    | inr e ↦
        rw (e, allocate) (last_check _ a (do_allocate hacks bytes a) (do_allocate-Ensures bytes a))
  ]

-- A block that was given back: it has a header, and is left alone or put on the list of its class.
pub record Released (a : Allocator) (block size : ℕ) (b : Allocator) : Type 0 where
  pub class_index : ℕ
  pub old : List ℕ
  pub small : (class_index == 0) ≡ false
  pub of_class : class_of size ≡ class_index
  pub found : get_elem? a.block_lists class_index ≡ some old
  pub after : b ≡ record a { block_lists = set a.block_lists class_index (block ∷ old) }

abbrev pub Freed : Allocator → ℕ → Allocator → Type 0
Freed a user b =
    (size : ℕ) × (find_fd (user - 16) a.headers ≡ some size)
    × ((b ≡ a) ⊎ Released a (user - 16) size b)

abbrev with_lists : Allocator → Outcome (List (List ℕ)) → Outcome Allocator
with_lists a r = r >>= λ lists. ok (record a { block_lists = lists })

abbrev Pushed : ℕ → ℕ → List (List ℕ) → List (List ℕ) → Type 0
Pushed k block lists lists' =
    (old : List ℕ) × (get_elem? lists k ≡ some old) × (lists' ≡ set lists k (block ∷ old))

push-Ensures :
    (k block : ℕ) (lists : List (List ℕ))
    → Ensures (Pushed k block lists) (verify (leb k 10) >> push k block lists)
unfolding push
push-Ensures k block lists = elim (Bool-cases (leb k 10)) [
  | inr e ↦ rw (e, Ensures) tt
  | inl e ↦
      rw (e, Ensures)
        (elim (Option-cases (get_elem? lists k)) [
          | inl f ↦ rw (f, push) tt
          | inr (old, f) ↦ rw (f, push) (old, f, refl)
        ])
]

give_back :
    (a : Allocator) (block size k : ℕ) (r : Outcome (List (List ℕ)))
    → (k == 0) ≡ false
    → class_of size ≡ k
    → Ensures (Pushed k block a.block_lists) r
    → Ensures (Released a block size) (with_lists a r)
give_back a block size k panic small of_class h = tt
give_back a block size k (ok lists) small of_class (old, found, e) = record {
  class_index = k;
  old = old;
  small = small;
  of_class = of_class;
  found = found;
  after = rw e refl;
}

module _ (hacks : BitHacks) where
  release-Ensures :
      (a : Allocator) (block size : ℕ)
      → (class_of size == 0) ≡ false
      → hacks.is_power_of_two size ≡ true
      → Ensures (Released a block size) (with_lists a (release hacks block size a.block_lists))
  unfolding release get_alloc_class
  release-Ensures a block size small e =
      rw (e, release)
        (give_back a block size (class_of size) _ small refl
          (push-Ensures (class_of size) block a.block_lists))

  either_way :
      (a : Allocator) (block size : ℕ) (r : Outcome Allocator)
      → Ensures (Released a block size) r
      → Ensures (λ b. (b ≡ a) ⊎ Released a block size b) r
  either_way a block size (ok b) h = inr h
  either_way a block size panic h = tt

  free_class :
      (a : Allocator) (block size k : ℕ)
      → class_of size ≡ k
      → hacks.is_power_of_two size ≡ true
      → Ensures
          (λ b. (b ≡ a) ⊎ Released a block size b)
          (elim (k == 0) [
            | true ↦ ok a
            | false ↦ with_lists a (release hacks block size a.block_lists)
          ])
  free_class a block size k c e = elim (Bool-cases (k == 0)) [
    | inl f ↦ rw (f, Ensures) (inl refl)
    | inr f ↦
        rw (f, Ensures)
          (either_way a block size _ (release-Ensures a block size (ap (λ x. x == 0) c ∙ f) e))
  ]

  free_with :
      (a : Allocator) (block size : ℕ)
      → Ensures
          (λ b. (b ≡ a) ⊎ Released a block size b)
          (get_alloc_class hacks size >>= λ alloc_class. elim (alloc_class == large_alloc_class) [
            | true ↦ ok a
            | false ↦ with_lists a (release hacks block size a.block_lists)
          ])
  unfolding get_alloc_class release
  free_with a block size = elim (Bool-cases (hacks.is_power_of_two size)) [
    | inr e ↦ rw (e, get_alloc_class) tt
    | inl e ↦ rw (e, get_alloc_class) (free_class a block size (class_of size) refl e)
  ]

  freed :
      (a : Allocator) (user size : ℕ) (r : Outcome Allocator)
      → find_fd (user - 16) a.headers ≡ some size
      → Ensures (λ b. (b ≡ a) ⊎ Released a (user - 16) size b) r
      → Ensures (Freed a user) r
  freed a user size (ok b) e h = (size, e, h)
  freed a user size panic e h = tt

  -- A block that has been given back was one with a header.
  pub free-Ensures : (user : ℕ) (a : Allocator) → Ensures (Freed a user) (free hacks user a)
  unfolding free
  free-Ensures user a = elim (Bool-cases (user == 0)) [
    | inl e ↦ rw (e, free) tt
    | inr e ↦
        rw (e, free)
          (elim (Bool-cases (from_here user a)) [
            | inr f ↦ rw (f, free) tt
            | inl f ↦
                rw (f, free)
                  (elim (Option-cases (find_fd (user - 16) a.headers)) [
                    | inl g ↦ rw (g, free) tt
                    | inr (size, g) ↦
                        rw (g, free) (freed a user size _ g (free_with a (user - 16) size))
                  ])
          ])
  ]

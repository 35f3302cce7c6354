-- ===== src/Memory/Sound.antt =====
-- An allocator whose free blocks and the blocks that a program holds are blocks of its arena, each
-- at most once, and what carving a block out keeps of it.
use whirl_matrix.Base.{
  some_inj, bit, ℕ, ◌+◌, ◌-◌, ◌%◌, ◌^◌, ◌≤◌, ◌<◌, ◌≡◌, inl, inr, refl, ap, ◌∙◌, sym, false, Option,
  some, List, ◌∷◌, map, arith, ◌==◌, ==_iff, ==_refl, Bool-cases, get_elem?, All, All-map,
  if◌then◌else◌,
}
use whirl_matrix.Fs.Table.{find_fd}
use whirl_matrix.Memory.{Allocator, drop_headers}
use whirl_matrix.Memory.Outcomes.{Carved}
use whirl_matrix.Memory.Layout.{Stacked, occ, addresses, below_top, concat, drop-keeps, size_of}

-- The address of the header of a block that a program holds.
abbrev pub heads : List (ℕ × ℕ) → List ℕ
heads = map (λ (b : ℕ × ℕ). b.0 - 16)

abbrev pub Holds : List (ℕ × ℕ) → ℕ × ℕ → Type 0
Holds blocks (user, bytes) =
    (16 ≤ user) × (s : ℕ) × (find_fd (user - 16) blocks ≡ some s) × (bytes ≤ s)

abbrev pub Free : List (ℕ × ℕ) → ℕ → ℕ → Type 0
Free blocks k x = (s : ℕ) × (find_fd x blocks ≡ some s) × (s % 2 ^ 32 ≡ size_of k)

-- An allocator, the blocks carved out of its arena, and the blocks that the program holds.
pub record IsSound (a : Allocator) (blocks live : List (ℕ × ℕ)) : Type 0 where
  pub stacked : Stacked a.next blocks
  pub inside : (x s : ℕ) → find_fd x blocks ≡ some s → (a.start ≤ x) × (x + 16 + s < a.end)
  pub filled : (a.start ≤ a.next) × (a.next ≤ a.zfilled)
  pub recorded : (x s : ℕ) → find_fd x blocks ≡ some s → find_fd x a.headers ≡ some (s % 2 ^ 32)
  pub listed :
      (k : ℕ) (l : List ℕ)
      → get_elem? a.block_lists k ≡ some l
      → (k == 0) ≡ false
      → All (Free blocks k) l
  pub owned : (x : ℕ) → occ x (heads live) + occ x (concat a.block_lists) ≤ occ x (addresses blocks)
  pub held : All (Holds blocks) live

-- A new block changes no older one.
older_stays :
    (top x s p : ℕ) (blocks : List (ℕ × ℕ))
    → Stacked top blocks
    → find_fd x blocks ≡ some s
    → find_fd x ((top, p) ∷ blocks) ≡ some s
unfolding find_fd
older_stays top x s p blocks h e =
    let lower = below_top top x s blocks h e in ground (arith, lower, e)

find_new :
    (top p x : ℕ) (blocks : List (ℕ × ℕ))
    → find_fd x ((top, p) ∷ blocks) ≡ (if top == x then some p else find_fd x blocks)
unfolding find_fd
find_new top p x blocks = refl

module _ (a : Allocator) (blocks live : List (ℕ × ℕ)) (v : IsSound a blocks live) where
  held-older : (p : ℕ) → All (Holds ((a.next, p) ∷ blocks)) live
  held-older p =
      All-map _ _ live
        (λ b h.
          let (above, s, e, fits) = h in
          (above, s, older_stays a.next (b.0 - 16) s p blocks v.stacked e, fits))
        v.held

  recorded-new :
      (p : ℕ) (b : Allocator)
      → b.headers ≡ (a.next, p % 2 ^ 32) ∷ drop_headers a.zfilled b.zfilled a.headers
      → (x s : ℕ) → find_fd x ((a.next, p) ∷ blocks) ≡ some s
      → find_fd x b.headers ≡ some (s % 2 ^ 32)
  unfolding find_fd
  recorded-new p b header x s e = elim (Bool-cases (a.next == x)) [
    | inl f ↦
        let here : ◌≡◌ {A = Option ℕ} (some p) (some s) = ground (arith, e, f) in
        rw header (rw (f, find_fd) (ap (λ t. some (t % 2 ^ 32)) (some_inj here)))
    | inr f ↦
        let old : find_fd x blocks ≡ some s = ground (arith, e, f) in
        let lower = below_top a.next x s blocks v.stacked old in
        let (low, high) = v.filled in
        rw header (
          rw (f, find_fd)
            (drop-keeps a.zfilled b.zfilled x a.headers (omega arith) ∙ v.recorded x s old))
  ]

  inside-new :
      (p user : ℕ) (b : Allocator)
      → Carved p a user b
      → (x s : ℕ) → find_fd x ((a.next, p) ∷ blocks) ≡ some s
      → (b.start ≤ x) × (x + 16 + s < b.end)
  unfolding find_fd
  inside-new p user b c x s e = elim (Bool-cases (a.next == x)) [
    | inl f ↦
        let here : ◌≡◌ {A = Option ℕ} (some p) (some s) = ground (arith, e, f) in
        let size : p ≡ s = some_inj here in
        let place : a.next ≡ x = ground (arith, ==_iff a.next x) in
        (
          omega (arith, c.bounds, v.filled, place),
          omega (arith, c.bounds, c.room, c.moved, place, size),
        )
    | inr f ↦
        let old : find_fd x blocks ≡ some s = ground (arith, e, f) in
        let (low, high) = v.inside x s old in
        (omega (arith, c.bounds, low), omega (arith, c.bounds, high))
  ]

  Free-older :
      (p k : ℕ) (l : List ℕ) → All (Free blocks k) l → All (Free ((a.next, p) ∷ blocks) k) l
  Free-older p k l h =
      All-map _ _ l
        (λ x g. let (s, e, size) = g in (s, older_stays a.next x s p blocks v.stacked e, size)) h

  owned-new :
      (p user n : ℕ) (b : Allocator)
      → Carved p a user b
      → (x : ℕ)
      → occ x (heads ((user, n) ∷ live)) + occ x (concat b.block_lists)
        ≤ occ x (addresses ((a.next, p) ∷ blocks))
  owned-new p user n b c x =
      let place : user - 16 ≡ a.next = omega (arith, c.place) in
      omega (arith, v.owned x, ap (λ ls. occ x (concat ls)) c.lists, ap (λ y. bit (y == x)) place)

  pub Carved-IsSound :
      (p user n : ℕ) (b : Allocator)
      → n ≤ p
      → Carved p a user b
      → IsSound b ((a.next, p) ∷ blocks) ((user, n) ∷ live)
  Carved-IsSound p user n b fits c =
      let place : user - 16 ≡ a.next = omega (arith, c.place) in
      record {
        stacked = (omega (arith, c.moved), v.stacked);
        inside = inside-new p user b c;
        filled = (omega (arith, c.bounds, c.moved, v.filled), omega (arith, c.filled));
        recorded = recorded-new p b c.header;
        listed = λ k l e small.
            Free-older p k l (v.listed k l (ap (λ ls. get_elem? ls k) (sym c.lists) ∙ e) small);
        owned = owned-new p user n b c;
        held = (
          (
            omega (arith, c.place),
            p,
            ap (λ y. find_fd y ((a.next, p) ∷ blocks)) place
                ∙ find_new a.next p a.next blocks
                ∙ rw (==_refl a.next) refl,
            fits,
          ),
          held-older p,
        );
      }

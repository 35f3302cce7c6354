-- ===== src/New/Tracked.antt =====
-- The places of the pool that the tracker has given out: each is of a live record or free, and of one only.
use whirl_matrix.Base.{
  bit, count_where, count-append, ℕ, ◌+◌, ◌%◌, ◌^◌, ◌≡◌, ap, refl, inl, inr, Option, none, some,
  List, [], ◌∷◌, arith, Bool-cases, Option-cases, ltb, ◌==◌,
}
use whirl_matrix.New.{AllocRecord, Tracker, get_record, allocate, unlink, deallocate}

abbrev slots : ℕ → List AllocRecord → ℕ
slots x = count_where (λ (r : AllocRecord). r.slot == x)

abbrev free : ℕ → List ℕ → ℕ
free x = count_where (λ s. s == x)

-- The places below `next_index`, each once.
abbrev pub IsPartition : Tracker → Type 0
IsPartition t = (x : ℕ) → slots x t.allocs + free x t.free_list ≡ bit (ltb x t.next_index)

abbrev unlinked : ℕ → Option ℕ → ℕ
unlinked x none = 0
unlinked x (some s) = bit (s == x)

unlink-slots :
    (address x : ℕ) (records : List AllocRecord)
    → slots x (unlink address records).1 + unlinked x (unlink address records).0 ≡ slots x records
unfolding unlink
unlink-slots address x [] = omega arith
unlink-slots address x (r ∷ records) = elim (Bool-cases (r.address == address)) [
  | inl e ↦ rw e (omega arith)
  | inr e ↦ rw e (omega (arith, unlink-slots address x records))
]

one_more : (x n : ℕ) → bit (ltb x (n + 1)) ≡ bit (ltb x n) + bit (n == x)
one_more x n = ground arith

take_slot :
    (x : ℕ) (l : List ℕ) (t : Tracker)
    → t.free_list ≡ l
    → (slots x t.allocs + free x t.free_list ≡ bit (ltb x t.next_index))
    → slots x (get_record t).1.allocs
        + bit ((get_record t).0 == x)
        + free x (get_record t).1.free_list
      ≡ bit (ltb x (get_record t).1.next_index)
unfolding get_record
take_slot x [] t e h = rw e (rw (one_more x t.next_index) (omega (arith, h, ap (free x) e)))
take_slot x (s ∷ l) t e h = rw e (omega (arith, h, ap (free x) e))

-- Whatever is allocated and freed, each place of the pool below the next unused one belongs to one
-- record that is live or free, and no other place does.
pub allocate-IsPartition :
    (address size : ℕ) (t : Tracker) → IsPartition t → IsPartition (allocate address size t).1
unfolding allocate
allocate-IsPartition address size t h x = elim (Bool-cases t.active) [
  | inr e ↦ rw (e, allocate) (h x)
  | inl e ↦
      let r = get_record t in
      let new : AllocRecord = record {
        address = address;
        size = size;
        id = (r.1.next_id + 1) % 2 ^ 64;
        slot = r.0;
      } in
      rw (e, allocate)
        (omega (
          arith,
          take_slot x t.free_list t refl (h x),
          count-append (λ (b : AllocRecord). b.slot == x) r.1.allocs (new ∷ []),
        ))
]

pub deallocate-IsPartition :
    (address : ℕ) (t : Tracker) → IsPartition t → IsPartition (deallocate address t)
unfolding deallocate
deallocate-IsPartition address t h x = elim (Bool-cases t.active) [
  | inr e ↦ rw (e, deallocate) (h x)
  | inl e ↦
      let gone = unlink-slots address x t.allocs in
      rw (e, deallocate)
        (elim (Option-cases (unlink address t.allocs).0) [
          | inl f ↦ rw (f, deallocate) (h x)
          | inr (s, f) ↦
              rw (f, deallocate)
                (omega (
                  arith,
                  h x,
                  gone,
                  ap (unlinked x) f,
                  count-append (λ y. y == x) t.free_list (s ∷ []),
                ))
        ])
]

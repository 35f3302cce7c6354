-- ===== src/New.antt =====
-- matrix/new and world/actor_ctx.hpp: the tracker of global allocations, and the guards that set the current
-- allocator, or the current actor, for a scope. An allocator or an actor is a number; none is the null pointer.
pub mod Tracked
use whirl_matrix.Base.{
  ℕ, zero, suc, ◌+◌, ◌%◌, ◌^◌, Bool, true, false, Option, none, some, List, [], ◌∷◌, ◌++◌, ◌==◌,
  if◌then◌else◌,
}

-- A record, by its place in the pool.
pub record AllocRecord : Type 0 where
  pub address : ℕ
  pub size : ℕ
  pub id : ℕ
  pub slot : ℕ

pub record Tracker : Type 0 where
  pub active : Bool
  pub next_index : ℕ
  pub next_id : ℕ
  pub free_list : List ℕ
  pub allocs : List AllocRecord

unfoldable pub new_tracker : Tracker
new_tracker = record { active = false; next_index = 0; next_id = 0; free_list = []; allocs = [] }

unfoldable pub activate : Tracker → Tracker
activate t = record t { active = true }

-- The end of the pool is not checked by the source; its index stays far below 2^64.
unfoldable pub get_record : Tracker → ℕ × Tracker
get_record t = elim t.free_list [
  | [] ↦ (t.next_index, record t { next_index = t.next_index + 1 })
  | slot ∷ rest ↦ (slot, record t { free_list = rest })
]

unfoldable pub allocate : ℕ → ℕ → Tracker → ℕ × Tracker
unfolding get_record
allocate address size t = elim t.active [
  | false ↦ (0, t)
  | true ↦
      let (slot, t') = get_record t in
      let id = (t'.next_id + 1) % 2 ^ 64 in
      (
        id,
        record t' {
          next_id = id;
          allocs =
              t'.allocs ++ record { address = address; size = size; id = id; slot = slot } ∷ [];
        },
      )
]

-- The first record of the address, and the records without it.
unfoldable pub unlink : ℕ → List AllocRecord → Option ℕ × List AllocRecord
unlink address [] = (none, [])
unlink address (r ∷ records) =
    let (found, rest) = unlink address records in
    if r.address == address then (some r.slot, records) else (found, r ∷ rest)

unfoldable pub deallocate : ℕ → Tracker → Tracker
unfolding unlink
deallocate address t = elim t.active [
  | false ↦ t
  | true ↦
      let (found, rest) = unlink address t.allocs in
      elim found [
        | none ↦ t
        | some slot ↦ record t { free_list = t.free_list ++ slot ∷ []; allocs = rest }
      ]
]

-- AllocatorGuard: what was current before, and whether it has still to be set back.
pub record Guard : Type 0 where
  pub active : Bool
  pub saved : Option ℕ

unfoldable pub enter : Option ℕ → Option ℕ → Guard × Option ℕ
enter allocator current = (record { active = true; saved = current }, allocator)

-- RollBack, and what the destructor does.
unfoldable pub roll_back : Guard → Option ℕ → Guard × Option ℕ
roll_back guard current = elim guard.active [
  | false ↦ (guard, current)
  | true ↦ (record guard { active = false }, guard.saved)
]

-- ActorContext::ScopeGuard: the actor of a scope, and its parent, which is set back at the end.
unfoldable pub scope_actor : Option ℕ → Option ℕ → Option ℕ × Option ℕ
scope_actor actor current = (current, actor)

unfoldable pub leave_scope : Option ℕ → Option ℕ → Option ℕ
leave_scope parent current = parent

-- ===== src/Semantics/Linearization.antt =====
-- Linearizability, said without the checker: an order of the calls that respects real time and in
-- which the model gives each completed call its result. A call that has not completed may be left
-- out of effect.
pub mod Steps
use mathlib.Core.List.{Pairwise, Perm}
use whirl_matrix.Base.{◌≡◌, ◌⊎◌, true, false, List, [], ◌∷◌}
use whirl_matrix.Semantics.{Call, Model, is_completed, precedes_in_real_time, apply_call, accepts}

-- No later call ended before an earlier one began.
abbrev pub InRealTime : List Call → Type 0
InRealTime = Pairwise λ c d. precedes_in_real_time d c ≡ false

module _ (m : Model) where
  abbrev pub Takes : m.State → Call → m.State → Type 0
  Takes s c s' =
      ((apply_call m s c).is_ok ≡ true)
      × (accepts m c (apply_call m s c) ≡ true)
      × (s' ≡ (apply_call m s c).next_state)

  -- From the state, the calls in this order.
  pub data Legal : m.State → List Call → Type 0 where
    done : {s : m.State} → Legal s []
    skip :
        {s : m.State} {c : Call} {l : List Call}
        → is_completed c ≡ false
        → Legal s l
        → Legal s (c ∷ l)
    step : {s s' : m.State} {c : Call} {l : List Call} → Takes s c s' → Legal s' l → Legal s (c ∷ l)

  pub record Linearization (s : m.State) (calls : List Call) : Type 0 where
    pub order : List Call
    pub all_calls : Perm order calls
    pub in_real_time : InRealTime order
    pub legal : Legal s order

  abbrev pub IsLinearizable : List Call → Type 0
  IsLinearizable calls = ∥ Linearization m.initial_state calls ∥₁

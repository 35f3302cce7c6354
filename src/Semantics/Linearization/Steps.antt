-- ===== src/Semantics/Linearization/Steps.antt =====
-- How a linearization begins.
use mathlib.Core.List.{Perm, Pairwise, Mem}
use mathlib.Core.List.Perm
use whirl_matrix.Base.{◌≡◌, ◌⊎◌, inl, inr, false, List, [], ◌∷◌}
use whirl_matrix.Semantics.{Call, Model, is_completed, precedes_in_real_time}
use whirl_matrix.Semantics.Linearization.{InRealTime, Takes, Legal, skip, step, done, Linearization}

-- No call of the list ended before `c` began.
abbrev pub IsFirst : Call → List Call → Type 0
IsFirst c l = (d : Call) → Mem d l → precedes_in_real_time d c ≡ false

module _ (m : Model) where
  -- What remains to be shown when `c` is put first, in one of the two ways.
  pub data FirstStep (s : m.State) (c : Call) (rest : List Call) : Type 0 where
    without_effect : is_completed c ≡ false → Linearization m s rest → FirstStep s c rest
    with_effect : {s' : m.State} → Takes m s c s' → Linearization m s' rest → FirstStep s c rest

  pub Linearization-nil : (s : m.State) → Linearization m s []
  Linearization-nil s = record {
    order = [];
    all_calls = Perm.rfl;
    in_real_time = Pairwise.nil;
    legal = done;
  }

  pub Linearization-perm :
      {s : m.State} {l r : List Call} → Perm l r → Linearization m s l → Linearization m s r
  Linearization-perm p a = record {
    order = a.order;
    all_calls = Perm.trans a.all_calls p;
    in_real_time = a.in_real_time;
    legal = a.legal;
  }

  pub FirstStep-perm :
      {s : m.State} {c : Call} {l r : List Call} → Perm l r → FirstStep s c l → FirstStep s c r
  FirstStep-perm p (without_effect h a) = without_effect h (Linearization-perm p a)
  FirstStep-perm p (with_effect t a) = with_effect t (Linearization-perm p a)

  first_in_time :
      {c : Call} {l r : List Call} → Perm l r → IsFirst c r → InRealTime l → InRealTime (c ∷ l)
  first_in_time p h t = Pairwise.cons (λ d k. h d ((Perm.mem_iff p).0 k)) t

  pub Linearization-cons :
      {s : m.State} {c : Call} {rest : List Call}
      → IsFirst c rest
      → FirstStep s c rest
      → Linearization m s (c ∷ rest)
  Linearization-cons {c} h (without_effect open_call a) = record {
    order = c ∷ a.order;
    all_calls = Perm.cons c a.all_calls;
    in_real_time = first_in_time a.all_calls h a.in_real_time;
    legal = skip open_call a.legal;
  }
  Linearization-cons {c} h (with_effect t a) = record {
    order = c ∷ a.order;
    all_calls = Perm.cons c a.all_calls;
    in_real_time = first_in_time a.all_calls h a.in_real_time;
    legal = step t a.legal;
  }

  -- A linearization of some calls puts one of them first.
  pub record Begins (s : m.State) (calls : List Call) : Type 0 where
    pub first : Call
    pub rest : List Call
    pub split : Perm (first ∷ rest) calls
    pub is_first : IsFirst first rest
    pub first_step : FirstStep s first rest

  pub Begins-of_Linearization :
      {s : m.State} {calls : List Call} → Linearization m s calls → (calls ≡ []) ⊎ Begins s calls
  Begins-of_Linearization a = go a.order a.all_calls a.in_real_time a.legal
    where
      go :
          {s : m.State} {calls : List Call} (order : List Call)
          → Perm order calls
          → InRealTime order
          → Legal m s order
          → (calls ≡ []) ⊎ Begins s calls
      go [] p t l = inl (Perm.eq-nil (Perm.symm p))
      go (c ∷ order) p (Pairwise.cons h t) (skip k l) = inr (record {
        first = c;
        rest = order;
        split = p;
        is_first = h;
        first_step =
            without_effect k
              (record { order = order; all_calls = Perm.rfl; in_real_time = t; legal = l });
      })
      go (c ∷ order) p (Pairwise.cons h t) (step k l) = inr (record {
        first = c;
        rest = order;
        split = p;
        is_first = h;
        first_step =
            with_effect k
              (record { order = order; all_calls = Perm.rfl; in_real_time = t; legal = l });
      })

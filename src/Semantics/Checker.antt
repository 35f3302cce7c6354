-- ===== src/Semantics/Checker.antt =====
-- matrix/semantics/checker/brute.hpp and check.hpp: the search for a linearization. The calls that
-- are not placed yet are the first `count` of `calls`; `step_into` moves one call behind them and
-- puts it back when the search below it has returned.
pub mod Swap
pub mod Tried
pub mod Depth
pub mod Verdict
pub mod Cleanup
use whirl_matrix.Base.{
  ℕ, zero, suc, ◌+◌, ◌-◌, Bool, true, false, not, ◌&&◌, ◌||◌, Option, none, some, List, [], ◌∷◌,
  ◌++◌, ltb, ◌==◌, if◌then◌else◌, length, get_elem?, set, take,
}
use whirl_matrix.Semantics.{
  Call, Model, Result, is_completed, precedes_in_real_time, apply_call, accepts,
}

pub record Checker : Type 0 where
  pub calls : List Call
  pub linear : List Call
  pub count : ℕ
  pub time_limit : ℕ
  pub time : ℕ

-- std::swap of two elements.
unfoldable pub swap {ℓ} : {A : Type ℓ} → ℕ → ℕ → List A → List A
swap i j l = elim (get_elem? l i) [
  | none ↦ l
  | some x ↦ elim (get_elem? l j) [ none ↦ l | some y ↦ set (set l i y) j x ]
]

unfoldable pub pop_back {ℓ} : {A : Type ℓ} → List A → List A
pop_back [] = []
pop_back (x ∷ []) = []
pop_back (x ∷ y ∷ l) = x ∷ pop_back (y ∷ l)

-- The inner loop: does any of these calls precede `c`?
unfoldable pub preceded : Call → List Call → Bool
preceded c [] = false
preceded c (d ∷ l) = precedes_in_real_time d c || preceded c l

unfoldable pub is_candidate : Checker → Call → Bool
unfolding preceded
is_candidate k c = not (preceded c (take k.count k.calls))

unfoldable pub enter : ℕ → Call → Checker → Checker
unfolding swap
enter i c k = record k {
  linear = k.linear ++ c ∷ [];
  calls = swap i (k.count - 1) k.calls;
  count = k.count - 1;
}

unfoldable pub leave : ℕ → Checker → Checker
unfolding swap pop_back
leave i k = record k {
  count = k.count + 1;
  calls = swap i (k.count + 1 - 1) k.calls;
  linear = pop_back k.linear;
}

unfoldable pub make_checker : List Call → ℕ → Checker
make_checker history time_limit = record {
  calls = history;
  linear = [];
  count = length history;
  time_limit = time_limit;
  time = 0;
}

-- checker/check.hpp, `kTimeLimit`.
abbrev pub time_limit : ℕ
time_limit = 777777

module _ (m : Model) where
  -- What `Search` is at the depth below.
  abbrev pub Search : Type 0
  Search = m.State → Checker → Bool × Checker

  unfoldable pub step_into : Search → ℕ → Call → m.State → Checker → Bool × Checker
  unfolding enter leave
  step_into rec i c next k = let (succeeded, k') = rec next (enter i c k) in (succeeded, leave i k')

  -- The end of the loop's body: the call takes effect.
  unfoldable pub try_apply : Search → ℕ → Call → m.State → Checker → Bool × Checker
  unfolding step_into apply_call accepts
  try_apply rec i c s k =
      let result = apply_call m s c in
      if result.is_ok && accepts m c result
      then step_into rec i c result.next_state k
      else (false, k)

  -- The loop's body for a candidate: first without effect, if the call has not completed.
  unfoldable pub try_call : Search → ℕ → Call → m.State → Checker → Bool × Checker
  unfolding step_into try_apply
  try_call rec i c s k = elim (is_completed c) [
    | true ↦ try_apply rec i c s k
    | false ↦
        let (succeeded, k') = step_into rec i c s k in
        if succeeded then (true, k') else try_apply rec i c s k'
  ]

  -- The body of the outer loop at index `i`.
  unfoldable pub visit : Search → ℕ → m.State → Checker → Bool × Checker
  unfolding try_call is_candidate
  visit rec i s k = elim (get_elem? k.calls i) [
    | none ↦ (false, k)
    | some c ↦ if is_candidate k c then try_call rec i c s k else (false, k)
  ]

  -- The outer loop, with `n` rounds left.
  unfoldable pub scan : Search → ℕ → ℕ → m.State → Checker → Bool × Checker
  unfolding visit
  scan rec zero i s k = (false, k)
  scan rec (suc n) i s k =
      let (found, k') = visit rec i s k in
      let rest = scan rec n (i + 1) s k' in if found then (true, k') else rest

  -- The fuel bounds the depth: each level places one call.
  unfoldable pub search : ℕ → Search
  unfolding scan
  search zero s k = (false, k)
  search (suc fuel) s k =
      let k' = record k { time = k.time + 1 } in
      if ltb k.time_limit k'.time
      then (true, k')
      else if k.count == 0
      then (true, k')
      else scan (search fuel) k.count 0 s k'

  unfoldable pub check : Checker → Bool × Checker
  unfolding search
  check k = search (suc k.count) m.initial_state k

  unfoldable pub lin_check_brute : List Call → ℕ → Bool
  unfolding check make_checker
  lin_check_brute history time_limit = (check (make_checker history time_limit)).0

  -- checker/check.hpp
  unfoldable pub cleanup : List Call → List Call
  cleanup [] = []
  cleanup (c ∷ history) =
      let rest = cleanup history in
      if not (is_completed c) && not (m.is_mutation c) then rest else c ∷ rest

  unfoldable pub lin_check_impl : List Call → Bool
  unfolding lin_check_brute
  lin_check_impl history = lin_check_brute history time_limit

  unfoldable pub check_all : List (List Call) → Bool
  unfolding lin_check_impl
  check_all [] = true
  check_all (sub ∷ rest) = lin_check_impl sub && check_all rest

  unfoldable pub lin_check : List Call → Bool
  unfolding cleanup check_all
  lin_check history = check_all (m.decompose (cleanup history))

-- ===== src/Semantics.antt =====
-- matrix/semantics/history.hpp and checker/real_time_order.hpp: recorded calls and their order in
-- real time. Bytes are texts; muesli's serialization is a parameter of the models.
pub mod Linearization
pub mod Checker
pub mod Kv
pub mod Printer
use text.Mathlib.Text.{◌==◌ as str_eq}
use whirl_matrix.Base.{ℕ, ltb, Bool, true, false, not, ◌&&◌, Option, none, some, List}
use Prim.Native.String.{String}

pub record Value : Type 0 where
  pub bytes : String

pub record Arguments : Type 0 where
  pub bytes : String

pub record Call : Type 0 where
  pub method : String
  pub arguments : Arguments
  pub result : Option Value
  pub start_time : ℕ
  pub end_time : Option ℕ
  pub labels : List String

unfoldable pub is_completed : Call → Bool
is_completed c = elim c.end_time [ none ↦ false | some t ↦ true ]

-- `Value::operator==`, against a `std::optional<Value>`.
unfoldable pub value_eq : Value → Option Value → Bool
value_eq v none = false
value_eq v (some w) = str_eq v.bytes w.bytes

unfoldable pub precedes_in_real_time : Call → Call → Bool
precedes_in_real_time lhs rhs = elim lhs.end_time [ none ↦ false | some t ↦ ltb t rhs.start_time ]

-- `Model::Result`.
pub record Result {ℓ} (S : Type ℓ) : Type ℓ where
  pub is_ok : Bool
  pub value : Value
  pub next_state : S

-- What the checker asks of its template argument `Model`: a sequential specification.
pub record Model : Type 1 where
  pub State : Type 0
  pub initial_state : State
  pub apply : State → String → Arguments → Result State
  pub is_mutation : Call → Bool
  pub decompose : List Call → List (List Call)

module _ (m : Model) where
  unfoldable pub apply_call : m.State → Call → Result m.State
  apply_call s c = m.apply s c.method c.arguments

  -- The call may take the result that the model gives: it has not completed, or returned it.
  unfoldable pub accepts : Call → Result m.State → Bool
  unfolding is_completed value_eq
  accepts c r = elim (is_completed c) [ true ↦ value_eq r.value c.result | false ↦ true ]

-- ===== src/Semantics/Kv.antt =====
-- matrix/semantics/models/kv.hpp: the sequential specification of a key-value store. A `std::map`
-- is an association list; muesli's decoding of arguments and encoding of results is a parameter. A
-- method that the model does not know ends the process (WHEELS_UNREACHABLE): here it gives no
-- result, `is_ok = false`.
pub mod Laws
use Prim.Native.String.{String}
use text.Mathlib.Text.{◌==◌ as str_eq}
use whirl_matrix.Base.{
  Bool, true, false, ◌||◌, ◌≡◌, ◌↔◌, Option, none, some, List, [], ◌∷◌, if◌then◌else◌,
}
use whirl_matrix.Semantics.{Value, Arguments, Call, Model, Result}

-- `==` on keys and values, muesli's codecs, and `KVDefaultValue`.
pub record Codec : Type 1 where
  pub K : Type 0
  pub V : Type 0
  pub key_eq : K → K → Bool
  pub key_eq_iff : (a b : K) → (key_eq a b ≡ true) ↔ (a ≡ b)
  pub val_eq : V → V → Bool
  pub val_eq_iff : (a b : V) → (val_eq a b ≡ true) ↔ (a ≡ b)
  pub default_value : V
  pub as_set : Arguments → K × V
  pub as_get : Arguments → K
  pub as_cas : Arguments → K × V × V
  pub make_unit : Value
  pub make_value : V → Value

module _ (c : Codec) where
  open c use {K, V, key_eq, val_eq, default_value, as_set, as_get, as_cas, make_unit, make_value}

  abbrev pub State : Type 0
  State = List (K × V)

  -- std::map::find
  unfoldable pub find : K → State → Option V
  find k [] = none
  find k ((j, v) ∷ s) = if key_eq j k then some v else find k s

  -- std::map::insert_or_assign
  unfoldable pub set : K → V → State → State
  set k v [] = (k, v) ∷ []
  set k v ((j, w) ∷ s) = if key_eq j k then (j, v) ∷ s else (j, w) ∷ set k v s

  unfoldable pub get : K → State → V
  unfolding find
  get k s = elim (find k s) [ none ↦ default_value | some v ↦ v ]

  unfoldable pub cas : K → V → V → State → V × State
  unfolding get set
  cas k expected_v target_v s =
      let old = get k s in (old, if val_eq old expected_v then set k target_v s else s)

  unfoldable pub apply_set : State → K × V → Result State
  unfolding set
  apply_set current (k, v) = record {
    is_ok = true;
    value = make_unit;
    next_state = set k v current;
  }

  unfoldable pub apply_get : State → K → Result State
  unfolding get
  apply_get current k = record {
    is_ok = true;
    value = make_value (get k current);
    next_state = current;
  }

  unfoldable pub apply_cas : State → K × V × V → Result State
  unfolding cas
  apply_cas current (k, expected_v, target_v) =
      let (old, next) = cas k expected_v target_v current in
      record { is_ok = true; value = make_value old; next_state = next }

  unfoldable pub apply : State → String → Arguments → Result State
  unfolding apply_set apply_get apply_cas
  apply current method arguments =
      if str_eq method "Set"
      then apply_set current (as_set arguments)
      else if str_eq method "Get"
      then apply_get current (as_get arguments)
      else if str_eq method "Cas"
      then apply_cas current (as_cas arguments)
      else record { is_ok = false; value = make_unit; next_state = current }

  unfoldable pub is_mutation : Call → Bool
  is_mutation call = str_eq call.method "Set" || str_eq call.method "Cas"

  unfoldable pub is_read_only : Call → Bool
  is_read_only call = str_eq call.method "Get"

  unfoldable pub decompose : List Call → List (List Call)
  decompose history = history ∷ []

  abbrev pub kv_store_model : Model
  kv_store_model = record {
    State = State;
    initial_state = [];
    apply = apply;
    is_mutation = is_mutation;
    decompose = decompose;
  }

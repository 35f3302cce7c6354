-- ===== src/Config.antt =====
-- matrix/helpers/untyped_dict.hpp, world/global/vars.hpp and config/config.cpp: the global variables of a world and
-- the configuration of a node. An exception, of `std::any_cast` for another type or for a key that
-- is missing, is a panic.
pub mod Counters
use Prim.Native.String.{String, ◌++◌ as str_append}
use text.Mathlib.Text.{◌==◌ as str_eq}
use whirl_matrix.Base.{
  ℕ, ◌+◌, ◌%◌, ◌^◌, Bool, true, false, ◌||◌, Option, none, some, List, [], ◌∷◌, Outcome, ok, panic,
  ◌>>=◌, if◌then◌else◌,
}
use whirl_matrix.Fs.Table.{find, contains}

-- The types that the source puts in a `std::any`: strings, `int64_t`, `bool` and `size_t`.
pub data Any : Type 0 where
  words : String → Any
  integer : ℕ → Any
  flag : Bool → Any
  size : ℕ → Any

-- insert_or_assign
unfoldable pub set_value : String → Any → List (String × Any) → List (String × Any)
set_value key value [] = (key, value) ∷ []
set_value key value ((k, old) ∷ entries) =
    let rest = set_value key value entries in
    if str_eq k key then (k, value) ∷ entries else (k, old) ∷ rest

unfoldable pub get_value : String → List (String × Any) → Option Any
unfolding find
get_value key entries = find key entries

unfoldable pub has_value : String → List (String × Any) → Bool
unfolding contains
has_value key entries = contains key entries

unfoldable pub cast_text : Option Any → Outcome String
cast_text (some (words s)) = ok s
cast_text _ = panic

unfoldable pub cast_integer : Option Any → Outcome ℕ
cast_integer (some (integer n)) = ok n
cast_integer _ = panic

unfoldable pub cast_flag : Option Any → Outcome Bool
cast_flag (some (flag b)) = ok b
cast_flag _ = panic

unfoldable pub cast_size : Option Any → Outcome ℕ
cast_size none = panic
cast_size (some (words s)) = panic
cast_size (some (integer n)) = panic
cast_size (some (flag b)) = panic
cast_size (some (size n)) = ok n

-- InitCounter, GlobalCounter::Get and Add: a `size_t` of 64 bits.
unfoldable pub init_counter : String → ℕ → List (String × Any) → List (String × Any)
unfolding set_value
init_counter name value globals = set_value name (size value) globals

unfoldable pub get_counter : String → List (String × Any) → Outcome ℕ
unfolding get_value cast_size
get_counter name globals = cast_size (get_value name globals)

unfoldable pub add_counter : String → ℕ → List (String × Any) → Outcome (ℕ × List (String × Any))
unfolding get_counter set_value
add_counter name d globals =
    get_counter name globals >>= λ old. ok (old, set_value name (size ((old + d) % 2 ^ 64)) globals)

unfoldable pub increment : String → List (String × Any) → Outcome (ℕ × List (String × Any))
unfolding add_counter
increment name globals = add_counter name 1 globals

-- World::SetConfigGlobals
unfoldable pub set_config_globals : ℕ → List (String × Any) → List (String × Any)
unfolding set_value
set_config_globals rtt globals = set_value "config.net.rtt" (integer rtt) globals

pub record ServerConfig : Type 0 where
  pub id : ℕ
  pub hostname : String
  pub pool : String

pub record BackoffParams : Type 0 where
  pub init : ℕ
  pub max : ℕ
  pub factor : ℕ

unfoldable pub try_get_global : String → List (String × Any) → Option Any
unfolding get_value
try_get_global key globals = get_value (str_append "config." key) globals

unfoldable pub get_string : ServerConfig → List (String × Any) → String → Outcome String
unfolding try_get_global cast_text
get_string server globals key =
    if str_eq key "pool.name" || str_eq key "pool"
    then ok server.pool
    else if str_eq key "db.path"
    then ok "/db"
    else cast_text (try_get_global key globals)

unfoldable pub get_int64 : ServerConfig → BackoffParams → List (String × Any) → String → Outcome ℕ
unfolding try_get_global cast_integer
get_int64 server backoff globals key =
    if str_eq key "node.id"
    then ok server.id
    else if str_eq key "rpc.port"
    then ok 42
    else if str_eq key "rpc.backoff.init"
    then ok backoff.init
    else if str_eq key "rpc.backoff.max"
    then ok backoff.max
    else if str_eq key "rpc.backoff.factor"
    then ok backoff.factor
    else cast_integer (try_get_global key globals)

unfoldable pub get_bool : List (String × Any) → String → Outcome Bool
unfolding try_get_global cast_flag
get_bool globals key = cast_flag (try_get_global key globals)

-- Additions to counters, one after the other.
unfoldable pub add_counters :
    List (String × ℕ) → List (String × Any) → Outcome (List (String × Any))
unfolding add_counter
add_counters [] globals = ok globals
add_counters ((name, d) ∷ adds) globals = add_counter name d globals >>= λ r. add_counters adds r.1

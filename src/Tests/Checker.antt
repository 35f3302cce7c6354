-- ===== src/Tests/Checker.antt =====
-- The checker on histories of a key-value store with one key.
use Prim.Native.String.{String}
use text.Mathlib.Text.{◌==◌ as str_eq}
use text.Mathlib.TextEquality.{eq_iff}
use mathlib.Core.Bool.{Bool-set}
use whirl_matrix.Base.{All-mem, ◌≡◌, ◌↔◌, refl, false, none, some, List, [], ◌∷◌, arith}
use whirl_matrix.Semantics.{Call, precedes_in_real_time, apply_call}
use whirl_matrix.Semantics.Linearization.{Linearization, IsLinearizable}
use whirl_matrix.Semantics.Checker.{make_checker, check, lin_check_brute, cleanup}
use whirl_matrix.Semantics.Checker.Tried.{IsTimed}
use whirl_matrix.Semantics.Checker.Verdict.{check_sound, check_complete}
use whirl_matrix.Semantics.Checker.Cleanup.{cleanup-IsLinearizable, ReadsAreNeutral}
use whirl_matrix.Semantics.Kv.{Codec, kv_store_model, apply, is_mutation}

abbrev pub one_key : Codec
one_key = record {
  K = String;
  V = String;
  key_eq = str_eq;
  key_eq_iff = eq_iff;
  val_eq = str_eq;
  val_eq_iff = eq_iff;
  default_value = "";
  as_set = λ a. ("k", a.bytes);
  as_get = λ a. "k";
  as_cas = λ a. ("k", a.bytes, "new");
  make_unit = record { bytes = "" };
  make_value = λ v. record { bytes = v };
}

abbrev pub set_x : Call
set_x = record {
  method = "Set";
  arguments = record { bytes = "x" };
  result = some (record { bytes = "" });
  start_time = 1;
  end_time = some 2;
  labels = [];
}

abbrev pub get_of : String → Call
get_of v = record {
  method = "Get";
  arguments = record { bytes = "" };
  result = some (record { bytes = v });
  start_time = 3;
  end_time = some 4;
  labels = [];
}

abbrev pub good : List Call
good = set_x ∷ get_of "x" ∷ []

abbrev bad : List Call
bad = set_x ∷ get_of "y" ∷ []

check_sound_example : Linearization (kv_store_model one_key) [] good
unfolding check make_checker precedes_in_real_time apply
check_sound_example = check_sound (kv_store_model one_key) good 1000 refl (omega arith)

bad-IsTimed : IsTimed bad
unfolding precedes_in_real_time
bad-IsTimed c k =
    All-mem (λ c. precedes_in_real_time c c ≡ false) (λ _. Bool-set _ _) bad (refl, (refl, tt)) k

check_complete_example : ¬ IsLinearizable (kv_store_model one_key) bad
unfolding check make_checker precedes_in_real_time apply lin_check_brute
check_complete_example = check_complete (kv_store_model one_key) bad 1000 bad-IsTimed refl

reads_neutral : ReadsAreNeutral (kv_store_model one_key)
unfolding apply is_mutation apply_call
reads_neutral s call h = ground arith

open_get : Call
open_get = record (get_of "x") { result = none; end_time = none }

cleanup-IsLinearizable_example :
    IsLinearizable (kv_store_model one_key) (cleanup (kv_store_model one_key) (open_get ∷ good))
    ↔ IsLinearizable (kv_store_model one_key) (open_get ∷ good)
cleanup-IsLinearizable_example =
    cleanup-IsLinearizable (kv_store_model one_key) reads_neutral (open_get ∷ good)

-- ===== src/Trace/Writer.antt =====
-- The calls of rapidjson's writer, and the JSON values that they write.
use Prim.Native.String.{String}
use whirl_matrix.Base.{ℕ, List, [], ◌∷◌, ◌++◌}

pub data Call : Type 0 where
  start_array end_array start_object end_object : Call
  key text : String → Call
  int : ℕ → Call

mutual
  pub data Json : Type 0 where
    string : String → Json
    number : ℕ → Json
    array : Elements → Json
    object : Members → Json

  pub data Elements : Type 0 where
    no_more : Elements
    element : Json → Elements → Elements

  pub data Members : Type 0 where
    closed : Members
    member : String → Json → Members → Members

-- Document::Accept: the calls for a value.
unfoldable mutual
  pub calls : Json → List Call
  calls (string s) = text s ∷ []
  calls (number n) = int n ∷ []
  calls (array es) = start_array ∷ (calls_of_elements es ++ end_array ∷ [])
  calls (object ms) = start_object ∷ (calls_of_members ms ++ end_object ∷ [])

  pub calls_of_elements : Elements → List Call
  calls_of_elements no_more = []
  calls_of_elements (element j es) = calls j ++ calls_of_elements es

  pub calls_of_members : Members → List Call
  calls_of_members closed = []
  calls_of_members (member k j ms) = key k ∷ (calls j ++ calls_of_members ms)

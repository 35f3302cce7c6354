-- ===== src/Guids.antt =====
-- matrix/guids: the generator of ids. The printing of a number by fmt is a parameter.
pub mod Unique
use Prim.Native.String.{String, ◌++◌ as str_append}
use whirl_matrix.Base.{ℕ, zero, suc, ◌+◌, ◌%◌, ◌^◌, List, [], ◌∷◌, ◌==◌, if◌then◌else◌}

-- A letter of `kChars`.
unfoldable pub char_of : ℕ → String
char_of i = if i == 0 then "Y" else if i == 1 then "X" else "Z"

-- The id, and the counter, which is unsigned with 64 bits.
unfoldable pub generate_next : (ℕ → String) → ℕ → String × ℕ
unfolding char_of
generate_next print next_value =
    let value = (next_value + 1) % 2 ^ 64 in
    (str_append "guid-" (str_append (char_of (value % 3)) (str_append "-" (print value))), value)

-- The ids of so many calls.
unfoldable pub generate : (ℕ → String) → ℕ → ℕ → List String
unfolding generate_next
generate print zero next_value = []
generate print (suc count) next_value =
    let (guid, next) = generate_next print next_value in guid ∷ generate print count next

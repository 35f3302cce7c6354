-- ===== src/Network/Faults.antt =====
-- matrix/network/network.cpp, matrix/fault/net: partitions of the network and paused links. A
-- partition is the set of the names of its hosts.
use Prim.Native.String.{String, char_at}
use Prim.Native.Char.{code}
use text.Mathlib.Text.{◌==◌ as str_eq}
use mathlib.Core.Bool.{xor}
use whirl_matrix.Base.{
  ℕ, ◌+◌, Bool, true, false, not, ◌&&◌, ◌||◌, List, [], ◌∷◌, ◌==◌, length, none, some, get_elem?,
  Outcome, ok, panic, ◌>>=◌,
}
use whirl_matrix.Semantics.Checker.{swap}
use whirl_matrix.Network.{Link, Network}
use whirl_matrix.Network.Links.{host_name, link_at, pause, resume}
use whirl_matrix.Network.Steps.{get_link, range}

unfoldable pub pause_link : String → String → Network → Outcome Network
unfolding get_link pause
pause_link start end net = get_link start end net >>= λ i. pause i net

unfoldable pub resume_link : String → String → ℕ → Network → Outcome Network
unfolding get_link resume
resume_link start end now net = get_link start end net >>= λ i. resume i now net

unfoldable pub is_loop_back : Link → Bool
is_loop_back link = link.start == link.end

unfoldable pub count : List String → String → Bool
count [] h = false
count (x ∷ lhs) h = str_eq x h || count lhs h

-- One end of the link is in `lhs`.
unfoldable pub cross : List String → String → String → Bool
unfolding count
cross lhs start end = xor (count lhs start) (count lhs end)

-- The name begins with 'S'; the first character of an empty name is the terminator.
unfoldable pub is_system : String → Bool
is_system host = code (char_at host 0) == b'S'

unfoldable pub split_link : List String → ℕ → Network → Outcome Network
unfolding link_at is_loop_back host_name is_system cross pause
split_link lhs i net = link_at i net >>= λ link. host_name link.start net >>= λ start.
    host_name link.end net >>= λ end.
    elim (is_loop_back link || not (is_system start) || not (is_system end)) [
      | true ↦ ok net
      | false ↦ elim (cross lhs start end) [ true ↦ pause i net | false ↦ ok net ]
    ]

unfoldable pub split_links : List String → List ℕ → Network → Outcome Network
unfolding split_link
split_links lhs [] net = ok net
split_links lhs (i ∷ is) net = split_link lhs i net >>= split_links lhs is

unfoldable pub split : List String → Network → Outcome Network
unfolding split_links
split lhs net = split_links lhs (range 0 (length net.links)) net

unfoldable pub heal_links : ℕ → List ℕ → Network → Outcome Network
unfolding resume
heal_links now [] net = ok net
heal_links now (i ∷ is) net = resume i now net >>= heal_links now is

unfoldable pub heal : ℕ → Network → Outcome Network
unfolding heal_links
heal now net = heal_links now (range 0 (length net.links)) net

-- fault::Isolate: both directions of each link of the victim, and MakeStar: each link that has no
-- end at the center, those from a host to itself included.
unfoldable pub isolate : List String → String → Network → Outcome Network
unfolding pause_link
isolate [] victim net = ok net
isolate (host ∷ pool) victim net = elim (str_eq host victim) [
  | true ↦ isolate pool victim net
  | false ↦ pause_link host victim net >>= λ n. pause_link victim host n >>= isolate pool victim
]

unfoldable pub star_row : ℕ → ℕ → ℕ → String → List String → Network → Outcome Network
unfolding pause_link
star_row center i j host [] net = ok net
star_row center i j host (other ∷ pool) net = elim (not (i == center) && not (j == center)) [
  | true ↦ pause_link host other net >>= star_row center i (j + 1) host pool
  | false ↦ star_row center i (j + 1) host pool net
]

unfoldable pub star_rows : ℕ → ℕ → List String → List String → Network → Outcome Network
unfolding star_row
star_rows center i pool [] net = ok net
star_rows center i pool (host ∷ hosts) net =
    star_row center i 0 host pool net >>= star_rows center (i + 1) pool hosts

unfoldable pub make_star : List String → ℕ → Network → Outcome Network
unfolding star_rows
make_star pool center net = star_rows center 0 pool pool net

-- GenerateSplit, on the places that were drawn, each from `i` on: the hosts of one side.
unfoldable pub generate_split : ℕ → List ℕ → List String → Outcome (List String)
unfolding swap
generate_split i [] pool = ok []
generate_split i (j ∷ draws) pool = elim (get_elem? (swap i j pool) i) [
  | none ↦ panic
  | some host ↦ generate_split (i + 1) draws (swap i j pool) >>= λ lhs. ok (host ∷ lhs)
]

-- RandomSplit: each link from one side to the other.
unfoldable pub split_row : List String → String → List String → Network → Outcome Network
unfolding pause_link cross
split_row lhs host [] net = ok net
split_row lhs host (other ∷ pool) net = elim (cross lhs host other) [
  | true ↦ pause_link host other net >>= split_row lhs host pool
  | false ↦ split_row lhs host pool net
]

unfoldable pub split_rows : List String → List String → List String → Network → Outcome Network
unfolding split_row
split_rows lhs pool [] net = ok net
split_rows lhs pool (host ∷ hosts) net = split_row lhs host pool net >>= split_rows lhs pool hosts

unfoldable pub random_split : List ℕ → List String → Network → Outcome Network
unfolding generate_split split_rows
random_split draws pool net = generate_split 0 draws pool >>= λ lhs. split_rows lhs pool pool net

-- Shuffle, on the places that were drawn.
unfoldable pub shuffle : ℕ → List ℕ → List String → List String
unfolding swap
shuffle i [] pool = pool
shuffle i (j ∷ draws) pool = shuffle (i + 1) draws (swap i j pool)

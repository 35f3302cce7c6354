-- ===== src/KvSim/SetUp/Healing.antt =====
-- NetAdversary: the network after one of its turns.
use whirl_matrix.Base.{
  ◌+◌, ◌^◌, ◌<◌, some_inj, lt_of_get_elem?, get_elem?-lt, ℕ, ◌≡◌, sym, ap, ◌∙◌, false, some, List,
  arith, length, get_elem?, Outcome, ◌>>=◌, Ensures, bind-Ensures,
}
use mathlib.Core.Path.{subst}
use Prim.Native.String.{String}
use whirl_matrix.Network.{Network, Link}
use whirl_matrix.Network.Faults.{make_star, heal}
use whirl_matrix.Network.Healed.{heal-IsHealed}
use whirl_matrix.KvSim.SetUp.{net_turn}

abbrev IsWhole : Network → Type 0
IsWhole net = (i : ℕ) (l : Link) → get_elem? net.links i ≡ some l → l.paused ≡ false

heal-IsWhole : (now : ℕ) (net : Network) → now + 1 < 2 ^ 64 → Ensures IsWhole (heal now net)
heal-IsWhole now net w =
    let (net', healed, same, all) = heal-IsHealed now net w in
    subst (Ensures IsWhole) (sym healed) λ i l there.
      let inside : i < length net.links =
        omega (arith, same, lt_of_get_elem? net'.links i l there) in
      let (old, was) = get_elem?-lt net.links i inside in
      let (l', here, _, live) = all i old was in
      ap (λ (k : Link). k.paused) (some_inj (sym there ∙ here)) ∙ live

-- After a turn of the adversary, before the last 64-bit time, no link is paused, whichever host was the center and whatever happened to
-- the network in between.
net_turn-IsWhole :
    (pool : List String) (center : ℕ) (meanwhile : Network → Outcome Network) (now : ℕ)
    (net : Network)
    → now + 1 < 2 ^ 64
    → Ensures IsWhole (net_turn pool center meanwhile now net)
unfolding net_turn
net_turn-IsWhole pool center meanwhile now net w =
    bind-Ensures IsWhole (make_star pool center net >>= meanwhile) (λ net'. heal now net')
      (λ net'. heal-IsWhole now net' w)

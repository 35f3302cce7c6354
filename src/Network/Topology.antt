-- ===== src/Network/Topology.antt =====
-- Network::BuildLinks: one link for each two servers, and the links of the two directions are opposite.
use native.Mathlib.Nat.{mul-le-mul_right, suc-mul}
use mathlib.Core.Path.{subst}
use whirl_matrix.Base.{
  ℕ, zero, suc, ◌+◌, ◌*◌, ◌≤◌, ◌<◌, ◌≡◌, ◌⊎◌, inl, inr, refl, ap, ◌∙◌, true, false, Option, none,
  some, List, [], ◌++◌, arith, leb, leb→le, ltb, ltb→lt, Option-cases, ◌==◌, ==_iff, Bool-cases,
  length, get_elem?, get_elem?-set, lt_of_get_elem?, if◌then◌else◌,
}
use whirl_matrix.Network.{Link, Network}
use whirl_matrix.Network.Links.{new_link}
use whirl_matrix.Network.Steps.{
  range, get_link_index, all_links, set_opposite, link_pairs, link_opposites, build_links,
}
use whirl_matrix.Network.Rows.{get_elem?-all_links, new_link_eq}

before_row : (n a b i j : ℕ) → b < n → a < i → a * n + b < i * n + j
before_row n a b i j hb h =
    let up : suc a * n ≤ i * n = mul-le-mul_right n h in omega (arith, up, suc-mul a n)

index-inj :
    (n a b i j : ℕ)
    → b < n
    → j < n
    → get_link_index a b n ≡ get_link_index i j n
    → (a ≡ i) × (b ≡ j)
unfolding get_link_index
index-inj n a b i j hb hj e = elim (Bool-cases (ltb a i)) [
  | inl h ↦ absurd (omega (arith, e, before_row n a b i j hb (ltb→lt a i h)))
  | inr h ↦ elim (Bool-cases (ltb i a)) [
    | inl k ↦ absurd (omega (arith, e, before_row n i j a b hj (ltb→lt i a k)))
    | inr k ↦ let same : a ≡ i = ground arith in (same, omega (arith, e, ap (λ x. x * n) same))
  ]
]

-- The link from `i` to `j` with an opposite, or none.
abbrev linked : ℕ → ℕ → Option ℕ → Link
linked i j opposite = record (new_link i j) { opposite = opposite }

module _ (n i j : ℕ) (hi : i < n) (hj : j < n) where
  abbrev At : Option ℕ → List Link → Type 0
  At x links = get_elem? links (get_link_index i j n) ≡ some (linked i j x)

  -- The link is there, and it is opposite to the link from `j` to `i`.
  abbrev Some : List Link → Type 0
  Some links = (x : Option ℕ) × At x links

  abbrev Done : List Link → Type 0
  Done links = At (some (get_link_index j i n)) links

  set_opposite-At :
      (k o : ℕ) (x : Option ℕ) (links : List Link)
      → At x links
      → At (if k == get_link_index i j n then some o else x) (set_opposite k o links)
  unfolding set_opposite
  set_opposite-At k o x links h = elim (Bool-cases (k == get_link_index i j n)) [
    | inl f ↦
        let same : k ≡ get_link_index i j n = ground (arith, ==_iff k (get_link_index i j n)) in
        let here : get_elem? links k ≡ some (linked i j x) = ap (get_elem? links) same ∙ h in
        rw (here, set_opposite)
          (get_elem?-set links k (get_link_index i j n) (linked i j (some o))
              (lt_of_get_elem? links k (linked i j x) here)
            ∙ rw f refl)
    | inr f ↦ rw f (elim (Option-cases (get_elem? links k)) [
      | inl e ↦ rw (e, set_opposite) h
      | inr (l, e) ↦
          rw (e, set_opposite)
            (get_elem?-set links k (get_link_index i j n) (record l { opposite = some o })
                (lt_of_get_elem? links k l e)
              ∙ rw f h)
    ])
  ]

  abbrev pair : ℕ → ℕ → List Link → List Link
  pair a b links =
      set_opposite (get_link_index b a n) (get_link_index a b n)
        (set_opposite (get_link_index a b n) (get_link_index b a n) links)

  abbrev one_way : ℕ → ℕ → List Link → List Link
  one_way a b links = set_opposite (get_link_index a b n) (get_link_index b a n) links

  one_way-Some : (a b : ℕ) (links : List Link) → Some links → Some (one_way a b links)
  one_way-Some a b links (x, h) = (
    if get_link_index a b n == get_link_index i j n then some (get_link_index b a n) else x,
    set_opposite-At (get_link_index a b n) (get_link_index b a n) x links h,
  )

  one_way-Done : (a b : ℕ) (links : List Link) → b < n → Done links → Done (one_way a b links)
  one_way-Done a b links hb h =
      let after =
        set_opposite-At (get_link_index a b n) (get_link_index b a n) (some (get_link_index j i n))
          links h in
      elim (Bool-cases (get_link_index a b n == get_link_index i j n)) [
        | inl f ↦
            let same =
              index-inj n a b i j hb hj
                (ground (arith, ==_iff (get_link_index a b n) (get_link_index i j n))) in
            let target : get_link_index b a n ≡ get_link_index j i n =
              ap (λ t. get_link_index t a n) same.1 ∙ ap (λ t. get_link_index j t n) same.0 in
            after ∙ rw f (ap (λ t. some (linked i j (some t))) target)
        | inr f ↦ after ∙ rw f refl
      ]

  one_way-hit :
      (a b : ℕ) (links : List Link) → a ≡ i → b ≡ j → Some links → Done (one_way a b links)
  one_way-hit a b links e f (x, h) =
      let index : get_link_index a b n ≡ get_link_index i j n =
        ap (λ t. get_link_index t b n) e ∙ ap (λ t. get_link_index i t n) f in
      let target : get_link_index b a n ≡ get_link_index j i n =
        ap (λ t. get_link_index t a n) f ∙ ap (λ t. get_link_index j t n) e in
      let found : (get_link_index a b n == get_link_index i j n) ≡ true = ground (arith, index) in
      set_opposite-At (get_link_index a b n) (get_link_index b a n) x links h
      ∙ rw found (ap (λ t. some (linked i j (some t))) target)

  abbrev Hits : ℕ → ℕ → Type 0
  Hits a b = ((a ≡ i) × (b ≡ j)) ⊎ ((a ≡ j) × (b ≡ i))

  pair-hit :
      (a b : ℕ) (links : List Link) → a < n → b < n → Hits a b → Some links → Done (pair a b links)
  pair-hit a b links ha hb (inl (e, f)) h =
      one_way-Done b a (one_way a b links) ha (one_way-hit a b links e f h)
  pair-hit a b links ha hb (inr (e, f)) h =
      one_way-hit b a (one_way a b links) f e (one_way-Some a b links h)

  pairs-Some :
      (a b c : ℕ) (links : List Link) → Some links → Some (link_pairs n a (range b c) links)
  unfolding link_pairs
  pairs-Some a b zero links h = h
  pairs-Some a b (suc c) links h =
      pairs-Some a (b + 1) c (pair a b links)
        (one_way-Some b a (one_way a b links) (one_way-Some a b links h))

  pairs-Done :
      (a b c : ℕ) (links : List Link)
      → a < n
      → b + c ≤ n
      → Done links
      → Done (link_pairs n a (range b c) links)
  unfolding link_pairs
  pairs-Done a b zero links ha hb h = h
  pairs-Done a b (suc c) links ha hb h =
      pairs-Done a (b + 1) c (pair a b links) ha (omega arith)
        (one_way-Done b a (one_way a b links) ha (one_way-Done a b links (omega arith) h))

  pairs-hit :
      (a b c k : ℕ) (links : List Link)
      → a < n
      → b + c ≤ n
      → b ≤ k
      → k < b + c
      → Hits a k
      → Some links
      → Done (link_pairs n a (range b c) links)
  unfolding link_pairs
  pairs-hit a b zero k links ha hb lo hi' hits h = absurd (omega arith)
  pairs-hit a b (suc c) k links ha hb lo hi' hits h = elim (Bool-cases (b == k)) [
    | inl e ↦
        let same : k ≡ b = ground (arith, ==_iff b k) in
        pairs-Done a (b + 1) c (pair a b links) ha (omega arith)
          (pair-hit a b links ha (omega arith) (subst (Hits a) same hits) h)
    | inr e ↦
        let later : b + 1 ≤ k = ground arith in
        pairs-hit a (b + 1) c k (pair a b links) ha (omega arith) later (omega arith) hits
          (one_way-Some b a (one_way a b links) (one_way-Some a b links h))
  ]

  opposites-Done :
      (a c : ℕ) (links : List Link) → a + c ≡ n → Done links → Done (link_opposites n a c links)
  unfolding link_opposites
  opposites-Done a zero links e h = h
  opposites-Done a (suc c) links e h =
      opposites-Done (a + 1) c (link_pairs n a (range a (suc c)) links) (omega arith)
        (pairs-Done a a (suc c) links (omega arith) (omega arith) h)

  -- The pair is reached in the row of its smaller index.
  opposites-hit :
      (a c r k : ℕ) (links : List Link)
      → a + c ≡ n
      → a ≤ r
      → r < n
      → r ≤ k
      → k < n
      → Hits r k
      → Some links
      → Done (link_opposites n a c links)
  unfolding link_opposites
  opposites-hit a zero r k links e lo hr rk hk hits h = absurd (omega arith)
  opposites-hit a (suc c) r k links e lo hr rk hk hits h = elim (Bool-cases (a == r)) [
    | inl f ↦
        let same : r ≡ a = ground (arith, ==_iff a r) in
        opposites-Done (a + 1) c (link_pairs n a (range a (suc c)) links) (omega arith) (
          pairs-hit a a (suc c) k links (omega arith) (omega arith) (omega arith) (omega arith)
            (subst (λ t. Hits t k) same hits) h)
    | inr f ↦
        let later : a + 1 ≤ r = ground arith in
        opposites-hit (a + 1) c r k (link_pairs n a (range a (suc c)) links) (omega arith) later hr
          rk hk hits (pairs-Some a a (suc c) links h)
  ]

  opposites-Link : (links : List Link) → Some links → Done (link_opposites n 0 n links)
  opposites-Link links h = elim (Bool-cases (leb i j)) [
    | inl e ↦
        opposites-hit 0 n i j links (omega arith) (omega arith) hi (leb→le i j e) hj
          (inl (refl, refl)) h
    | inr e ↦
        let less : j ≤ i = ground arith in
        opposites-hit 0 n j i links (omega arith) (omega arith) hj less hi (inr (refl, refl)) h
  ]

-- After BuildLinks of a network that has no links yet there is, for any two of its servers, also for a server
-- and itself, at the index of the two a link from the one to the other, which is not paused and
-- has no frames, and its opposite is the link at the index of the other direction.
pub build_links_lem :
    (net : Network) (i j : ℕ)
    → net.links ≡ []
    → i < length net.servers
    → j < length net.servers
    → (link : Link) × (get_elem? (build_links net).links (get_link_index i j (length net.servers))
        ≡ some link)
      × (link.start ≡ i)
      × (link.end ≡ j)
      × (link.opposite ≡ some (get_link_index j i (length net.servers)))
      × (link.paused ≡ false)
      × (link.frames.items ≡ [])
unfolding build_links new_link
build_links_lem net i j e hi hj =
    let n = length net.servers in
    let built = net.links ++ all_links n (range 0 n) in
    let there : get_elem? built (get_link_index i j n) ≡ some (linked i j none) =
      ap (λ (ls : List Link). get_elem? (ls ++ all_links n (range 0 n)) (get_link_index i j n)) e
      ∙ unfold get_link_index in
        get_elem?-all_links n 0 n i j hi hj ∙ new_link_eq (0 + i) i j j (omega arith) refl in
    (
      linked i j (some (get_link_index j i n)),
      opposites-Link n i j hi hj built (none, there),
      refl,
      refl,
      refl,
      refl,
      refl,
    )

-- ===== src/Network/Healed.antt =====
-- Link::Resume and Network::Heal: the links are open again, with the frames that they held.
use mathlib.Core.Path.{subst}
use whirl_matrix.Base.{
  count_where, ℕ, zero, suc, ◌+◌, ◌^◌, ◌≤◌, ◌<◌, ◌≡◌, ◌⊎◌, refl, sym, ap, ◌∙◌, inl, inr, Bool, true,
  false, ◌||◌, some, List, [], ◌∷◌, arith, All, Bool-cases, length, get_elem?, length-set,
  lt_of_get_elem?, get_elem?-lt, ◌==◌, ok, ◌>>=◌, some_inj,
}
use whirl_matrix.PriorityQueue.{Entry, size, is_empty}
use whirl_matrix.Network.{FrameEvent, Link, Network, frame_events, link_events}
use whirl_matrix.Network.Links.{link_at, update_link, resend, resume, has_frames}
use whirl_matrix.Network.Steps.{range}
use whirl_matrix.Network.Faults.{heal, heal_links}
use whirl_matrix.Network.Resumed.{
  is_late, frames_of, IsResent, OnlyLink, set_same, set_other, IsResent-refl, OnlyLink-trans,
  resend-Resent,
}

module _ (i now : ℕ) where
  late_le_length : (l : List (Entry FrameEvent)) → count_where (is_late now) l ≤ length l
  late_le_length [] = omega arith
  late_le_length (e ∷ l) = ground (arith, late_le_length l)

  -- The link and the network without the pause.
  abbrev woken : Link → Link
  woken l = record l { paused = false }

  woken-IsResent : (l l' : Link) → IsResent now (woken l) l' → IsResent now l l'
  woken-IsResent l l' h = record {
    none_late = h.none_late;
    none_lost = h.none_lost;
    same_start = h.same_start;
    same_end = h.same_end;
    same_opposite = h.same_opposite;
  }

  abbrev Resumed : Network → Link → Type 0
  Resumed net l =
      (net' : Network) × (l' : Link) × (resume i now net ≡ ok net')
      × (get_elem? net'.links i ≡ some l')
      × (l'.paused ≡ false)
      × IsResent now l l'
      × OnlyLink i net net'

  woken-OnlyLink :
      (l : Link) (net : Network) → i < length net.links → OnlyLink i net (update_link i l net)
  unfolding update_link
  woken-OnlyLink l net b = record {
    others = λ j e. set_other i now net.links l j b e;
    same_links = length-set net.links i l;
    same_servers = refl;
  }

  resume_lem :
      (l : Link) (net : Network)
      → get_elem? net.links i ≡ some l
      → l.paused ≡ true
      → resume i now net ≡ elim (has_frames l) [
        | true ↦ resend (size l.frames + 1) i now (update_link i (woken l) net)
        | false ↦ ok (update_link i (woken l) net)
      ]
  unfolding resume link_at
  resume_lem l net h e = rw (h, resume, link_at) (rw e refl)

  opened_up :
      (items : List (Entry FrameEvent)) (k : ℕ) (l : Link) (net : Network)
      → now + 1 < 2 ^ 64
      → get_elem? net.links i ≡ some (frames_of items k l)
      → l.paused ≡ true
      → Resumed net (frames_of items k l)
  opened_up [] k l net w h e = (
    update_link i (woken (frames_of [] k l)) net,
    woken (frames_of [] k l),
    resume_lem (frames_of [] k l) net h e ∙ unfold has_frames is_empty in refl,
    unfold update_link in set_same i now net.links (frames_of [] k l) _ h,
    refl,
    woken-IsResent (frames_of [] k l) _ (IsResent-refl i now (woken (frames_of [] k l)) tt),
    woken-OnlyLink (woken (frames_of [] k l)) net (lt_of_get_elem? net.links i _ h),
  )
  opened_up (x ∷ xs) k l net w h e =
      let l0 = woken (frames_of (x ∷ xs) k l) in
      let (net', l', runs, there, live, resent, only) =
        resend-Resent i now (length (x ∷ xs) + 1) x xs k (woken l) (update_link i l0 net) w
          (unfold update_link in set_same i now net.links (frames_of (x ∷ xs) k l) l0 h)
          (omega (arith, late_le_length (x ∷ xs))) in
      (
        net',
        l',
        resume_lem (frames_of (x ∷ xs) k l) net h e ∙ unfold has_frames is_empty size in runs,
        there,
        live,
        woken-IsResent (frames_of (x ∷ xs) k l) l' resent,
        OnlyLink-trans i now net (update_link i l0 net) net'
            (woken-OnlyLink l0 net (lt_of_get_elem? net.links i _ h)) only,
      )

  resume-Resumed :
      (l : Link) (net : Network)
      → now + 1 < 2 ^ 64
      → get_elem? net.links i ≡ some l
      → l.paused ≡ true
      → Resumed net l
  resume-Resumed l net w h e = opened_up l.frames.items l.frames.inserts l net w h e

  resume_live :
      (l : Link) (net : Network)
      → get_elem? net.links i ≡ some l
      → l.paused ≡ false
      → resume i now net ≡ ok net
  unfolding resume link_at
  resume_live l net h e = rw (h, resume, link_at) (rw e refl)

-- What a heal may do to a link: nothing, or end its pause.
abbrev pub IsHealed : ℕ → Link → Link → Type 0
IsHealed now l l' = (l' ≡ l) ⊎ ((l.paused ≡ true) × (l'.paused ≡ false) × IsResent now l l')

IsHealed-trans : (now : ℕ) (a b c : Link) → IsHealed now a b → IsHealed now b c → IsHealed now a c
IsHealed-trans now a b c h (inl e) = subst (IsHealed now a) (sym e) h
IsHealed-trans now a b c (inl e) (inr q) = subst (λ l. IsHealed now l c) e (inr q)
IsHealed-trans now a b c (inr p) (inr q) = cc

stays_live : (now : ℕ) (a b : Link) → IsHealed now a b → a.paused ≡ false → b.paused ≡ false
stays_live now a b (inl e) h = ap (λ (l : Link). l.paused) e ∙ h
stays_live now a b (inr q) h = q.1

has : ℕ → List ℕ → Bool
has j [] = false
has j (i ∷ is) = (i == j) || has j is

no_index : {A : Type 0} (j : ℕ) → has j [] ≡ true → A
unfolding has
no_index j e = cc

module _ (now : ℕ) where
  -- The links of `net` after some of them, those that `p` names, have been healed.
  abbrev Healed : Network → Network → (ℕ → Bool) → Type 0
  Healed net net' p =
      (length net'.links ≡ length net.links)
      × ((j : ℕ) (l : Link)
          → get_elem? net.links j ≡ some l
          → (l' : Link) × (get_elem? net'.links j ≡ some l')
            × IsHealed now l l'
            × (p j ≡ true → l'.paused ≡ false))

  abbrev Heals : ℕ → Network → Type 0
  Heals i net = (net' : Network) × (resume i now net ≡ ok net') × Healed net net' (λ j. i == j)

  other_link :
      (i : ℕ) (net net' : Network) (j : ℕ) (l : Link)
      → OnlyLink i net net'
      → (i == j) ≡ false
      → get_elem? net.links j ≡ some l
      → (l' : Link) × (get_elem? net'.links j ≡ some l')
        × IsHealed now l l'
        × ((i == j) ≡ true → l'.paused ≡ false)
  other_link i net net' j l only e h = (l, only.others j e ∙ h, inl refl, λ k. cc)

  resume-Heals : (i : ℕ) (net : Network) → now + 1 < 2 ^ 64 → i < length net.links → Heals i net
  resume-Heals i net w b =
      let (l, h) = get_elem?-lt net.links i b in
      elim (Bool-cases l.paused) [
        | inl e ↦
            let (net', l', runs, there, live, resent, only) = resume-Resumed i now l net w h e in
            (
              net',
              runs,
              (
                only.same_links,
                λ j m k. elim (Bool-cases (i == j)) [
                  | inr q ↦ other_link i net net' j m only q k
                  | inl q ↦
                      let here : i ≡ j = ground arith in
                      let same : l ≡ m = some_inj (sym h ∙ ap (get_elem? net.links) here ∙ k) in
                      (
                        l',
                        ap (get_elem? net'.links) (sym here) ∙ there,
                        subst (λ a. IsHealed now a l') same (inr (e, live, resent)),
                        λ r. live,
                      )
                ],
              ),
            )
        | inr e ↦ (
          net,
          resume_live i now l net h e,
          (
            refl,
            λ j m k. (
              m,
              k,
              inl refl,
              λ q.
                  let here : i ≡ j = ground arith in
                  let same : l ≡ m = some_inj (sym h ∙ ap (get_elem? net.links) here ∙ k) in
                  ap (λ (a : Link). a.paused) (sym same) ∙ e,
            ),
          ),
        )
      ]

  both_steps :
      (i : ℕ) (is : List ℕ) (a b c : Network)
      → Healed a b (λ j. i == j)
      → Healed b c (λ j. has j is)
      → Healed a c (λ j. has j (i ∷ is))
  unfolding has
  both_steps i is a b c (n, first) (m, rest) = (
    m ∙ n,
    λ j l h.
        let (l1, h1, q1, live1) = first j l h in
        let (l2, h2, q2, live2) = rest j l1 h1 in
        (
          l2,
          h2,
          IsHealed-trans now l l1 l2 q1 q2,
          λ k. elim (Bool-cases (i == j)) [
            | inl e ↦ stays_live now l1 l2 q2 (live1 e)
            | inr e ↦ live2 (ground arith)
          ],
        ),
  )

  heal_links-Healed :
      (is : List ℕ) (net : Network)
      → now + 1 < 2 ^ 64
      → All (λ i. i < length net.links) is
      → (net' : Network) × (heal_links now is net ≡ ok net') × Healed net net' (λ j. has j is)
  unfolding heal_links
  heal_links-Healed [] net w h = (net, refl, (refl, λ j l k. (l, k, inl refl, no_index j)))
  heal_links-Healed (i ∷ is) net w (b, h) =
      let (net1, runs, healed) = resume-Heals i net w b in
      let (net2, rest, others) =
        heal_links-Healed is net1 w (subst (λ n. All (λ k. k < n) is) (sym healed.0) h) in
      (
        net2,
        ap (λ m. m >>= heal_links now is) runs ∙ rest,
        both_steps i is net net1 net2 healed others,
      )

range-All : (i c n : ℕ) → i + c ≤ n → All (λ k. k < n) (range i c)
range-All i zero n h = tt
range-All i (suc c) n h = (omega arith, range-All (i + 1) c n (omega arith))

has-range : (i c j : ℕ) → i ≤ j → j < i + c → has j (range i c) ≡ true
unfolding has
has-range i zero j h k = absurd (omega arith)
has-range i (suc c) j h k = elim (Bool-cases (i == j)) [
  | inl e ↦ rw e refl
  | inr e ↦ rw e (has-range (i + 1) c j (ground arith) (omega arith))
]

-- Before the last time that 64 bits have, Heal ends, whatever links are paused. Every link is open afterwards. A link that was open is as it was; one
-- that was paused has the frames that it held, each as often, and none of them is due before now.
pub heal-IsHealed :
    (now : ℕ) (net : Network)
    → now + 1 < 2 ^ 64
    → (net' : Network) × (heal now net ≡ ok net')
      × (length net'.links ≡ length net.links)
      × ((j : ℕ) (l : Link)
          → get_elem? net.links j ≡ some l
          → (l' : Link) × (get_elem? net'.links j ≡ some l')
            × IsHealed now l l'
            × (l'.paused ≡ false))
unfolding heal
heal-IsHealed now net w =
    let n = length net.links in
    let (net', runs, (same, all)) =
      heal_links-Healed now (range 0 n) net w (range-All 0 n n (omega arith)) in
    (
      net',
      runs,
      same,
      λ j l h.
          let (l', there, healed, live) = all j l h in
          (
            l',
            there,
            healed,
            live (has-range 0 n j (omega arith) (omega (arith, lt_of_get_elem? net.links j l h))),
          ),
    )

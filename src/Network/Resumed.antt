-- ===== src/Network/Resumed.antt =====
-- The loop of Link::Resume on the frames that a pause has held back.
use whirl_matrix.Base.{
  bit, count_where, ℕ, zero, suc, ◌+◌, ◌%◌, ◌^◌, ◌<◌, ◌≡◌, refl, ap, ◌∙◌, inl, inr, Bool, true,
  false, some, List, ◌∷◌, arith, All, All-map, Bool-cases, length, get_elem?, set, get_elem?-set,
  length-set, lt_of_get_elem?, ltb, ◌==◌, ==_refl, if◌then◌else◌, Outcome, ok, ◌>>=◌,
}
use whirl_matrix.PriorityQueue.{Entry, take_top, extract, insert, make_unique}
use whirl_matrix.PriorityQueue.Smallest.{take_top-count, take_top-least}
use whirl_matrix.Network.{Frame, FrameEvent, Link, Network, frame_events, link_events}
use whirl_matrix.Network.Links.{link_at, update_link, add_frame, add_link_event, log_frame, resend}
use whirl_matrix.Network.Sends.{sent, add_frame-sent}

abbrev pub is_late : ℕ → Entry FrameEvent → Bool
is_late now e = ltb e.item.time now

abbrev pub carries : (Frame → Bool) → Entry FrameEvent → Bool
carries p e = p e.item.frame

-- The link `later` is the link `earlier` after its frames before `now` have been sent again.
pub record IsResent (now : ℕ) (earlier later : Link) : Type 0 where
  pub none_late : All (λ (e : Entry FrameEvent). ltb e.item.time now ≡ false) later.frames.items
  pub none_lost :
      (p : Frame → Bool)
      → count_where (carries p) later.frames.items ≡ count_where (carries p) earlier.frames.items
  pub same_start : later.start ≡ earlier.start
  pub same_end : later.end ≡ earlier.end
  pub same_opposite : later.opposite ≡ earlier.opposite

-- All links but `i` are as they were.
pub record OnlyLink (i : ℕ) (earlier later : Network) : Type 0 where
  pub others : (j : ℕ) → (i == j) ≡ false → get_elem? later.links j ≡ get_elem? earlier.links j
  pub same_links : length later.links ≡ length earlier.links
  pub same_servers : later.servers ≡ earlier.servers

abbrev pub frames_of : List (Entry FrameEvent) → ℕ → Link → Link
frames_of items inserts l = record l { frames = record { items = items; inserts = inserts } }

-- What Resume sends again is sent for then.
abbrev next_time : ℕ → ℕ
next_time now = (now + 1) % 2 ^ 64

module _ (i now : ℕ) where
  abbrev pub Resent : ℕ → Network → Link → Type 0
  Resent n net l =
      (net' : Network) × (l' : Link) × (resend n i now net ≡ ok net')
      × (get_elem? net'.links i ≡ some l')
      × (l'.paused ≡ l.paused)
      × IsResent now l l'
      × OnlyLink i net net'

  -- The link and the network after a turn of the loop.
  abbrev turned_link : Entry FrameEvent → List (Entry FrameEvent) → ℕ → Link → Link
  turned_link x xs k l = record l {
    frames =
        insert (record { frame = (take_top x xs).0.item.frame; time = next_time now })
          (record { items = (take_top x xs).1; inserts = k });
  }

  abbrev turned : Entry FrameEvent → List (Entry FrameEvent) → ℕ → Link → Network → Network
  turned x xs k l net =
      sent i (take_top x xs).0.item.frame (next_time now) (frames_of (take_top x xs).1 k l)
        (update_link i (frames_of (take_top x xs).1 k l) net)

  pub set_same :
      (links : List Link) (l l' : Link)
      → get_elem? links i ≡ some l
      → get_elem? (set links i l') i ≡ some l'
  set_same links l l' h =
      get_elem?-set links i i l' (lt_of_get_elem? links i l h)
      ∙ ap (λ b. if b then some l' else get_elem? links i) (==_refl i)

  -- A turn of the loop on the link that it finds.
  abbrev turn : ℕ → Network → Bool → FrameEvent → Link → Outcome Network
  turn n net late e l = elim late [
    | true ↦
        add_frame i e.frame (next_time now) (update_link i l net) >>= λ net'. resend n i now net'
    | false ↦ ok net
  ]

  turn_lem :
      (n : ℕ) (x : Entry FrameEvent) (xs : List (Entry FrameEvent)) (k : ℕ) (l : Link)
      (net : Network)
      → get_elem? net.links i ≡ some (frames_of (x ∷ xs) k l)
      → resend (suc n) i now net
        ≡ turn n net
            (is_late now (take_top x xs).0)
            (take_top x xs).0.item
            (frames_of (take_top x xs).1 k l)
  unfolding resend link_at extract
  turn_lem n x xs k l net h = rw (h, resend, link_at) refl

  turn_late :
      (n : ℕ) (x : Entry FrameEvent) (xs : List (Entry FrameEvent)) (k : ℕ) (l : Link)
      (net : Network)
      → get_elem? net.links i ≡ some (frames_of (x ∷ xs) k l)
      → is_late now (take_top x xs).0 ≡ true
      → resend (suc n) i now net ≡ resend n i now (turned x xs k l net)
  turn_late n x xs k l net h e =
      turn_lem n x xs k l net h
      ∙ ap (λ late. turn n net late (take_top x xs).0.item (frames_of (take_top x xs).1 k l)) e
      ∙ ap (λ (m : Outcome Network). m >>= λ net'. resend n i now net')
          (add_frame-sent i (take_top x xs).0.item.frame (next_time now)
            (frames_of (take_top x xs).1 k l) (update_link i (frames_of (take_top x xs).1 k l) net)
            (unfold update_link in set_same net.links (frames_of (x ∷ xs) k l) _ h))

  turn_done :
      (n : ℕ) (x : Entry FrameEvent) (xs : List (Entry FrameEvent)) (k : ℕ) (l : Link)
      (net : Network)
      → get_elem? net.links i ≡ some (frames_of (x ∷ xs) k l)
      → is_late now (take_top x xs).0 ≡ false
      → resend (suc n) i now net ≡ ok net
  turn_done n x xs k l net h e =
      turn_lem n x xs k l net h
      ∙ ap (λ late. turn n net late (take_top x xs).0.item (frames_of (take_top x xs).1 k l)) e

  turned-link :
      (x : Entry FrameEvent) (xs : List (Entry FrameEvent)) (k : ℕ) (l : Link) (net : Network)
      → get_elem? net.links i ≡ some (frames_of (x ∷ xs) k l)
      → get_elem? (turned x xs k l net).links i ≡ some (turned_link x xs k l)
  unfolding update_link add_link_event log_frame
  turned-link x xs k l net h =
      set_same (set net.links i (frames_of (take_top x xs).1 k l)) (frames_of (take_top x xs).1 k l)
        _ (set_same net.links (frames_of (x ∷ xs) k l) _ h)

  pub set_other :
      (links : List Link) (l : Link) (j : ℕ)
      → i < length links
      → (i == j) ≡ false
      → get_elem? (set links i l) j ≡ get_elem? links j
  set_other links l j b e =
      get_elem?-set links i j l b ∙ ap (λ t. if t then some l else get_elem? links j) e

  turned-OnlyLink :
      (x : Entry FrameEvent) (xs : List (Entry FrameEvent)) (k : ℕ) (l : Link) (net : Network)
      → i < length net.links
      → OnlyLink i net (turned x xs k l net)
  unfolding update_link add_link_event log_frame
  turned-OnlyLink x xs k l net b =
      let first = frames_of (take_top x xs).1 k l in
      record {
        others = λ j e.
            set_other (set net.links i first) _ j (omega (arith, b, length-set net.links i first)) e
            ∙ set_other net.links first j b e;
        same_links = length-set (set net.links i first) i _ ∙ length-set net.links i first;
        same_servers = refl;
      }

  pub OnlyLink-trans : (a b c : Network) → OnlyLink i a b → OnlyLink i b c → OnlyLink i a c
  OnlyLink-trans a b c h k = record {
    others = λ j e. k.others j e ∙ h.others j e;
    same_links = k.same_links ∙ h.same_links;
    same_servers = k.same_servers ∙ h.same_servers;
  }

  turned-carries :
      (x : Entry FrameEvent) (xs : List (Entry FrameEvent)) (k : ℕ) (l : Link) (p : Frame → Bool)
      → count_where (carries p) (turned_link x xs k l).frames.items
        ≡ count_where (carries p) (x ∷ xs)
  unfolding insert make_unique
  turned-carries x xs k l p = take_top-count (carries p) x xs

  turned-late :
      (n : ℕ) (x : Entry FrameEvent) (xs : List (Entry FrameEvent)) (k : ℕ) (l : Link)
      → now + 1 < 2 ^ 64
      → is_late now (take_top x xs).0 ≡ true
      → count_where (is_late now) (x ∷ xs) < suc n
      → count_where (is_late now) (turned_link x xs k l).frames.items < n
  unfolding insert make_unique
  turned-late n x xs k l w e h =
      let first : bit (is_late now (take_top x xs).0) ≡ 1 = ap bit e in
      let later : next_time now ≡ now + 1 = omega arith in
      let here : ltb (next_time now) now ≡ false = ground (arith, later) in
      rw here (omega (arith, take_top-count (is_late now) x xs))

  pub IsResent-refl :
      (l : Link)
      → All (λ (e : Entry FrameEvent). ltb e.item.time now ≡ false) l.frames.items
      → IsResent now l l
  IsResent-refl l h = record {
    none_late = h;
    none_lost = λ p. refl;
    same_start = refl;
    same_end = refl;
    same_opposite = refl;
  }

  pub OnlyLink-refl : (net : Network) → OnlyLink i net net
  OnlyLink-refl net = record { others = λ j e. refl; same_links = refl; same_servers = refl }

  all_in_time :
      (x : Entry FrameEvent) (xs : List (Entry FrameEvent))
      → is_late now (take_top x xs).0 ≡ false
      → All (λ (e : Entry FrameEvent). ltb e.item.time now ≡ false) (x ∷ xs)
  all_in_time x xs h =
      All-map (λ (z : Entry FrameEvent). ltb z.item.time (take_top x xs).0.item.time ≡ false) _
        (x ∷ xs) (λ z k. ground arith) (take_top-least x xs)

  again_late :
      (n : ℕ) (x : Entry FrameEvent) (xs : List (Entry FrameEvent)) (k : ℕ) (l : Link)
      (net : Network)
      → get_elem? net.links i ≡ some (frames_of (x ∷ xs) k l)
      → is_late now (take_top x xs).0 ≡ true
      → Resent n (turned x xs k l net) (turned_link x xs k l)
      → Resent (suc n) net (frames_of (x ∷ xs) k l)
  again_late n x xs k l net h e (net', l', runs, there, live, resent, only) = (
    net',
    l',
    turn_late n x xs k l net h e ∙ runs,
    there,
    live,
    record {
      none_late = resent.none_late;
      none_lost = λ p. resent.none_lost p ∙ turned-carries x xs k l p;
      same_start = resent.same_start;
      same_end = resent.same_end;
      same_opposite = resent.same_opposite;
    },
    OnlyLink-trans net (turned x xs k l net) net'
        (turned-OnlyLink x xs k l net (lt_of_get_elem? net.links i _ h)) only,
  )

  pub resend-Resent :
      (n : ℕ) (x : Entry FrameEvent) (xs : List (Entry FrameEvent)) (k : ℕ) (l : Link)
      (net : Network)
      → now + 1 < 2 ^ 64
      → get_elem? net.links i ≡ some (frames_of (x ∷ xs) k l)
      → count_where (is_late now) (x ∷ xs) < n
      → Resent n net (frames_of (x ∷ xs) k l)
  unfolding insert
  resend-Resent zero x xs k l net w h b = absurd (omega arith)
  resend-Resent (suc n) x xs k l net w h b = elim (Bool-cases (is_late now (take_top x xs).0)) [
    | inr e ↦ (
      net,
      frames_of (x ∷ xs) k l,
      turn_done n x xs k l net h e,
      h,
      refl,
      IsResent-refl (frames_of (x ∷ xs) k l) (all_in_time x xs e),
      OnlyLink-refl net,
    )
    | inl e ↦ again_late n x xs k l net h e (
        resend-Resent n
          (make_unique (record { frame = (take_top x xs).0.item.frame; time = next_time now }) k)
          (take_top x xs).1 (k + 1) l (turned x xs k l net) w (turned-link x xs k l net h)
          (turned-late n x xs k l w e b))
  ]

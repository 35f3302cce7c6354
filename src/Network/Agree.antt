-- ===== src/Network/Agree.antt =====
-- Network::Step on a network whose queues agree.
use mathlib.Core.Path.{subst}
use whirl_matrix.Base.{
  some_inj, count_where, ℕ, ◌≤◌, ◌<◌, ◌≡◌, inl, inr, refl, sym, ap, ◌∙◌, true, false, Option, none,
  some, List, [], ◌∷◌, arith, All, Bool-cases, length, get_elem?, set, get_elem?-lt, get_elem?-set,
  length-set, ◌==◌, if◌then◌else◌, ok,
}
use whirl_matrix.PriorityQueue.{Entry, take_top, is_empty}
use whirl_matrix.PriorityQueue.Sorting.{take_top-All}
use whirl_matrix.Digest.{Hashes}
use whirl_matrix.Network.{FrameEvent, LinkEvent, Link, Network, frame_events, link_events}
use whirl_matrix.Network.Links.{update_link}
use whirl_matrix.Network.Steps.{Delivery, step, is_runnable}
use whirl_matrix.Network.Coherent.{
  IsCoherent, at_time, of_link, same_time, fronts_leave, other_stays, top_counted,
}
use whirl_matrix.Network.Delivers.{
  with_events, with_frames, delivered, step_front, deliver-paused, deliver-live, Succeeds,
}

true_not_false : true ≡ false → ⊥
true_not_false h = cc

pub eq_of_test : (i j : ℕ) → (i == j) ≡ true → i ≡ j
eq_of_test i j e = ground arith

module _ {A : Type 0} (l : List A) (i j : ℕ) (v : A) (b : i < length l) where
  pub set_here : {u : A} → (i == j) ≡ true → get_elem? (set l i v) j ≡ some u → u ≡ v
  set_here {u} e h =
      let one : some v ≡ some u =
        sym (get_elem?-set l i j v b ∙ ap (λ t. if t then some v else get_elem? l j) e) ∙ h in
      cc

  pub set_there :
      {r : Option A} → (i == j) ≡ false → get_elem? (set l i v) j ≡ r → get_elem? l j ≡ r
  set_there e h =
      sym (get_elem?-set l i j v b ∙ ap (λ t. if t then some v else get_elem? l j) e) ∙ h

without_front-known :
    (x : Entry LinkEvent) (xs : List (Entry LinkEvent)) (n : ℕ)
    → All (λ (e : Entry LinkEvent). e.item.link < n) (x ∷ xs)
    → ((take_top x xs).0.item.link < n)
      × All (λ (e : Entry LinkEvent). e.item.link < n) (take_top x xs).1
without_front-known x xs n (hx, h) =
    take_top-All (λ (e : Entry LinkEvent). e.item.link < n) x xs hx h

not_both :
    (links : List Link) {i j : ℕ} (l l' : Link)
    → i ≡ j
    → get_elem? links i ≡ some l
    → get_elem? links j ≡ some l'
    → l.paused ≡ true
    → l'.paused ≡ false
    → ⊥
not_both links {i} l l' e h h' k live =
    let same : l ≡ l' = some_inj (sym h ∙ ap (get_elem? links) e ∙ h') in
    true_not_false (sym k ∙ ap (λ (m : Link). m.paused) same ∙ live)

paused-IsCoherent :
    (x : Entry LinkEvent) (xs : List (Entry LinkEvent)) (n : ℕ) (l : Link) (net : Network)
    → IsCoherent (with_events (x ∷ xs) n net)
    → get_elem? net.links (take_top x xs).0.item.link ≡ some l
    → l.paused ≡ true
    → IsCoherent (with_events (take_top x xs).1 n net)
paused-IsCoherent x xs n l net v h k = record {
  known = (without_front-known x xs (length net.links) v.known).1;
  matched = λ j l' h' live t. elim (Bool-cases ((take_top x xs).0.item.link == j)) [
    | inl e ↦ absurd (not_both net.links l l' (eq_of_test _ j e) h h' k live)
    | inr e ↦ v.matched j l' h' live t ∙ sym (other_stays j x xs e t)
  ];
}

delivered-IsCoherent :
    (w : Hashes) (x : Entry LinkEvent) (xs : List (Entry LinkEvent)) (n : ℕ) (l : Link)
    (y : Entry FrameEvent) (ys : List (Entry FrameEvent)) (net : Network)
    → IsCoherent (with_events (x ∷ xs) n net)
    → get_elem? net.links (take_top x xs).0.item.link ≡ some (with_frames (y ∷ ys) l)
    → l.paused ≡ false
    → IsCoherent
        (delivered w (take_top x xs).0.item.link l y ys (with_events (take_top x xs).1 n net))
unfolding update_link
delivered-IsCoherent w x xs n l y ys net v h k = record {
  known =
      subst (λ m. All (λ (e : Entry LinkEvent). e.item.link < m) (take_top x xs).1)
        (sym (length-set net.links _ _)) (without_front-known x xs (length net.links) v.known).1;
  matched = λ j l' h' live t. elim (Bool-cases ((take_top x xs).0.item.link == j)) [
    | inl e ↦
        let here = (without_front-known x xs (length net.links) v.known).0 in
        let front : (take_top x xs).0.item.link ≡ j = eq_of_test _ j e in
        subst
          (λ (m : Link).
            count_where (at_time t) m.frames.items ≡ count_where (of_link j t) (take_top x xs).1)
          (sym (set_here net.links _ j _ here e h'))
          (fronts_leave j x xs y ys
            (v.matched j (with_frames (y ∷ ys) l)
              (subst (λ i. get_elem? net.links i ≡ some (with_frames (y ∷ ys) l)) front h) k)
            front t)
    | inr e ↦
        let here = (without_front-known x xs (length net.links) v.known).0 in
        v.matched j l' (set_there net.links _ j _ here e h') live t ∙ sym (other_stays j x xs e t)
  ];
}

module _ (w : Hashes) where
  live-Succeeds :
      (x : Entry LinkEvent) (xs : List (Entry LinkEvent)) (n : ℕ) (l : Link)
      (ys : List (Entry FrameEvent)) (net : Network)
      → IsCoherent (with_events (x ∷ xs) n net)
      → get_elem? net.links (take_top x xs).0.item.link ≡ some (with_frames ys l)
      → l.paused ≡ false
      → Succeeds w (with_events (x ∷ xs) n net)
  live-Succeeds x xs n l [] net v h k =
      let i = (take_top x xs).0.item.link in
      let t = (take_top x xs).0.item.time in
      let front : of_link i t (take_top x xs).0 ≡ true = ground arith in
      let some_event : 1 ≤ count_where (of_link i t) (x ∷ xs) =
        top_counted (of_link i t) x xs front in
      let no_frames : 0 ≡ count_where (of_link i t) (x ∷ xs) =
        v.matched i (with_frames [] l) h k t in
      absurd (omega arith)
  live-Succeeds x xs n l (y ∷ ys) net v h k =
      let i = (take_top x xs).0.item.link in
      (
        _,
        _,
        step_front w x xs n net
            ∙ deliver-live w i (take_top x xs).0.item.time l y ys
                (with_events (take_top x xs).1 n net) h k
                (same_time i x xs y ys (v.matched i (with_frames (y ∷ ys) l) h k) refl),
        delivered-IsCoherent w x xs n l y ys net v h k,
      )

  front-Succeeds :
      (x : Entry LinkEvent) (xs : List (Entry LinkEvent)) (n : ℕ) (net : Network)
      → IsCoherent (with_events (x ∷ xs) n net)
      → Succeeds w (with_events (x ∷ xs) n net)
  front-Succeeds x xs n net v =
      let (l, h) =
        get_elem?-lt net.links _ (without_front-known x xs (length net.links) v.known).0 in
      elim (Bool-cases l.paused) [
        | inl k ↦ (
          none,
          with_events (take_top x xs).1 n net,
          step_front w x xs n net
              ∙ deliver-paused w _ _ l (with_events (take_top x xs).1 n net) h k,
          paused-IsCoherent x xs n l net v h k,
        )
        | inr k ↦ live-Succeeds x xs n l l.frames.items net v h k
      ]

  items-Succeeds :
      (items : List (Entry LinkEvent)) (n : ℕ) (net : Network)
      → is_runnable (with_events items n net) ≡ true
      → IsCoherent (with_events items n net)
      → Succeeds w (with_events items n net)
  unfolding is_runnable is_empty
  items-Succeeds [] n net r v = absurd (true_not_false (sym r))
  items-Succeeds (x ∷ xs) n net r v = front-Succeeds x xs n net v

  -- A step of a network that has events and whose queues agree does not fail, its checks hold, and
  -- the queues agree after it.
  pub step-IsCoherent :
      (net : Network)
      → IsCoherent net
      → is_runnable net ≡ true
      → (d : Option Delivery) × (net' : Network) × (step w net ≡ ok (d, net')) × IsCoherent net'
  step-IsCoherent net v r = items-Succeeds net.events.items net.events.inserts net r v

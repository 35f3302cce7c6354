-- ===== src/Network/Coherent.antt =====
-- Network::Step: when the queues of the links and the queue of the network agree, as its checks ("Broken net")
-- expect it.
use whirl_matrix.Base.{
  bit, count_where, ℕ, ◌+◌, ◌≤◌, ◌<◌, ◌≡◌, inl, inr, sym, ap, ◌∙◌, Bool, true, false, ◌&&◌, some,
  List, [], ◌∷◌, arith, All, Bool-cases, length, get_elem?, ◌==◌,
}
use whirl_matrix.PriorityQueue.{Entry, take_top, StrictWeak}
use whirl_matrix.PriorityQueue.Smallest.{take_top-count, take_top-least}
use whirl_matrix.Network.{FrameEvent, LinkEvent, Link, Network, frame_events, link_events}

abbrev pub at_time : ℕ → Entry FrameEvent → Bool
at_time t e = e.item.time == t

abbrev pub of_link : ℕ → ℕ → Entry LinkEvent → Bool
of_link i t e = (e.item.link == i) && (e.item.time == t)

-- Every event is of a link that is there, and a link that is not paused has as many frames for each
-- time as it has events.
pub record IsCoherent (net : Network) : Type 0 where
  pub known : All (λ (e : Entry LinkEvent). e.item.link < length net.links) net.events.items
  pub matched :
      (i : ℕ) (l : Link)
      → get_elem? net.links i ≡ some l
      → l.paused ≡ false
      → (t : ℕ)
      → count_where (at_time t) l.frames.items ≡ count_where (of_link i t) net.events.items

counted_later : (b : Bool) (n : ℕ) → b ≡ false → 1 ≤ bit b + n → 1 ≤ n
counted_later true n e k = cc
counted_later false n e k = omega arith

-- An element that a count counts.
counted :
    {A : Type 0} {Q : A → Type 0} (p : A → Bool) (l : List A)
    → All Q l
    → 1 ≤ count_where p l
    → (a : A) × (p a ≡ true) × Q a
counted p [] h k = absurd (omega arith)
counted p (x ∷ l) (hx, h) k = elim (Bool-cases (p x)) [
  | inl e ↦ (x, e, hx)
  | inr e ↦ counted p l h (counted_later (p x) (count_where p l) e k)
]

pub top_counted :
    {T : Type 0} ⦃o : StrictWeak T⦄ (p : Entry T → Bool) (x : Entry T) (xs : List (Entry T))
    → p (take_top x xs).0 ≡ true
    → 1 ≤ count_where p (x ∷ xs)
top_counted p x xs h =
    let whole : bit true + count_where p (take_top x xs).1 ≡ count_where p (x ∷ xs) =
      ap (λ b. bit b + count_where p (take_top x xs).1) (sym h) ∙ take_top-count p x xs in
    omega arith

-- The frame and the event at the front of two queues that agree are of one time.
pub same_time :
    (i : ℕ) (x : Entry LinkEvent) (xs : List (Entry LinkEvent)) (y : Entry FrameEvent)
    (ys : List (Entry FrameEvent))
    → ((t : ℕ) → count_where (at_time t) (y ∷ ys) ≡ count_where (of_link i t) (x ∷ xs))
    → (take_top x xs).0.item.link ≡ i
    → (take_top y ys).0.item.time ≡ (take_top x xs).0.item.time
same_time i x xs y ys m k =
    let e = (take_top x xs).0.item.time in
    let f = (take_top y ys).0.item.time in
    let event : of_link i e (take_top x xs).0 ≡ true = ground arith in
    let frame : at_time f (take_top y ys).0 ≡ true = ground arith in
    let (z, ze, zl) =
      counted (at_time e) (y ∷ ys) (take_top-least y ys)
        (rw (m e) (top_counted (of_link i e) x xs event)) in
    let (u, ue, ul) =
      counted (of_link i f) (x ∷ xs) (take_top-least x xs)
        (rw (sym (m f)) (top_counted (at_time f) y ys frame)) in
    ground arith

-- Both queues without their fronts.
pub fronts_leave :
    (i : ℕ) (x : Entry LinkEvent) (xs : List (Entry LinkEvent)) (y : Entry FrameEvent)
    (ys : List (Entry FrameEvent))
    → ((t : ℕ) → count_where (at_time t) (y ∷ ys) ≡ count_where (of_link i t) (x ∷ xs))
    → (take_top x xs).0.item.link ≡ i
    → (t : ℕ)
    → count_where (at_time t) (take_top y ys).1 ≡ count_where (of_link i t) (take_top x xs).1
fronts_leave i x xs y ys m k t =
    let one = same_time i x xs y ys m k in
    let front : at_time t (take_top y ys).0 ≡ of_link i t (take_top x xs).0 = ground arith in
    let bits : bit (at_time t (take_top y ys).0) ≡ bit (of_link i t (take_top x xs).0) =
      ap bit front in
    omega (arith, m t, take_top-count (at_time t) y ys, take_top-count (of_link i t) x xs)

pub other_stays :
    (i : ℕ) (x : Entry LinkEvent) (xs : List (Entry LinkEvent))
    → ((take_top x xs).0.item.link == i) ≡ false
    → (t : ℕ) → count_where (of_link i t) (take_top x xs).1 ≡ count_where (of_link i t) (x ∷ xs)
other_stays i x xs k t =
    let front : of_link i t (take_top x xs).0 ≡ false = ground arith in
    let bits : bit (of_link i t (take_top x xs).0) ≡ 0 = ap bit front in
    omega (arith, take_top-count (of_link i t) x xs)

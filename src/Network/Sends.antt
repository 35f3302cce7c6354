-- ===== src/Network/Sends.antt =====
-- Link::Add on a network whose queues agree.
use mathlib.Core.Path.{subst}
use whirl_matrix.Base.{
  some_inj, bit, count_where, ℕ, zero, suc, ◌+◌, ◌<◌, ◌≡◌, inl, inr, refl, sym, ap, ◌∙◌, ◌&&◌, some,
  List, [], ◌∷◌, arith, All, Bool-cases, length, get_elem?, get_elem?-lt, length-set, ◌==◌, ok,
}
use whirl_matrix.PriorityQueue.{Entry, insert, make_unique}
use whirl_matrix.Network.{Frame, LinkEvent, Link, Network, frame_events, link_events}
use whirl_matrix.Network.Links.{link_at, update_link, add_frame, add_link_event, log_frame}
use whirl_matrix.Network.Coherent.{IsCoherent, at_time, of_link}
use whirl_matrix.Network.Agree.{eq_of_test, set_here, set_there}

-- The network after Link::Add.
abbrev pub sent : ℕ → Frame → ℕ → Link → Network → Network
sent i frame t l net = log_frame frame (
    add_link_event i t (
      update_link i (record l { frames = insert (record { frame = frame; time = t }) l.frames })
        net))

pub add_frame-sent :
    (i : ℕ) (frame : Frame) (t : ℕ) (l : Link) (net : Network)
    → get_elem? net.links i ≡ some l
    → add_frame i frame t net ≡ ok (sent i frame t l net)
unfolding add_frame link_at
add_frame-sent i frame t l net h = rw (h, add_frame, link_at) refl

sent-IsCoherent :
    (i : ℕ) (frame : Frame) (t : ℕ) (l : Link) (net : Network)
    → IsCoherent net
    → i < length net.links
    → get_elem? net.links i ≡ some l
    → IsCoherent (sent i frame t l net)
unfolding log_frame add_link_event update_link insert make_unique
sent-IsCoherent i frame t l net v b h = record {
  known =
      subst (λ m. (i < m) × All (λ (e : Entry LinkEvent). e.item.link < m) net.events.items)
        (sym (length-set net.links i _)) (b, v.known);
  matched = λ j l' h' live u. elim (Bool-cases (i == j)) [
    | inl e ↦
        let front : i ≡ j = eq_of_test i j e in
        let same = set_here net.links i j _ b e h' in
        let before =
          v.matched j l (subst (λ k. get_elem? net.links k ≡ some l) front h)
            (ap (λ (m : Link). m.paused) (sym same) ∙ live) u in
        subst
          (λ (m : Link).
            count_where (at_time u) m.frames.items
            ≡ bit ((i == j) && (t == u)) + count_where (of_link j u) net.events.items)
          (sym same) (rw e (ap (λ c. bit (t == u) + c) before))
    | inr e ↦ v.matched j l' (set_there net.links i j _ b e h') live u ∙ rw e (omega arith)
  ];
}

-- A frame added to a link of a network whose queues agree: they agree after it.
pub add_frame-IsCoherent :
    (i : ℕ) (frame : Frame) (t : ℕ) (net : Network)
    → IsCoherent net
    → i < length net.links
    → (net' : Network) × (add_frame i frame t net ≡ ok net') × IsCoherent net'
add_frame-IsCoherent i frame t net v b =
    let (l, h) = get_elem?-lt net.links i b in
    (sent i frame t l net, add_frame-sent i frame t l net h, sent-IsCoherent i frame t l net v b h)

-- A network with links that have no frames, and without events.
pub quiet-IsCoherent :
    (net : Network)
    → net.events.items ≡ []
    → All (λ (l : Link). l.frames.items ≡ []) net.links
    → IsCoherent net
quiet-IsCoherent net h k = record {
  known = rw h tt;
  matched = λ i l hl live t. rw (h, no_frames net.links i l hl k) refl;
}
  where
    no_frames :
        (links : List Link) (i : ℕ) (l : Link)
        → get_elem? links i ≡ some l
        → All (λ (l : Link). l.frames.items ≡ []) links
        → l.frames.items ≡ []
    no_frames [] i l h k = cc
    no_frames (x ∷ xs) zero l h (kx, k) = ap (λ (m : Link). m.frames.items) (sym (some_inj h)) ∙ kx
    no_frames (x ∷ xs) (suc i) l h (kx, k) = no_frames xs i l h k

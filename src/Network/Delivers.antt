-- ===== src/Network/Delivers.antt =====
-- Network::Step: the delivery of the first frame of a link.
use whirl_matrix.Base.{
  ℕ, ◌≡◌, refl, true, false, Option, none, some, List, ◌∷◌, arith, get_elem?, ◌==◌, ok,
}
use whirl_matrix.PriorityQueue.{Entry, extract, take_top, is_empty, smallest}
use whirl_matrix.Digest.{Hashes}
use whirl_matrix.Network.{FrameEvent, LinkEvent, Link, Network, frame_events, link_events}
use whirl_matrix.Network.Links.{
  link_at, update_link, has_frames, next_frame_time, extract_next_frame,
}
use whirl_matrix.Network.Steps.{Delivery, step, deliver, digest_packet, is_at}
use whirl_matrix.Network.Coherent.{IsCoherent}

-- The network with other events.
abbrev pub with_events : List (Entry LinkEvent) → ℕ → Network → Network
with_events items inserts net = record net { events = record { items = items; inserts = inserts } }

-- The link with other frames.
abbrev pub with_frames : List (Entry FrameEvent) → Link → Link
with_frames items l = record l { frames = record { items = items; inserts = l.frames.inserts } }

module _ (w : Hashes) where
  abbrev pub Succeeds : Network → Type 0
  Succeeds net =
      (d : Option Delivery) × (net' : Network) × (step w net ≡ ok (d, net')) × IsCoherent net'

  pub step_front :
      (x : Entry LinkEvent) (xs : List (Entry LinkEvent)) (n : ℕ) (net : Network)
      → step w (with_events (x ∷ xs) n net)
        ≡ deliver w
            (take_top x xs).0.item.link
            (take_top x xs).0.item.time
            (with_events (take_top x xs).1 n net)
  unfolding step extract
  step_front x xs n net = refl

  pub deliver-paused :
      (i t : ℕ) (l : Link) (net : Network)
      → get_elem? net.links i ≡ some l
      → l.paused ≡ true
      → deliver w i t net ≡ ok (none, net)
  unfolding deliver link_at
  deliver-paused i t l net h k = rw (h, deliver, link_at) (rw k refl)

  -- What a link that is not paused delivers.
  abbrev pub delivered : ℕ → Link → Entry FrameEvent → List (Entry FrameEvent) → Network → Network
  delivered i l y ys net = record (update_link i (with_frames (take_top y ys).1 l) net) {
    digest = digest_packet w net.digest (take_top y ys).0.item.frame.packet;
  }

  pub deliver-live :
      (i t : ℕ) (l : Link) (y : Entry FrameEvent) (ys : List (Entry FrameEvent)) (net : Network)
      → get_elem? net.links i ≡ some (with_frames (y ∷ ys) l)
      → l.paused ≡ false
      → (take_top y ys).0.item.time ≡ t
      → deliver w i t net
        ≡ ok (
          some (record {
            packet = (take_top y ys).0.item.frame.packet;
            receiver = l.end;
            back = l.opposite;
          }),
          delivered i l y ys net,
        )
  unfolding deliver link_at has_frames next_frame_time extract_next_frame is_at extract smallest
      is_empty
  deliver-live i t l y ys net h k e =
      let now : ((take_top y ys).0.item.time == t) ≡ true = ground arith in
      rw (h, deliver, link_at) (rw k (rw now refl))

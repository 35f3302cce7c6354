-- ===== src/World/System/Traffic.antt =====
-- The events of the network, and the time.
use whirl_matrix.Base.{
  ℕ, zero, suc, ◌+◌, ◌%◌, ◌^◌, ◌<◌, ◌≤◌, ◌≡◌, refl, false, not, Option, some, List, [], ◌∷◌, arith,
  All, All-map, ltb, Outcome, ok, panic, verify, ◌>>=◌, ◌>>◌, Ensures, >>=-Ensures, bind-Ensures,
  Option-Ensures, Bool-Ensures, ◌↔◌,
}
use whirl_matrix.PriorityQueue.{Entry, take_top, smallest, extract, insert, make_unique, is_empty}
use whirl_matrix.PriorityQueue.Sorting.{take_top-All}
use whirl_matrix.PriorityQueue.Smallest.{take_top-least}
use whirl_matrix.Digest.{Hashes}
use whirl_matrix.Network.{Network, Link, LinkEvent, Frame, Packet, link_events, frame_events}
use whirl_matrix.Network.Links.{
  link_at, update_link, add_link_event, log_frame, add_frame, make_frame, add_packet,
  choose_delivery_time, pause, resume, resend, has_frames, extract_next_frame, next_frame_time,
}
use whirl_matrix.Network.Steps
use whirl_matrix.World.System.{network_time}
use whirl_matrix.Network.Steps.{deliver, step, is_at, Delivery, next_step_time}

-- No event of the network is before `now`.
abbrev pub IsAhead : ℕ → Network → Type 0
IsAhead now net = All (λ (e : Entry LinkEvent). now ≤ e.item.time) net.events.items

added :
    (now i : ℕ) (frame : Frame) (t : ℕ) (link : Outcome Link) (net : Network)
    → now ≤ t
    → IsAhead now net
    → Ensures (IsAhead now) (
        link >>= λ l. ok (
          log_frame frame (
            add_link_event i t (
              update_link i
                (record l { frames = insert (record { frame = frame; time = t }) l.frames })
                net))))
unfolding log_frame add_link_event update_link insert make_unique
added now i frame t (ok l) net h k = (h, k)
added now i frame t panic net h k = tt

pub add_frame-IsAhead :
    (now i : ℕ) (frame : Frame) (t : ℕ) (net : Network)
    → now ≤ t
    → IsAhead now net
    → Ensures (IsAhead now) (add_frame i frame t net)
unfolding add_frame
add_frame-IsAhead now i frame t net h k = added now i frame t (link_at i net) net h k

pub add_packet-IsAhead :
    (i : ℕ) (packet : Packet) (now flight_time : ℕ) (net : Network)
    → now + flight_time < 2 ^ 64
    → IsAhead now net
    → Ensures (IsAhead now) (add_packet i packet now flight_time net)
unfolding add_packet choose_delivery_time
add_packet-IsAhead i packet now flight_time net w h =
    bind-Ensures (IsAhead now) (link_at i net) _ λ l.
      bind-Ensures (IsAhead now) (make_frame packet now l net) _
        λ f. add_frame-IsAhead now i f ((now + flight_time) % 2 ^ 64) net (omega arith) h

pub pause-IsAhead :
    (now i : ℕ) (net : Network) → IsAhead now net → Ensures (IsAhead now) (pause i net)
unfolding pause update_link
pause-IsAhead now i net h =
    bind-Ensures (IsAhead now) (link_at i net) _
      λ l. bind-Ensures (IsAhead now) (verify (not l.paused)) _ λ u. h

resend-IsAhead :
    (fuel i now : ℕ) (net : Network)
    → now + 1 < 2 ^ 64
    → IsAhead now net
    → Ensures (IsAhead now) (resend fuel i now net)
unfolding resend update_link
resend-IsAhead zero i now net w h = tt
resend-IsAhead (suc fuel) i now net w h = bind-Ensures (IsAhead now) (link_at i net) _ λ l.
    Option-Ensures (IsAhead now) (extract l.frames) _ _ tt λ r _.
      Bool-Ensures (IsAhead now) (ltb r.0.time now) _ _
        (>>=-Ensures (IsAhead now) (IsAhead now) _ _
          (add_frame-IsAhead now i r.0.frame ((now + 1) % 2 ^ 64)
            (update_link i (record l { frames = r.1 }) net) (omega arith) h)
          (λ net' h'. resend-IsAhead fuel i now net' w h'))
        h

pub resume-IsAhead :
    (i now : ℕ) (net : Network)
    → now + 1 < 2 ^ 64
    → IsAhead now net
    → Ensures (IsAhead now) (resume i now net)
unfolding resume update_link
resume-IsAhead i now net w h = bind-Ensures (IsAhead now) (link_at i net) _ λ l.
    Bool-Ensures (IsAhead now) l.paused _ _
      (Bool-Ensures (IsAhead now) (has_frames l) _ _ (resend-IsAhead _ i now _ w h) h) h

deliver-IsAhead :
    (w : Hashes) (now i t : ℕ) (net : Network)
    → IsAhead now net
    → Ensures (λ (r : Option Delivery × Network). IsAhead now r.1) (deliver w i t net)
unfolding deliver update_link
deliver-IsAhead w now i t net h =
    bind-Ensures (λ (r : Option Delivery × Network). IsAhead now r.1) (link_at i net) _
      λ l.
        Bool-Ensures (λ (r : Option Delivery × Network). IsAhead now r.1) l.paused _ _ h
          (bind-Ensures (λ (r : Option Delivery × Network). IsAhead now r.1)
            (verify (has_frames l) >> verify (is_at (next_frame_time l) t) >> extract_next_frame l)
            _ λ out. h)

stepped :
    (w : Hashes) (now : ℕ) (l : List (Entry LinkEvent)) (n : ℕ) (net : Network)
    → All (λ (e : Entry LinkEvent). now ≤ e.item.time) l
    → Ensures
        (λ (r : Option Delivery × Network). IsAhead now r.1)
        (step w (record net { events = record { items = l; inserts = n } }))
unfolding step extract
stepped w now [] n net h = tt
stepped w now (x ∷ xs) n net (hx, h) =
    deliver-IsAhead w now (take_top x xs).0.item.link (take_top x xs).0.item.time
      (record net { events = record { items = (take_top x xs).1; inserts = n } })
      (take_top-All (λ (z : Entry LinkEvent). now ≤ z.item.time) x xs hx h).1

pub step-IsAhead :
    (w : Hashes) (now : ℕ) (net : Network)
    → IsAhead now net
    → Ensures (λ (r : Option Delivery × Network). IsAhead now r.1) (step w net)
step-IsAhead w now net h = stepped w now net.events.items net.events.inserts net h

earliest :
    (t : ℕ) (l : List (Entry LinkEvent)) (n : ℕ) (net : Network)
    → ((u : ℕ)
        → next_step_time (record net { events = record { items = l; inserts = n } }) ≡ some u
        → t ≤ u)
    → All (λ (e : Entry LinkEvent). t ≤ e.item.time) l
unfolding next_step_time smallest
earliest t [] n net h = tt
earliest t (x ∷ xs) n net h =
    let first : t ≤ (take_top x xs).0.item.time = h _ refl in
    All-map (λ (z : Entry LinkEvent). ltb z.item.time (take_top x xs).0.item.time ≡ false) _
      (x ∷ xs) (λ z k. ground arith) (take_top-least x xs)

pub next_time-IsAhead :
    (t : ℕ) (net : Network) → ((u : ℕ) → next_step_time net ≡ some u → t ≤ u) → IsAhead t net
next_time-IsAhead t net h = earliest t net.events.items net.events.inserts net h

next_event :
    (now : ℕ) (l : List (Entry LinkEvent)) (n u : ℕ) (net : Network)
    → All (λ (e : Entry LinkEvent). now ≤ e.item.time) l
    → next_step_time (record net { events = record { items = l; inserts = n } }) ≡ some u
    → now ≤ u
unfolding next_step_time smallest
next_event now [] n u net h e = cc
next_event now (x ∷ xs) n u net (hx, h) e =
    let first = (take_top-All (λ (z : Entry LinkEvent). now ≤ z.item.time) x xs hx h).0 in
    ground arith

pub IsAhead-next_time :
    (now : ℕ) (net : Network) (u : ℕ) → IsAhead now net → next_step_time net ≡ some u → now ≤ u
IsAhead-next_time now net u h e = next_event now net.events.items net.events.inserts u net h e

event_time :
    (l : List (Entry LinkEvent)) (n u : ℕ) (net : Network)
    → (network_time (record net { events = record { items = l; inserts = n } }) ≡ some u)
      ↔ (next_step_time (record net { events = record { items = l; inserts = n } }) ≡ some u)
unfolding network_time Steps.is_runnable is_empty next_step_time smallest
event_time [] n u net = ((λ e. e), (λ e. e))
event_time (x ∷ l) n u net = ((λ e. e), (λ e. e))

pub network_time-IsAhead :
    (t : ℕ) (net : Network) → ((u : ℕ) → network_time net ≡ some u → t ≤ u) → IsAhead t net
network_time-IsAhead t net h =
    next_time-IsAhead t net λ u e. h u ((event_time net.events.items net.events.inserts u net).1 e)

pub IsAhead-network_time :
    (now : ℕ) (net : Network) (u : ℕ) → IsAhead now net → network_time net ≡ some u → now ≤ u
IsAhead-network_time now net u h e =
    IsAhead-next_time now net u h ((event_time net.events.items net.events.inserts u net).0 e)

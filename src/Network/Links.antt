-- ===== src/Network/Links.antt =====
-- matrix/network/link.cpp, and the links of matrix/network/network.cpp. A link is named by its index
-- in `links`; what it does changes itself, the events and the log of the network.
use Prim.Native.String.{String}
use whirl_matrix.Base.{
  ℕ, zero, suc, ◌+◌, ◌%◌, ◌^◌, Bool, true, false, not, Option, none, some, [], ◌∷◌, ◌++◌, ltb,
  get_elem?, set, Outcome, ok, panic, ◌>>=◌, ◌>>◌, verify,
}
use whirl_matrix.PriorityQueue
use whirl_matrix.PriorityQueue.{PriorityQueue}
use whirl_matrix.Network.{Packet, Frame, Link, Network, frame_events, link_events}

unfoldable pub new_link : ℕ → ℕ → Link
unfolding PriorityQueue.empty
new_link start end = record {
  start = start;
  end = end;
  frames = PriorityQueue.empty;
  paused = false;
  opposite = none;
}

-- A link or a server that is not there is no address.
unfoldable pub link_at : ℕ → Network → Outcome Link
link_at i net = elim (get_elem? net.links i) [ none ↦ panic | some l ↦ ok l ]

unfoldable pub host_name : ℕ → Network → Outcome String
host_name i net = elim (get_elem? net.servers i) [ none ↦ panic | some h ↦ ok h ]

unfoldable pub update_link : ℕ → Link → Network → Network
update_link i link net = record net { links = set net.links i link }

unfoldable pub add_link_event : ℕ → ℕ → Network → Network
unfolding PriorityQueue.insert
add_link_event link t net = record net {
  events = PriorityQueue.insert (record { time = t; link = link }) net.events;
}

unfoldable pub log_frame : Frame → Network → Network
log_frame frame net = record net { frames_log = net.frames_log ++ frame ∷ [] }

-- Link::Add(Frame, TimePoint)
unfoldable pub add_frame : ℕ → Frame → ℕ → Network → Outcome Network
unfolding link_at update_link add_link_event log_frame PriorityQueue.insert
add_frame i frame delivery_time net = link_at i net >>= λ link.
    let frames =
      PriorityQueue.insert (record { frame = frame; time = delivery_time }) link.frames in
    ok (
      log_frame frame
        (add_link_event i delivery_time (update_link i (record link { frames = frames }) net)))

unfoldable pub make_frame : Packet → ℕ → Link → Network → Outcome Frame
unfolding host_name
make_frame packet now link net = host_name link.start net >>= λ from.
    host_name link.end net >>= λ to. ok (record {
      header = record { source_host = from; dest_host = to; send_time = now };
      packet = packet;
    })

unfoldable pub choose_delivery_time : ℕ → ℕ → ℕ
choose_delivery_time now flight_time = (now + flight_time) % 2 ^ 64

-- Link::Add(Packet)
unfoldable pub add_packet : ℕ → Packet → ℕ → ℕ → Network → Outcome Network
unfolding link_at make_frame choose_delivery_time add_frame
add_packet i packet now flight_time net = link_at i net >>= λ link.
    make_frame packet now link net >>= λ frame.
    add_frame i frame (choose_delivery_time now flight_time) net

unfoldable pub has_frames : Link → Bool
unfolding PriorityQueue.is_empty
has_frames link = not (PriorityQueue.is_empty link.frames)

unfoldable pub next_frame_time : Link → Option ℕ
unfolding PriorityQueue.smallest
next_frame_time link = elim (PriorityQueue.smallest link.frames) [
  | none ↦ none
  | some e ↦ some e.time
]

unfoldable pub extract_next_frame : Link → Outcome (Frame × Link)
unfolding PriorityQueue.extract
extract_next_frame link = verify (not link.paused) >> elim (PriorityQueue.extract link.frames) [
  | none ↦ panic
  | some (e, frames) ↦ ok (e.frame, record link { frames = frames })
]

unfoldable pub shutdown_link : Link → Link
unfolding PriorityQueue.clear
shutdown_link link = record link { frames = PriorityQueue.clear link.frames }

unfoldable pub pause : ℕ → Network → Outcome Network
unfolding link_at update_link
pause i net = link_at i net >>= λ link.
    verify (not link.paused) >> ok (update_link i (record link { paused = true }) net)

-- The frames that a pause has held back, each sent again for `now + 1` in 64 bits. The loop looks at the
-- smallest frame even when there is none left, which does not happen: the last frame sent again
-- stays. On fuel: each turn sends one of them again. At the last time, where `now + 1` is 0, the loop of the
-- source does not end.
unfoldable pub resend : ℕ → ℕ → ℕ → Network → Outcome Network
unfolding link_at update_link add_frame PriorityQueue.extract PriorityQueue.smallest
resend zero i now net = panic
resend (suc fuel) i now net = link_at i net >>= λ link. elim (PriorityQueue.extract link.frames) [
  | none ↦ panic
  | some (e, frames) ↦ elim (ltb e.time now) [
    | true ↦
        add_frame i e.frame ((now + 1) % 2 ^ 64)
          (update_link i (record link { frames = frames }) net)
        >>= λ net'. resend fuel i now net'
    | false ↦ ok net
  ]
]

unfoldable pub resume : ℕ → ℕ → Network → Outcome Network
unfolding link_at update_link resend has_frames PriorityQueue.size
resume i now net = link_at i net >>= λ link. elim link.paused [
  | false ↦ ok net
  | true ↦
      let net' = update_link i (record link { paused = false }) net in
      elim (has_frames link) [
        | true ↦ resend (PriorityQueue.size link.frames + 1) i now net'
        | false ↦ ok net'
      ]
]

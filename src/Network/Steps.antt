-- ===== src/Network/Steps.antt =====
-- matrix/network/network.cpp: the network as an actor of the simulation. A step gives the packet to
-- hand to the server at the end of the link, with the link for the replies.
use Prim.Native.String.{String, len}
use text.Mathlib.Text.{◌==◌ as str_eq}
use whirl_matrix.Base.{
  ℕ, zero, suc, ◌+◌, ◌*◌, Bool, true, false, not, Option, none, some, List, [], ◌∷◌, ◌++◌, map,
  ◌==◌, length, get_elem?, set, Outcome, ok, panic, ◌>>=◌, ◌>>◌, verify, if◌then◌else◌,
}
use whirl_matrix.PriorityQueue
use whirl_matrix.PriorityQueue.{PriorityQueue}
use whirl_matrix.Digest.{Hashes, new_digest, eat_number}
use whirl_matrix.Network.{Packet, Link, Network, link_events}
use whirl_matrix.Network.Links.{
  new_link, link_at, update_link, has_frames, next_frame_time, extract_next_frame, shutdown_link,
}

unfoldable pub add_server : String → Network → Network
add_server server net = record net { servers = net.servers ++ server ∷ [] }

-- `count` numbers from `i` on.
abbrev pub range : ℕ → ℕ → List ℕ
range i zero = []
range i (suc count) = i ∷ range (i + 1) count

unfoldable pub get_link_index : ℕ → ℕ → ℕ → ℕ
get_link_index i j servers = i * servers + j

-- A link from `i` to each server, and these for each `i`.
unfoldable pub links_from : ℕ → ℕ → List Link
unfolding new_link
links_from n i = map (new_link i) (range 0 n)

unfoldable pub all_links : ℕ → List ℕ → List Link
unfolding links_from
all_links n [] = []
all_links n (i ∷ is) = links_from n i ++ all_links n is

unfoldable pub set_opposite : ℕ → ℕ → List Link → List Link
set_opposite i opposite links = elim (get_elem? links i) [
  | none ↦ links
  | some l ↦ set links i (record l { opposite = some opposite })
]

unfoldable pub link_pairs : ℕ → ℕ → List ℕ → List Link → List Link
unfolding set_opposite get_link_index
link_pairs n i [] links = links
link_pairs n i (j ∷ js) links =
    let ij = get_link_index i j n in
    let ji = get_link_index j i n in
    link_pairs n i js (set_opposite ji ij (set_opposite ij ji links))

unfoldable pub link_opposites : ℕ → ℕ → ℕ → List Link → List Link
unfolding link_pairs
link_opposites n i zero links = links
link_opposites n i (suc count) links =
    link_opposites n (i + 1) count (link_pairs n i (range i (suc count)) links)

-- BuildLinks, and Start.
unfoldable pub build_links : Network → Network
unfolding all_links link_opposites
build_links net =
    let n = length net.servers in
    record net { links = link_opposites n 0 n (net.links ++ all_links n (range 0 n)) }

unfoldable pub index_from : ℕ → String → List String → Outcome ℕ
index_from i hostname [] = panic
index_from i hostname (server ∷ servers) =
    let rest = index_from (i + 1) hostname servers in if str_eq hostname server then ok i else rest

unfoldable pub server_to_index : String → Network → Outcome ℕ
unfolding index_from
server_to_index hostname net = index_from 0 hostname net.servers

unfoldable pub get_link : String → String → Network → Outcome ℕ
unfolding server_to_index get_link_index link_at
get_link start end net = server_to_index start net >>= λ i. server_to_index end net >>= λ j.
    link_at (get_link_index i j (length net.servers)) net >>= λ link.
    ok (get_link_index i j (length net.servers))

unfoldable pub is_runnable : Network → Bool
unfolding PriorityQueue.is_empty
is_runnable net = not (PriorityQueue.is_empty net.events)

unfoldable pub next_step_time : Network → Option ℕ
unfolding PriorityQueue.smallest
next_step_time net = elim (PriorityQueue.smallest net.events) [ none ↦ none | some e ↦ some e.time ]

unfoldable pub is_at : Option ℕ → ℕ → Bool
is_at none t = false
is_at (some u) t = u == t

-- The packet delivered, the server that receives it and its link back.
pub record Delivery : Type 0 where
  pub packet : Packet
  pub receiver : ℕ
  pub back : Option ℕ

module _ (w : Hashes) where
  unfoldable pub new_network : Network
  unfolding PriorityQueue.empty
  new_network = record {
    servers = [];
    links = [];
    events = PriorityQueue.empty;
    frames_log = [];
    digest = new_digest w;
  }

  unfoldable pub digest_packet : ℕ → Packet → ℕ
  unfolding eat_number
  digest_packet digest packet =
      eat_number w
        (eat_number w (eat_number w digest packet.header.source_port) packet.header.dest_port)
        (len packet.message)

  unfoldable pub deliver : ℕ → ℕ → Network → Outcome (Option Delivery × Network)
  unfolding link_at has_frames next_frame_time is_at extract_next_frame update_link digest_packet
  deliver i time net = link_at i net >>= λ link. elim link.paused [
    | true ↦ ok (none, net)
    | false ↦
        verify (has_frames link)
        >> verify (is_at (next_frame_time link) time)
        >> extract_next_frame link
        >>= λ out.
            let packet = out.0.packet in
            ok (
              some (record { packet = packet; receiver = link.end; back = link.opposite }),
              record (update_link i out.1 net) { digest = digest_packet net.digest packet },
            )
  ]

  unfoldable pub step : Network → Outcome (Option Delivery × Network)
  unfolding deliver PriorityQueue.extract
  step net = elim (PriorityQueue.extract net.events) [
    | none ↦ panic
    | some (event, events) ↦ deliver event.link event.time (record net { events = events })
  ]

unfoldable pub shutdown : Network → Network
unfolding shutdown_link PriorityQueue.clear
shutdown net = record net {
  events = PriorityQueue.clear net.events;
  links = map shutdown_link net.links;
}

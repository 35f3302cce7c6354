-- ===== src/Tests/Packets.antt =====
-- A request and its reply, a packet for an earlier life, and a descriptor that is closed.
use whirl_matrix.Base.{
  true, get_elem?, some, ℕ, ◌≡◌, refl, false, none, [], ◌∷◌, arith, ok, panic, take, if◌then◌else◌,
  ◌==◌,
}
use whirl_matrix.Network.{Packet, Network, Link, data_packet}
use whirl_matrix.Network.Steps.{build_links, get_link_index}
use whirl_matrix.Network.Topology.{build_links_lem}
use whirl_matrix.Network.Links.{add_packet, link_at, host_name}
use whirl_matrix.Transport.{
  ClientSocket, ReplySocket, Transport, message, schedule_task, reply_socket, handle_packet,
  send_request, send_reply, peer, remove_endpoint,
}
use whirl_matrix.Transport.Delivery.{Delivers, request-reply, handle_packet-Delivers}
use whirl_matrix.Runtime.Sockets
use whirl_matrix.Runtime.Sockets.{NetTransportSocket, handle_disconnect}
use whirl_matrix.Runtime.Sockets.Closed.{IsShut, close-IsShut}
use whirl_matrix.Fs.{FileSystem, read, close, reset, get_opened_file}
use whirl_matrix.Fs.Table.{find_fd}
use whirl_matrix.Fs.Contents.{Reader}
use whirl_matrix.Fs.Errors.{Refused, closed-Refused}

abbrev a_network : Network
a_network = record {
  servers = "Client-1" ∷ "Server-1" ∷ [];
  links =
      record {
        start = 0;
        end = 1;
        frames = record { items = []; inserts = 0 };
        paused = false;
        opposite = none;
      }
      ∷ [];
  events = record { items = []; inserts = 0 };
  frames_log = [];
  digest = 0;
}

abbrev at_port : ℕ → ℕ → ℕ → Transport
at_port port handler ts = record {
  host = "Server-1";
  endpoints = (port, record { handler = handler; ts = ts }) ∷ [];
  next_port = 1;
  scheduler = record { items = []; inserts = 0 };
}

abbrev a_socket : ClientSocket
a_socket = record { link = 0; self_port = 1; server_port = 42; ts = 7 }

request-reply_example :
    (request response : Packet) × (s : ReplySocket) × ((at flight : ℕ) (n : Network)
      → send_request a_socket "ping" at flight n ≡ add_packet 0 request at flight n)
    × (handle_packet request 0 20 5 (at_port 42 3 2) a_network
        ≡ ok (schedule_task (message 3 "ping" s) 20 (at_port 42 3 2), a_network))
    × ((at flight : ℕ) (n : Network)
        → send_reply s "pong" at flight n ≡ add_packet 0 response at flight n)
    × (handle_packet response 0 30 5 (at_port 1 8 7) a_network
        ≡ ok (
          schedule_task (message 8 "pong" (reply_socket response.header 0)) 30 (at_port 1 8 7),
          a_network,
        ))
unfolding find_fd peer link_at host_name
request-reply_example =
    request-reply a_socket (at_port 1 8 7) (at_port 42 3 2) (record { handler = 8; ts = 7 })
      (record { handler = 3; ts = 2 }) 0 0 20 30 5 5 a_network a_network "Server-1" "Server-1"
      "ping" "pong" refl (omega arith) refl (omega arith) refl refl

abbrev pub old_packet : Packet
old_packet = record {
  header = record { type = data_packet; source_port = 1; dest_port = 42; ts = 1 };
  message = "old";
}

handle_packet-Delivers_example :
    Delivers old_packet 0 20
      (at_port 42 3 2)
      (handle_packet old_packet 0 20 5 (at_port 42 3 2) a_network)
handle_packet-Delivers_example = handle_packet-Delivers old_packet 0 20 5 (at_port 42 3 2) a_network

abbrev a_reader : Reader
a_reader = record { read = λ view size. take size view; read_lem = λ view size. refl }

abbrev one_open : FileSystem
one_open = record {
  objects = record { bytes = 7 ∷ 8 ∷ [] } ∷ [];
  files = ("a", 0) ∷ [];
  opened_files = (1, record { fd = 1; path = "a"; mode = read; offset = 0; file = 0 }) ∷ [];
  next_fd = 1;
}

closed-Refused_example :
    (fs' : FileSystem) × (close 1 one_open ≡ ok fs')
    × Refused a_reader 1 4 (9 ∷ []) fs'
    × (get_opened_file 2 fs' ≡ (if 1 == 2 then panic else get_opened_file 2 one_open))
    × Refused a_reader 2 4 (9 ∷ []) (reset one_open)
unfolding find_fd
closed-Refused_example =
    closed-Refused a_reader 1 2 4 (9 ∷ []) one_open
      (record { fd = 1; path = "a"; mode = read; offset = 0; file = 0 }) refl

abbrev unlinked : Network
unlinked = record a_network { links = [] }

build_links_lem_example :
    (link : Link) × (get_elem? (build_links unlinked).links (get_link_index 1 0 2) ≡ some link)
    × (link.start ≡ 1)
    × (link.end ≡ 0)
    × (link.opposite ≡ some (get_link_index 0 1 2))
    × (link.paused ≡ false)
    × (link.frames.items ≡ [])
build_links_lem_example = build_links_lem unlinked 1 0 refl (omega arith) (omega arith)

abbrev connected : NetTransportSocket
connected = record { socket = some a_socket; handler = 5 }

close-IsShut_example :
    IsShut a_socket (at_port 1 8 7) (Sockets.close connected (at_port 1 8 7))
    × IsShut a_socket
        (at_port 1 8 7)
        (record connected { socket = none }, remove_endpoint 1 (at_port 1 8 7))
unfolding Sockets.close handle_disconnect
close-IsShut_example = close-IsShut true connected a_socket (at_port 1 8 7) "Server-1" refl

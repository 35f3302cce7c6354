-- ===== src/Transport.antt =====
-- matrix/network/transport.cpp and socket.cpp: the transport of a server, its endpoints and its
-- sockets. A handler is a number. Ports are unsigned 16-bit numbers. What the transport schedules on
-- the server's queue is a value of `Task`.
pub mod Ports
pub mod Delivery
use Prim.Native.String.{String}
use whirl_matrix.Base.{
  ℕ, zero, suc, ◌+◌, ◌%◌, ◌^◌, Bool, true, false, not, Option, none, some, List, [], ◌∷◌, ltb, ◌==◌,
  Outcome, ok, panic, ◌>>=◌, ◌>>◌, verify, if◌then◌else◌,
}
use whirl_matrix.PriorityQueue.{PriorityQueue}
use whirl_matrix.Scheduler.{ScheduledTask, schedule_asap}
use whirl_matrix.Fs.Table.{find_fd, erase_fd}
use whirl_matrix.Network.{
  PacketType, data_packet, reset_packet, ping_packet, Header, Packet, Network,
}
use whirl_matrix.Network.Links.{add_packet, link_at, host_name}
use whirl_matrix.Network.Steps.{get_link}

pub record Endpoint : Type 0 where
  pub handler : ℕ
  pub ts : ℕ

pub record ReplySocket : Type 0 where
  pub link : ℕ
  pub self_port : ℕ
  pub peer_port : ℕ
  pub ts : ℕ

pub record ClientSocket : Type 0 where
  pub link : ℕ
  pub self_port : ℕ
  pub server_port : ℕ
  pub ts : ℕ

-- A task of the scheduler: what the transport makes, and the closures of the user's program.
pub data Task : Type 0 where
  closure : ℕ → Task
  disconnect : ℕ → String → Task
  message : ℕ → String → ReplySocket → Task

pub record Transport : Type 0 where
  pub host : String
  pub endpoints : List (ℕ × Endpoint)
  pub next_port : ℕ
  pub scheduler : PriorityQueue (ScheduledTask Task)

-- `endpoints_.count(port) != 0`
unfoldable pub in_use : ℕ → List (ℕ × Endpoint) → Bool
unfolding find_fd
in_use port endpoints = elim (find_fd port endpoints) [ none ↦ false | some e ↦ true ]

abbrev pub next_of : ℕ → ℕ
next_of port = (port + 1) % 2 ^ 16

-- The loop over the ports, on fuel: `none` when none of that many ports is free.
unfoldable pub scan_ports : ℕ → ℕ → List (ℕ × Endpoint) → Option (ℕ × ℕ)
unfolding in_use
scan_ports zero port endpoints = none
scan_ports (suc fuel) port endpoints = elim (in_use port endpoints) [
  | false ↦ some (port, next_of port)
  | true ↦ scan_ports fuel (next_of port) endpoints
]

-- The port found, and the one from which the next search begins. With no free port the source
-- does not end.
unfoldable pub find_free_port : Transport → Option (ℕ × Transport)
unfolding scan_ports
find_free_port t = elim (scan_ports (2 ^ 16) t.next_port t.endpoints) [
  | none ↦ none
  | some (port, next) ↦ some (port, record t { next_port = next })
]

unfoldable pub emplace : ℕ → Endpoint → Transport → Transport
emplace port endpoint t = record t { endpoints = (port, endpoint) ∷ t.endpoints }

-- ConnectTo: the socket, the transport and the network; `ts` is the new timestamp. The ping is sent
-- where there is an adversary.
unfoldable pub connect_to :
    Bool
    → String
    → ℕ
    → ℕ
    → ℕ
    → ℕ
    → ℕ
    → Transport
    → Network
    → Outcome (ClientSocket × Transport × Network)
unfolding get_link find_free_port emplace add_packet
connect_to adversary host port handler ts now flight_time t net =
    get_link t.host host net >>= λ link. elim (find_free_port t) [
      | none ↦ panic
      | some (self, t') ↦
          let socket : ClientSocket = record {
            link = link;
            self_port = self;
            server_port = port;
            ts = ts;
          } in
          let t'' = emplace self (record { handler = handler; ts = ts }) t' in
          let ping : Packet = record {
            header = record { type = ping_packet; source_port = self; dest_port = port; ts = ts };
            message = "<ping>";
          } in
          elim adversary [
            | true ↦ add_packet link ping now flight_time net >>= λ net'. ok (socket, t'', net')
            | false ↦ ok (socket, t'', net)
          ]
    ]

unfoldable pub serve : ℕ → ℕ → ℕ → Transport → Outcome Transport
unfolding in_use emplace
serve port handler ts t =
    verify (not (in_use port t.endpoints))
    >> ok (emplace port (record { handler = handler; ts = ts }) t)

-- Also what the destructors and `Close` of the client and server sockets do.
unfoldable pub remove_endpoint : ℕ → Transport → Transport
unfolding erase_fd
remove_endpoint port t = record t { endpoints = erase_fd port t.endpoints }

unfoldable pub reset : Transport → Transport
reset t = record t { endpoints = [] }

-- Replier::Reply
unfoldable pub reply : PacketType → String → Packet → Packet
reply type payload packet = record {
  header = record {
    type = type;
    source_port = packet.header.dest_port;
    dest_port = packet.header.source_port;
    ts = packet.header.ts;
  };
  message = payload;
}

unfoldable pub is_reset : PacketType → Bool
is_reset reset_packet = true
is_reset _ = false

unfoldable pub reply_socket : Header → ℕ → ReplySocket
reply_socket incoming out = record {
  link = out;
  self_port = incoming.dest_port;
  peer_port = incoming.source_port;
  ts = incoming.ts;
}

unfoldable pub send_reply : ReplySocket → String → ℕ → ℕ → Network → Outcome Network
unfolding add_packet
send_reply socket payload now flight_time net =
    add_packet socket.link
      (record {
        header = record {
          type = data_packet;
          source_port = socket.self_port;
          dest_port = socket.peer_port;
          ts = socket.ts;
        };
        message = payload;
      })
      now flight_time net

unfoldable pub send_request : ClientSocket → String → ℕ → ℕ → Network → Outcome Network
unfolding add_packet
send_request socket payload now flight_time net =
    add_packet socket.link
      (record {
        header = record {
          type = data_packet;
          source_port = socket.self_port;
          dest_port = socket.server_port;
          ts = socket.ts;
        };
        message = payload;
      })
      now flight_time net

unfoldable pub peer : ℕ → Network → Outcome String
unfolding link_at host_name
peer link net = link_at link net >>= λ l. host_name l.end net

unfoldable pub schedule_task : Task → ℕ → Transport → Transport
unfolding schedule_asap
schedule_task task now t = record t { scheduler = schedule_asap now task t.scheduler }

-- An endpoint that is there, and a packet that is not older.
unfoldable pub handle_endpoint :
    Packet → ℕ → Endpoint → String → ℕ → ℕ → Transport → Network → Outcome (Transport × Network)
unfolding reply reply_socket schedule_task add_packet
handle_endpoint packet out endpoint from now flight_time t net = elim packet.header.type [
  | ping_packet ↦
      add_packet out (reply ping_packet "<ping>" packet) now flight_time net >>= λ n. ok (t, n)
  | reset_packet ↦ ok (schedule_task (disconnect endpoint.handler from) now t, net)
  | data_packet ↦ ok (
    schedule_task (message endpoint.handler packet.message (reply_socket packet.header out)) now t,
    net,
  )
]

unfoldable pub handle_packet :
    Packet → ℕ → ℕ → ℕ → Transport → Network → Outcome (Transport × Network)
unfolding find_fd is_reset reply add_packet handle_endpoint peer
handle_packet packet out now flight_time t net = peer out net >>= λ from.
    elim (find_fd packet.header.dest_port t.endpoints) [
      | none ↦ elim (is_reset packet.header.type) [
        | true ↦ ok (t, net)
        | false ↦ add_packet out (reply reset_packet "<reset>" packet) now flight_time net >>= λ n.
            ok (t, n)
      ]
      | some endpoint ↦ elim (ltb packet.header.ts endpoint.ts) [
        | true ↦ add_packet out (reply reset_packet "<reset>" packet) now flight_time net >>= λ n.
            ok (t, n)
        | false ↦ handle_endpoint packet out endpoint from now flight_time t net
      ]
    ]

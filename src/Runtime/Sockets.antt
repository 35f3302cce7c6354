-- ===== src/Runtime/Sockets.antt =====
-- matrix/server/runtime/net_transport.hpp and transport.cpp: the sockets that a program gets. A handler of the program
-- is a weak pointer: a number, and whether its object is still there.
pub mod Closed
use Prim.Native.String.{String}
use whirl_matrix.Base.{
  ℕ, Bool, true, false, Option, none, some, Outcome, ok, panic, ◌>>=◌, if◌then◌else◌,
}
use whirl_matrix.Network.{Network}
use whirl_matrix.Transport
use whirl_matrix.Transport.{
  Transport, ClientSocket, ReplySocket, connect_to, send_request, send_reply, remove_endpoint, peer,
}

-- What the handler of the program is told: a message, with a socket for the reply where there is one.
pub data Told : Type 0 where
  message_to : ℕ → String → Option ReplySocket → Told
  disconnect_to : ℕ → String → Told

abbrev pub tell : Bool → Told → Option Told
tell there told = if there then some told else none

-- NetTransportSocket; a closed socket has no implementation.
pub record NetTransportSocket : Type 0 where
  pub socket : Option ClientSocket
  pub handler : ℕ

-- NetTransportServer
pub record NetTransportServer : Type 0 where
  pub server_port : Option ℕ
  pub handler : ℕ

-- The socket's own endpoint has the number `this`.
unfoldable pub make_socket :
    Bool
    → ℕ
    → ℕ
    → String
    → ℕ
    → ℕ
    → ℕ
    → ℕ
    → Transport
    → Network
    → Outcome (NetTransportSocket × Transport × Network)
unfolding connect_to
make_socket adversary this handler host port ts now flight_time t net =
    connect_to adversary host port this ts now flight_time t net >>= λ r.
    ok (record { socket = some r.0; handler = handler }, r.1, r.2)

unfoldable pub send : NetTransportSocket → String → ℕ → ℕ → Network → Outcome Network
unfolding send_request
send s message now flight_time net = elim s.socket [
  | none ↦ panic
  | some c ↦ send_request c message now flight_time net
]

unfoldable pub socket_peer : NetTransportSocket → Network → Outcome String
unfolding peer
socket_peer s net = elim s.socket [ none ↦ panic | some c ↦ peer c.link net ]

unfoldable pub is_connected : NetTransportSocket → Bool
is_connected s = elim s.socket [ none ↦ false | some c ↦ true ]

-- Close; a second one does nothing. The destructor closes a socket that is open.
unfoldable pub close : NetTransportSocket → Transport → NetTransportSocket × Transport
unfolding remove_endpoint
close s t = elim s.socket [
  | none ↦ (s, t)
  | some c ↦ (record s { socket = none }, remove_endpoint c.self_port t)
]

unfoldable pub handle_message : Bool → NetTransportSocket → String → Option Told
handle_message there s message = tell there (message_to s.handler message none)

unfoldable pub handle_disconnect :
    Bool → NetTransportSocket → String → Transport → Option Told × NetTransportSocket × Transport
unfolding close
handle_disconnect there s peer t =
    let (s', t') = close s t in (tell there (disconnect_to s.handler peer), s', t')

unfoldable pub make_server : ℕ → ℕ → ℕ → ℕ → Transport → Outcome (NetTransportServer × Transport)
unfolding Transport.serve
make_server this handler port ts t = Transport.serve port this ts t >>= λ t'.
    ok (record { server_port = some port; handler = handler }, t')

unfoldable pub shutdown : NetTransportServer → Transport → NetTransportServer × Transport
unfolding remove_endpoint
shutdown s t = elim s.server_port [
  | none ↦ (s, t)
  | some port ↦ (record s { server_port = none }, remove_endpoint port t)
]

unfoldable pub server_message : Bool → NetTransportServer → String → ReplySocket → Option Told
server_message there s message back = tell there (message_to s.handler message (some back))

unfoldable pub server_disconnect : Bool → NetTransportServer → String → Option Told
server_disconnect there s host = tell there (disconnect_to s.handler host)

-- ReplyTransportSocket::Send
unfoldable pub reply_send : ReplySocket → String → ℕ → ℕ → Network → Outcome Network
unfolding send_reply
reply_send socket message now flight_time net = send_reply socket message now flight_time net

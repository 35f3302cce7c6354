-- ===== src/Runtime/Sockets/Closed.antt =====
-- NetTransportSocket::Close and HandleDisconnect: a closed socket of a program.
use Prim.Native.String.{String}
use whirl_matrix.Base.{
  ℕ, ◌≡◌, refl, ap, ◌∙◌, Bool, false, none, some, ==_refl, ◌==◌, Ensures, bind-Ensures,
  Bool-Ensures,
}
use whirl_matrix.Fs.Table.{find_fd, erase_fd, find_fd-erase_fd}
use whirl_matrix.Network.{Packet, Network, reset_packet}
use whirl_matrix.Network.Links.{add_packet}
use whirl_matrix.Transport.{
  Transport, ClientSocket, handle_packet, remove_endpoint, peer, is_reset, reply,
}
use whirl_matrix.Runtime.Sockets.{NetTransportSocket, close, is_connected, handle_disconnect}

-- A packet for a port without an endpoint changes nothing in the transport.
no_endpoint :
    (packet : Packet) (out now flight_time : ℕ) (t : Transport) (net : Network)
    → find_fd packet.header.dest_port t.endpoints ≡ none
    → Ensures
        (λ (r : Transport × Network). r.0 ≡ t)
        (handle_packet packet out now flight_time t net)
unfolding handle_packet
no_endpoint packet out now flight_time t net e =
    bind-Ensures (λ (r : Transport × Network). r.0 ≡ t) (peer out net) _
      λ from. rw e (
        Bool-Ensures (λ (r : Transport × Network). r.0 ≡ t) (is_reset packet.header.type) _ _ refl
          (bind-Ensures (λ (r : Transport × Network). r.0 ≡ t)
            (add_packet out (reply reset_packet "<reset>" packet) now flight_time net) _
            (λ n. refl)))

-- What is left of a socket that was open, and of the transport of its server.
abbrev pub IsShut : ClientSocket → Transport → NetTransportSocket × Transport → Type 0
IsShut c t r =
    (is_connected r.0 ≡ false)
    × (close r.0 r.1 ≡ r)
    × ((packet : Packet) (out now flight_time : ℕ) (net : Network)
        → packet.header.dest_port ≡ c.self_port
        → Ensures (λ (q : Transport × Network). q.0 ≡ r.1)
            (handle_packet packet out now flight_time r.1 net))
    × ((port : ℕ)
        → (c.self_port == port) ≡ false
        → find_fd port r.1.endpoints ≡ find_fd port t.endpoints)

shut :
    (c : ClientSocket) (s : NetTransportSocket) (t : Transport)
    → IsShut c t (record s { socket = none }, remove_endpoint c.self_port t)
unfolding is_connected close remove_endpoint
shut c s t = (
  refl,
  refl,
  λ packet out now flight_time net e.
      no_endpoint packet out now flight_time (remove_endpoint c.self_port t) net (
        ap (λ p. find_fd p (erase_fd c.self_port t.endpoints)) e
        ∙ find_fd-erase_fd c.self_port c.self_port t.endpoints
        ∙ rw (==_refl c.self_port) refl),
  λ port e. find_fd-erase_fd c.self_port port t.endpoints ∙ rw e refl,
)

-- When an open socket is closed, by the program or because its peer has disconnected, it is not connected,
-- closing it again changes nothing, a packet that arrives for its port schedules no task and changes nothing in
-- the transport, and the endpoints of the other ports are as they were.
pub close-IsShut :
    (there : Bool) (s : NetTransportSocket) (c : ClientSocket) (t : Transport) (from : String)
    → s.socket ≡ some c
    → IsShut c t (close s t)
      × IsShut c t ((handle_disconnect there s from t).1, (handle_disconnect there s from t).2)
unfolding close handle_disconnect
close-IsShut there s c t from e = rw e (shut c s t, shut c s t)

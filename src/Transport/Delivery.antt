-- ===== src/Transport/Delivery.antt =====
-- Which packets reach a handler, and the addresses of a request and its reply.
use Prim.Native.String.{String}
use whirl_matrix.Base.{
  ℕ, ◌≡◌, ◌⊎◌, inl, inr, refl, false, some, arith, Bool-cases, Option-cases, Outcome-cases, ◌≤◌,
  Outcome, ok, panic, ◌>>=◌, ltb,
}
use whirl_matrix.Fs.Table.{find_fd}
use whirl_matrix.Network.{PacketType, data_packet, reset_packet, ping_packet, Packet, Network}
use whirl_matrix.Network.Links.{add_packet}
use whirl_matrix.Transport.{
  Endpoint, ReplySocket, ClientSocket, Task, message, disconnect, Transport, is_reset, reply_socket,
  send_reply, send_request, peer, schedule_task, handle_endpoint, handle_packet,
}

-- The packet of a message, and the socket by which it is answered.
abbrev pub data_of : ℕ → ℕ → ℕ → String → Packet
data_of source dest ts payload = record {
  header = record { type = data_packet; source_port = source; dest_port = dest; ts = ts };
  message = payload;
}

-- A message whose endpoint is there and not younger is scheduled.
handle-message :
    (packet : Packet) (out now flight_time : ℕ) (t : Transport) (net : Network) (e : Endpoint)
    (from : String)
    → peer out net ≡ ok from
    → packet.header.type ≡ data_packet
    → find_fd packet.header.dest_port t.endpoints ≡ some e
    → e.ts ≤ packet.header.ts
    → handle_packet packet out now flight_time t net
      ≡ ok (
        schedule_task (message e.handler packet.message (reply_socket packet.header out)) now t,
        net,
      )
unfolding handle_packet handle_endpoint
handle-message packet out now flight_time t net e from known is_data there young =
    let on_time : ltb packet.header.ts e.ts ≡ false = ground arith in
    rw (known, handle_packet)
      (rw (there, handle_packet) (rw (on_time, handle_packet) (rw (is_data, handle_endpoint) refl)))

-- A client socket and the port it is connected to, both ends with endpoints that are not younger than the
-- socket. What the socket sends is a packet whose arrival schedules the message for the handler of the
-- server's endpoint, with a reply socket; what the reply socket sends is a packet whose arrival schedules
-- the answer for the handler of the client's endpoint. Nothing else of the two transports changes.
pub request-reply :
    (socket : ClientSocket) (client server : Transport) (c e : Endpoint)
    → (out back now now' flight_time flight_time' : ℕ) (net net' : Network)
    → (from from' payload answer : String) → find_fd socket.self_port client.endpoints ≡ some c
    → c.ts ≤ socket.ts
    → find_fd socket.server_port server.endpoints ≡ some e
    → e.ts ≤ socket.ts
    → peer out net ≡ ok from
    → peer back net' ≡ ok from'
    → (request response : Packet) × (s : ReplySocket) × ((at flight : ℕ) (n : Network)
        → send_request socket payload at flight n ≡ add_packet socket.link request at flight n)
      × (handle_packet request out now flight_time server net
          ≡ ok (schedule_task (message e.handler payload s) now server, net))
      × ((at flight : ℕ) (n : Network)
          → send_reply s answer at flight n ≡ add_packet out response at flight n)
      × (handle_packet response back now' flight_time' client net'
          ≡ ok (
            schedule_task
                (message c.handler answer (reply_socket response.header back))
                now'
                client,
            net',
          ))
unfolding send_request send_reply reply_socket
request-reply socket client server c e out back now now' flight_time flight_time' net net' from
      from' payload answer at_client young at_server young' known known' =
    let request = data_of socket.self_port socket.server_port socket.ts payload in
    let response = data_of socket.server_port socket.self_port socket.ts answer in
    (
      request,
      response,
      reply_socket request.header out,
      λ at flight n. refl,
      handle-message request out now flight_time server net e from known refl at_server young',
      λ at flight n. refl,
      handle-message response back now' flight_time' client net' c from' known' refl at_client
          young,
    )

-- What an arrival does to the transport: nothing, or one task for the handler of the endpoint.
abbrev pub Delivers : Packet → ℕ → ℕ → Transport → Outcome (Transport × Network) → Type 0
Delivers packet out now t panic = Unit
Delivers packet out now t (ok (t', net)) =
    (t' ≡ t)
    ⊎ ((e : Endpoint) × (task : Task) × (find_fd packet.header.dest_port t.endpoints ≡ some e)
        × (e.ts ≤ packet.header.ts)
        × (t' ≡ schedule_task task now t)
        × ((task ≡ message e.handler packet.message (reply_socket packet.header out))
            ⊎ ((from : String) × (task ≡ disconnect e.handler from))))

replied :
    (packet : Packet) (out now : ℕ) (t : Transport) (r : Outcome Network)
    → Delivers packet out now t (r >>= λ n. ok (t, n))
replied packet out now t (ok n) = inl refl
replied packet out now t panic = tt

endpoint-Delivers :
    (packet : Packet) (type : PacketType) (out : ℕ) (e : Endpoint) (from : String)
    (now flight_time : ℕ)
    → (t : Transport) (net : Network) → find_fd packet.header.dest_port t.endpoints ≡ some e
    → e.ts ≤ packet.header.ts
    → packet.header.type ≡ type
    → Delivers packet out now t (handle_endpoint packet out e from now flight_time t net)
unfolding handle_endpoint
endpoint-Delivers packet data_packet out e from now flight_time t net there young is =
    rw (is, handle_endpoint) (inr (e, _, there, young, refl, inl refl))
endpoint-Delivers packet reset_packet out e from now flight_time t net there young is =
    rw (is, handle_endpoint) (inr (e, _, there, young, refl, inr (from, refl)))
endpoint-Delivers packet ping_packet out e from now flight_time t net there young is =
    rw (is, handle_endpoint) (replied packet out now t _)

-- A packet that arrives, of any type and at any port, changes the endpoints and the ports of the
-- transport in no way, and schedules at most one task: the message, or the disconnection, for the handler of
-- the endpoint at its port, and only where there is such an endpoint and it is not younger than the packet.
pub handle_packet-Delivers :
    (packet : Packet) (out now flight_time : ℕ) (t : Transport) (net : Network)
    → Delivers packet out now t (handle_packet packet out now flight_time t net)
unfolding handle_packet
handle_packet-Delivers packet out now flight_time t net = elim (Outcome-cases (peer out net)) [
  | inl e ↦ rw (e, handle_packet) tt
  | inr (from, e) ↦
      rw (e, handle_packet)
        (elim (Option-cases (find_fd packet.header.dest_port t.endpoints)) [
          | inl none_there ↦
              rw (none_there, handle_packet)
                (elim (Bool-cases (is_reset packet.header.type)) [
                  | inl h ↦ rw (h, handle_packet) (inl refl)
                  | inr h ↦ rw (h, handle_packet) (replied packet out now t _)
                ])
          | inr (endpoint, there) ↦
              rw (there, handle_packet)
                (elim (Bool-cases (ltb packet.header.ts endpoint.ts)) [
                  | inl h ↦ rw (h, handle_packet) (replied packet out now t _)
                  | inr h ↦
                      rw (h, handle_packet)
                        (endpoint-Delivers packet packet.header.type out endpoint from now
                          flight_time t net there (ground arith) refl)
                ])
        ])
]

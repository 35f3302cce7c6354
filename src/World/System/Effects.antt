-- ===== src/World/System/Effects.antt =====
-- The effects of the code of the programs, and the time.
use Prim.Native.String.{String}
use whirl_matrix.Base.{
  ℕ, ◌+◌, ◌^◌, ◌<◌, ◌≡◌, inl, inr, Bool, Option, none, some, arith, All, All-set, All-get_elem?,
  Bool-cases, get_elem?, ltb, Outcome, ok, ◌>>=◌, Ensures, >>=-Ensures, bind-Ensures, both-Ensures,
  Option-Ensures, Bool-Ensures,
}
use whirl_matrix.Clocks.{timeout_of}
use whirl_matrix.Network.{Network, Packet, PacketType, data_packet, reset_packet, ping_packet}
use whirl_matrix.Network.Links
use whirl_matrix.Network.Steps.{get_link}
use whirl_matrix.Transport
use whirl_matrix.Transport.{
  Transport, Task, Endpoint, ClientSocket, ReplySocket, handle_packet, handle_endpoint,
  schedule_task, serve, connect_to, remove_endpoint, send_request, send_reply, emplace,
  find_free_port, scan_ports, in_use, peer, reply, is_reset, disconnect, message, reply_socket,
}
use whirl_matrix.Fs.Table.{find_fd}
use whirl_matrix.Server
use whirl_matrix.Server.{Server, running}
use whirl_matrix.World.System.{
  System, Effect, submit, timer, send, answer, connect, close, pause_server, resume_server,
  crash_server, reboot_server, adjust_clock, pause_link, resume_link, record_call, Code, done, asks,
  alone, on_server, on_transport, with_transport, resume_server_at, run_effect, run_code,
}
use whirl_matrix.World.System.Queues.{
  IsDueFrom, IsOnTime, resume-IsOnTime, crash-IsOnTime, reboot-IsOnTime, pause-IsOnTime,
  submit-IsOnTime, timer-IsOnTime,
}
use whirl_matrix.History.Runs.{handle}
use whirl_matrix.World.System.Traffic.{IsAhead, add_packet-IsAhead, pause-IsAhead, resume-IsAhead}

abbrev pub IsTimely : ℕ → System → Type 0
IsTimely now sys = All (IsOnTime now) sys.servers × IsAhead now sys.network

abbrev Kept : Type 0 → ℕ → Transport × Network → Type 0
Kept C now r = (C → IsDueFrom now r.0.scheduler) × IsAhead now r.1

-- The search for a port leaves the tasks.
from_port :
    (t : Transport) (found : Option (ℕ × ℕ)) (r : ℕ × Transport)
    → elim found [ none ↦ none | some (port, next) ↦ some (port, record t { next_port = next }) ]
      ≡ some r
    → r.1.scheduler ≡ t.scheduler
from_port t none r e = cc
from_port t (some (port, next)) r e = cc

same_tasks :
    (t : Transport) (r : ℕ × Transport) → find_free_port t ≡ some r → r.1.scheduler ≡ t.scheduler
unfolding find_free_port
same_tasks t r e = from_port t (scan_ports (2 ^ 16) t.next_port t.endpoints) r e

-- What the transport does with a packet; `C` says that the server runs.
module _ (C : Type 0) (now : ℕ) where
  sent :
      (out : ℕ) (packet : Packet) (flight_time : ℕ) (t : Transport) (net : Network)
      → now + flight_time < 2 ^ 64
      → (C → IsDueFrom now t.scheduler)
      → IsAhead now net
      → Ensures (Kept C now) (Links.add_packet out packet now flight_time net >>= λ n. ok (t, n))
  sent out packet flight_time t net w h k =
      >>=-Ensures (IsAhead now) (Kept C now) _ _
        (add_packet-IsAhead out packet now flight_time net w k) (λ n k'. (h, k'))

  handled :
      (type : PacketType) (packet : Packet) (out : ℕ) (endpoint : Endpoint) (from : String)
      (flight_time : ℕ) (t : Transport) (net : Network)
      → now + flight_time < 2 ^ 64
      → (C → IsDueFrom now t.scheduler)
      → IsAhead now net
      → Ensures (Kept C now) (elim type [
        | ping_packet ↦
            Links.add_packet out (reply ping_packet "<ping>" packet) now flight_time net >>= λ n.
            ok (t, n)
        | reset_packet ↦ ok (schedule_task (disconnect endpoint.handler from) now t, net)
        | data_packet ↦ ok (
          schedule_task
              (message endpoint.handler packet.message (reply_socket packet.header out))
              now
              t,
          net,
        )
      ])
  unfolding schedule_task
  handled ping_packet packet out endpoint from flight_time t net w h k =
      sent out (reply ping_packet "<ping>" packet) flight_time t net w h k
  handled reset_packet packet out endpoint from flight_time t net w h k =
      (λ c. (omega arith, h c), k)
  handled data_packet packet out endpoint from flight_time t net w h k =
      (λ c. (omega arith, h c), k)

  pub handle_packet-Kept :
      (packet : Packet) (out flight_time : ℕ) (t : Transport) (net : Network)
      → now + flight_time < 2 ^ 64
      → (C → IsDueFrom now t.scheduler)
      → IsAhead now net
      → Ensures (Kept C now) (handle_packet packet out now flight_time t net)
  unfolding handle_packet
  handle_packet-Kept packet out flight_time t net w h k =
      bind-Ensures (Kept C now) (peer out net) _ λ from.
        Option-Ensures (Kept C now) (find_fd packet.header.dest_port t.endpoints) _ _
          (Bool-Ensures (Kept C now) (is_reset packet.header.type) _ _ (h, k)
            (sent out (reply reset_packet "<reset>" packet) flight_time t net w h k))
          λ endpoint _.
            Bool-Ensures (Kept C now) (ltb packet.header.ts endpoint.ts) _ _
              (sent out (reply reset_packet "<reset>" packet) flight_time t net w h k)
              (unfold handle_endpoint in
                handled packet.header.type packet out endpoint from flight_time t net w h k)

  serve-Kept :
      (port handler ts : ℕ) (t : Transport) (net : Network)
      → (C → IsDueFrom now t.scheduler)
      → IsAhead now net
      → Ensures (Kept C now) (serve port handler ts t >>= λ t'. ok (t', net))
  unfolding serve emplace
  serve-Kept port handler ts t net h k = elim (Bool-cases (in_use port t.endpoints)) [
    | inl e ↦ rw (e, serve) tt
    | inr e ↦ rw (e, serve) (h, k)
  ]

  connect_to-Kept :
      (adversary : Bool) (host : String) (port handler ts flight_time : ℕ) (t : Transport)
      (net : Network)
      → now + flight_time < 2 ^ 64
      → (C → IsDueFrom now t.scheduler)
      → IsAhead now net
      → Ensures
          (Kept C now)
          (connect_to adversary host port handler ts now flight_time t net >>= λ r. ok (r.1, r.2))
  unfolding connect_to emplace
  connect_to-Kept adversary host port handler ts flight_time t net w h k =
      >>=-Ensures (λ (r : ClientSocket × Transport × Network). Kept C now (r.1, r.2)) (Kept C now)
        (connect_to adversary host port handler ts now flight_time t net) (λ r. ok (r.1, r.2))
        (bind-Ensures (λ (r : ClientSocket × Transport × Network). Kept C now (r.1, r.2))
          (get_link t.host host net) _
          λ link.
            Option-Ensures (λ (r : ClientSocket × Transport × Network). Kept C now (r.1, r.2))
              (find_free_port t) _ _ tt
              λ r e.
                let h' : C → IsDueFrom now r.1.scheduler = λ c. rw (same_tasks t r e) (h c) in
                Bool-Ensures (λ (r : ClientSocket × Transport × Network). Kept C now (r.1, r.2))
                  adversary _ _
                  (>>=-Ensures (IsAhead now)
                    (λ (r : ClientSocket × Transport × Network). Kept C now (r.1, r.2)) _ _
                    (add_packet-IsAhead link _ now flight_time net w k) (λ n k'. (h', k')))
                  (h', k))
        (λ r q. q)

module _ (now : ℕ) where
  abbrev Both : Server × Network → Type 0
  Both r = IsOnTime now r.0 × IsAhead now r.1

  on_server-IsTimely :
      (j : ℕ) (f : Server → Network → Outcome (Server × Network)) (sys : System)
      → IsTimely now sys
      → ((s : Server)
          → get_elem? sys.servers j ≡ some s
          → IsOnTime now s
          → IsAhead now sys.network
          → Ensures Both (f s sys.network))
      → Ensures (IsTimely now) (on_server j f sys)
  unfolding on_server
  on_server-IsTimely j f sys (h, k) keep =
      Option-Ensures (IsTimely now) (get_elem? sys.servers j) _ _ tt λ s e.
        >>=-Ensures Both (IsTimely now) (f s sys.network) _
          (keep s e (All-get_elem? (IsOnTime now) sys.servers j s h e) k)
          (λ r q. (All-set (IsOnTime now) sys.servers j r.0 h q.0, q.1))

  on_transport-Both :
      (f : Transport → Network → Outcome (Transport × Network)) (s : Server) (net : Network)
      → Ensures (Kept (s.state ≡ running) now) (f s.transport net)
      → Ensures Both (on_transport f s net)
  unfolding on_transport
  on_transport-Both f s net h =
      >>=-Ensures (Kept (s.state ≡ running) now) Both (f s.transport net) _ h (λ r q. q)

  alone-Both :
      (m : Outcome Server) (net : Network)
      → Ensures (IsOnTime now) m
      → IsAhead now net
      → Ensures Both (m >>= λ s'. ok (s', net))
  alone-Both m net h k = >>=-Ensures (IsOnTime now) Both m _ h (λ s' q. (q, k))

  on_network-IsTimely :
      (m : Outcome Network) (sys : System)
      → IsTimely now sys
      → Ensures (IsAhead now) m
      → Ensures (IsTimely now) (m >>= λ net. ok (record sys { network = net }))
  on_network-IsTimely m sys h k = >>=-Ensures (IsAhead now) (IsTimely now) m _ k (λ net q. (h.0, q))

  -- The timer of an effect ends below 2^64, by the clock of its server, a packet arrives below it, and so does one
  -- that a resumed link sends again.
  abbrev pub Fits : ℕ → Effect → System → Type 0
  Fits j (timer delay c) sys =
      (s : Server)
      → get_elem? sys.servers j ≡ some s
      → now + timeout_of delay s.monotonic_clock < 2 ^ 64
  Fits j (send socket payload flight_time) sys = now + flight_time < 2 ^ 64
  Fits j (answer socket payload flight_time) sys = now + flight_time < 2 ^ 64
  Fits j (connect adversary host port handler ts flight_time) sys = now + flight_time < 2 ^ 64
  Fits j (resume_link i) sys = now + 1 < 2 ^ 64
  Fits j e sys = Unit

  changed-IsTimely :
      (j : ℕ) (g : Server → Server) (sys : System)
      → IsTimely now sys
      → ((s : Server) → get_elem? sys.servers j ≡ some s → IsOnTime now s → IsOnTime now (g s))
      → Ensures (IsTimely now) (on_server j (λ s net. ok (g s, net)) sys)
  changed-IsTimely j g sys h keep =
      on_server-IsTimely j (λ s net. ok (g s, net)) sys h λ s e q k. (keep s e q, k)

  pub transport-IsTimely :
      (j : ℕ) (f : Transport → Network → Outcome (Transport × Network)) (sys : System)
      → IsTimely now sys
      → ((C : Type 0) (t : Transport)
          → (C → IsDueFrom now t.scheduler)
          → IsAhead now sys.network
          → Ensures (Kept C now) (f t sys.network))
      → Ensures (IsTimely now) (on_server j (on_transport f) sys)
  transport-IsTimely j f sys h keep =
      on_server-IsTimely j (on_transport f) sys h
        λ s e q k. on_transport-Both f s sys.network (keep (s.state ≡ running) s.transport q k)

  alone-IsTimely :
      (j : ℕ) (f : Server → Outcome Server) (sys : System)
      → IsTimely now sys
      → ((s : Server) → IsOnTime now s → Ensures (IsOnTime now) (f s))
      → Ensures (IsTimely now) (on_server j (alone f) sys)
  alone-IsTimely j f sys h keep =
      on_server-IsTimely j (alone f) sys h λ s e q k. alone-Both (f s) sys.network (keep s q) k

  run_effect-IsTimely :
      (j : ℕ) (e : Effect) (sys : System)
      → Fits j e sys
      → IsTimely now sys
      → Ensures (IsTimely now) (run_effect now j e sys)
  unfolding run_effect send_request send_reply with_transport remove_endpoint
      Server.adjust_wall_clock
  run_effect-IsTimely j (submit c) sys f h =
      changed-IsTimely j _ sys h λ s e q. submit-IsOnTime c now s q
  run_effect-IsTimely j (timer delay c) sys f h =
      changed-IsTimely j _ sys h λ s e q. timer-IsOnTime now delay c s (f s e) q
  run_effect-IsTimely j (send socket payload flight_time) sys f h =
      on_network-IsTimely _ sys h
        (add_packet-IsAhead socket.link _ now flight_time sys.network f h.1)
  run_effect-IsTimely j (answer socket payload flight_time) sys f h =
      on_network-IsTimely _ sys h
        (add_packet-IsAhead socket.link _ now flight_time sys.network f h.1)
  run_effect-IsTimely j (Effect.serve port handler ts) sys f h =
      transport-IsTimely j (λ t net. Transport.serve port handler ts t >>= λ t'. ok (t', net)) sys h
        λ C t q k. serve-Kept C now port handler ts t sys.network q k
  run_effect-IsTimely j (connect adversary host port handler ts flight_time) sys f h =
      transport-IsTimely j
        (λ t net.
          connect_to adversary host port handler ts now flight_time t net >>= λ r. ok (r.1, r.2))
        sys h
        λ C t q k.
          connect_to-Kept C now adversary host port handler ts flight_time t sys.network f q k
  run_effect-IsTimely j (close port) sys f h =
      changed-IsTimely j (with_transport (remove_endpoint port)) sys h λ s e q. q
  run_effect-IsTimely j (pause_server i) sys f h =
      changed-IsTimely i _ sys h λ s e q. pause-IsOnTime now s q
  run_effect-IsTimely j (resume_server i) sys f h =
      alone-IsTimely i (resume_server_at now) sys h (resume-IsOnTime now)
  run_effect-IsTimely j (crash_server i) sys f h =
      alone-IsTimely i Server.crash sys h λ s q. crash-IsOnTime now s
  run_effect-IsTimely j (reboot_server i init) sys f h =
      alone-IsTimely i (Server.fast_reboot init now) sys h (reboot-IsOnTime init now)
  run_effect-IsTimely j (adjust_clock i offset) sys f h =
      changed-IsTimely i (Server.adjust_wall_clock offset) sys h λ s e q. q
  run_effect-IsTimely j (pause_link i) sys f h =
      on_network-IsTimely _ sys h (pause-IsAhead now i sys.network h.1)
  run_effect-IsTimely j (resume_link i) sys f h =
      on_network-IsTimely _ sys h (resume-IsAhead i now sys.network f h.1)
  run_effect-IsTimely j (record_call e) sys f h =
      bind-Ensures (IsTimely now) (handle now e sys.history) _ (λ h'. h)

  -- The times of all effects fit.
  abbrev pub AllFit : ℕ → Code → System → Type 0
  AllFit j done sys = Unit
  AllFit j (asks e next) sys =
      Fits j e sys × Ensures (λ sys'. AllFit j (next sys') sys') (run_effect now j e sys)

  pub run_code-IsTimely :
      (j : ℕ) (c : Code) (sys : System)
      → AllFit j c sys
      → IsTimely now sys
      → Ensures (IsTimely now) (run_code now j c sys)
  unfolding run_code
  run_code-IsTimely j done sys f h = h
  run_code-IsTimely j (asks e next) sys (f, fs) h =
      >>=-Ensures (λ sys'. AllFit j (next sys') sys' × IsTimely now sys') (IsTimely now)
        (run_effect now j e sys) _
        (both-Ensures (λ sys'. AllFit j (next sys') sys') (IsTimely now) (run_effect now j e sys) fs
          (run_effect-IsTimely j e sys f h))
        λ sys' q. run_code-IsTimely j (next sys') sys' q.0 q.1

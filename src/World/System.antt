-- ===== src/World/System.antt =====
-- matrix/world, server and network put together: the actors of a running world are its servers, in the order
-- in which they were added, and then the network. The code of the programs, and what the time model
-- chooses, are a parameter; what the code asks of the simulator are the effects.
pub mod Queues
pub mod Traffic
pub mod Effects
pub mod Timeline
pub mod Recorded
use Prim.Native.String.{String}
use whirl_matrix.Base.{
  ℕ, Bool, true, false, Option, none, some, List, [], ◌∷◌, ◌++◌, map, get_elem?, set, Outcome, ok,
  panic, ◌>>=◌, if◌then◌else◌,
}
use whirl_matrix.Digest.{Hashes}
use whirl_matrix.Scheduler.{schedule}
use whirl_matrix.Runtime.{after_jiffies}
use whirl_matrix.Network.{Network}
use whirl_matrix.Network.Links
use whirl_matrix.Network.Steps
use whirl_matrix.Network.Steps.{Delivery}
use whirl_matrix.Transport
use whirl_matrix.Transport.{Transport, Task, closure, ClientSocket, ReplySocket}
use whirl_matrix.Server
use whirl_matrix.Server.{Server}
use whirl_matrix.History.{HistoryRecorder}
use whirl_matrix.History.Runs.{Event, handle}
use whirl_matrix.World.{Actors}

pub record System : Type 0 where
  pub servers : List Server
  pub network : Network
  pub history : HistoryRecorder

-- The calls of the thread pool, the time service and the sockets, and those of the adversaries on
-- a server or a link; and those of a client on the recorder of its calls. A flight time and the like is what the time model chooses.
pub data Effect : Type 0 where
  submit : ℕ → Effect
  timer : ℕ → ℕ → Effect
  send : ClientSocket → String → ℕ → Effect
  answer : ReplySocket → String → ℕ → Effect
  serve : ℕ → ℕ → ℕ → Effect
  connect : Bool → String → ℕ → ℕ → ℕ → ℕ → Effect
  close : ℕ → Effect
  pause_server : ℕ → Effect
  resume_server : ℕ → Effect
  crash_server : ℕ → Effect
  reboot_server : ℕ → ℕ → Effect
  adjust_clock : ℕ → ℕ → Effect
  pause_link : ℕ → Effect
  resume_link : ℕ → Effect
  record_call : Event → Effect

-- The code of a task, which sees the state that its calls leave.
pub data Code : Type 0 where
  done : Code
  asks : Effect → (System → Code) → Code

-- The code of the tasks of each server, and the flight time of an answer of the transport.
pub record Programs : Type 0 where
  pub code : ℕ → ℕ → Task → System → Code
  pub flight_time : ℕ → System → ℕ

unfoldable pub on_server :
    ℕ → (Server → Network → Outcome (Server × Network)) → System → Outcome System
on_server j f sys = elim (get_elem? sys.servers j) [
  | none ↦ panic
  | some s ↦
      f s sys.network >>= λ r. ok (record sys { servers = set sys.servers j r.0; network = r.1 })
]

unfoldable pub on_transport :
    (Transport → Network → Outcome (Transport × Network))
    → Server
    → Network
    → Outcome (Server × Network)
on_transport f s net = f s.transport net >>= λ r. ok (record s { transport = r.0 }, r.1)

unfoldable pub with_transport : (Transport → Transport) → Server → Server
with_transport f s = record s { transport = f s.transport }

unfoldable pub set_timer : ℕ → ℕ → ℕ → Server → Server
unfolding after_jiffies
set_timer now delay c s = record s {
  transport = record s.transport {
    scheduler = after_jiffies now delay s.monotonic_clock (closure c) s.transport.scheduler;
  };
}

-- A resumed server; the loop of its scheduler ends.
unfoldable pub resume_server_at : ℕ → Server → Outcome Server
unfolding Server.resume
resume_server_at now s = elim (Server.resume now s) [ none ↦ panic | some s' ↦ ok s' ]

abbrev pub alone : (Server → Outcome Server) → Server → Network → Outcome (Server × Network)
alone f s net = f s >>= λ s'. ok (s', net)

abbrev pub on_network : (Network → Outcome Network) → System → Outcome System
on_network f sys = f sys.network >>= λ net. ok (record sys { network = net })

abbrev pub on_history : (HistoryRecorder → Outcome HistoryRecorder) → System → Outcome System
on_history f sys = f sys.history >>= λ h. ok (record sys { history = h })

-- An effect of the code of the server `j`.
unfoldable pub run_effect : ℕ → ℕ → Effect → System → Outcome System
unfolding on_server on_transport with_transport set_timer resume_server_at Transport.schedule_task
run_effect now j (submit c) =
    on_server j (alone (λ s. ok (with_transport (Transport.schedule_task (closure c) now) s)))
run_effect now j (timer delay c) = on_server j (alone (λ s. ok (set_timer now delay c s)))
run_effect now j (send socket payload flight_time) =
    on_network (Transport.send_request socket payload now flight_time)
run_effect now j (answer socket payload flight_time) =
    on_network (Transport.send_reply socket payload now flight_time)
run_effect now j (serve port handler ts) =
    on_server j (on_transport (λ t net. Transport.serve port handler ts t >>= λ t'. ok (t', net)))
run_effect now j (connect adversary host port handler ts flight_time) = on_server j (
    on_transport (λ t net.
      Transport.connect_to adversary host port handler ts now flight_time t net >>= λ r.
      ok (r.1, r.2)))
run_effect now j (close port) =
    on_server j (alone (λ s. ok (with_transport (Transport.remove_endpoint port) s)))
run_effect now j (pause_server k) = on_server k (alone (λ s. ok (Server.pause s)))
run_effect now j (resume_server k) = on_server k (alone (resume_server_at now))
run_effect now j (crash_server k) = on_server k (alone Server.crash)
run_effect now j (reboot_server k init) = on_server k (alone (Server.fast_reboot init now))
run_effect now j (adjust_clock k offset) =
    on_server k (alone (λ s. ok (Server.adjust_wall_clock offset s)))
run_effect now j (pause_link i) = on_network (Links.pause i)
run_effect now j (resume_link i) = on_network (Links.resume i now)
run_effect now j (record_call e) = on_history (handle now e)

unfoldable pub run_code : ℕ → ℕ → Code → System → Outcome System
unfolding run_effect
run_code now j done sys = ok sys
run_code now j (asks e next) sys =
    run_effect now j e sys >>= λ sys'. run_code now j (next sys') sys'

-- When an actor can run next.
unfoldable pub server_time : Server → Option ℕ
unfolding Server.is_runnable Server.next_step_time
server_time s = if Server.is_runnable s then Server.next_step_time s else none

unfoldable pub network_time : Network → Option ℕ
unfolding Steps.is_runnable Steps.next_step_time
network_time net = if Steps.is_runnable net then Steps.next_step_time net else none

unfoldable pub actor_times : System → List (Option ℕ)
unfolding server_time network_time
actor_times sys = map server_time sys.servers ++ network_time sys.network ∷ []

module _ (w : Hashes) (p : Programs) where
  -- Server::Step
  unfoldable pub step_server : ℕ → ℕ → Server → System → Outcome System
  unfolding Server.take_task run_code
  step_server j now s sys = elim (Server.take_task s) [
    | none ↦ panic
    | some (task, s') ↦
        let sys' : System = record sys { servers = set sys.servers j s' } in
        run_code now j (p.code j now task sys') sys'
  ]

  -- Server::HandlePacket of the receiver; it gets the link back.
  unfoldable pub receive : ℕ → Delivery → System → Outcome System
  unfolding on_server on_transport Transport.handle_packet
  receive now d sys = elim d.back [
    | none ↦ panic
    | some out ↦
        on_server d.receiver
          (on_transport
            (λ t net. Transport.handle_packet d.packet out now (p.flight_time now sys) t net))
          sys
  ]

  -- Network::Step
  unfoldable pub step_network : ℕ → System → Outcome System
  unfolding Steps.step receive
  step_network now sys = Steps.step w sys.network >>= λ r.
      let sys' : System = record sys { network = r.1 } in
      elim r.0 [ none ↦ ok sys' | some d ↦ receive now d sys' ]

  unfoldable pub step_actor : ℕ → ℕ → System → Outcome System
  unfolding step_server step_network
  step_actor i now sys = elim (get_elem? sys.servers i) [
    | some s ↦ step_server i now s sys
    | none ↦ step_network now sys
  ]

  abbrev pub actors : Actors System
  actors = record { times = actor_times; step_actor = step_actor }

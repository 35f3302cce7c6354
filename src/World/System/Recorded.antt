-- ===== src/World/System/Recorded.antt =====
-- The history that the clients of a running world record.
use mathlib.Core.Path.{subst}
use mathlib.Core.Bool.{Bool-set}
use whirl_matrix.Base.{
  ℕ, zero, suc, ◌≤◌, ◌≡◌, sym, inl, inr, Bool, false, arith, All-append, All-mem, get_elem?, set,
  ltb, Bool-cases, Outcome, ok, panic, ◌>>=◌, Ensures, ensured, >>=-Ensures, bind-Ensures,
  Bool-Ensures, Option-Ensures,
}
use whirl_matrix.Digest.{Hashes}
use whirl_matrix.Clocks.{fast_forward_to}
use whirl_matrix.Network.{Network}
use whirl_matrix.Network.Steps
use whirl_matrix.Network.Steps.{Delivery}
use whirl_matrix.Network.Links
use whirl_matrix.Transport
use whirl_matrix.Transport.{closure}
use whirl_matrix.Server
use whirl_matrix.Server.{Server}
use whirl_matrix.Semantics.Linearization.{IsLinearizable}
use whirl_matrix.Semantics.Checker.{lin_check}
use whirl_matrix.Semantics.Checker.Tried.{IsTimed}
use whirl_matrix.Semantics.Kv.{Codec, kv_store_model}
use whirl_matrix.Semantics.Kv.Laws.{lin_check-kv}
use whirl_matrix.History.{HistoryRecorder, empty, finalize}
use whirl_matrix.History.Recorded.{Inv, Keeps, Timed, Inv-later, empty-Inv}
use whirl_matrix.History.Runs.{handle, handle-Inv, lost_all-Timed}
use whirl_matrix.World.{World, find_next_step, step, make_steps}
use whirl_matrix.World.System.{
  System, Programs, Effect, submit, timer, send, answer, serve, connect, close, pause_server,
  resume_server, crash_server, reboot_server, adjust_clock, pause_link, resume_link, record_call,
  Code, done, asks, on_server, on_network, run_effect, run_code, alone, on_transport,
  with_transport, set_timer, resume_server_at, actor_times, step_server, receive, step_network,
  step_actor, actors,
}

-- The recorder is as it is after calls up to `now`.
abbrev IsRecorded : ℕ → System → Type 0
IsRecorded now sys = Inv now sys.history

Keeps-Ensures : (t : ℕ) (m : Outcome HistoryRecorder) → Keeps t m → Ensures (Inv t) m
Keeps-Ensures t (ok h) k = k
Keeps-Ensures t panic k = tt

module _ (now : ℕ) where
  on_server-IsRecorded :
      (j : ℕ) (f : Server → Network → Outcome (Server × Network)) (sys : System)
      → IsRecorded now sys
      → Ensures (IsRecorded now) (on_server j f sys)
  unfolding on_server
  on_server-IsRecorded j f sys h =
      Option-Ensures (IsRecorded now) (get_elem? sys.servers j) _ _ tt
        λ s e. bind-Ensures (IsRecorded now) (f s sys.network) _ (λ r. h)

  on_network-IsRecorded :
      (f : Network → Outcome Network) (sys : System)
      → IsRecorded now sys
      → Ensures (IsRecorded now) (on_network f sys)
  on_network-IsRecorded f sys h = bind-Ensures (IsRecorded now) (f sys.network) _ (λ net. h)

  run_effect-IsRecorded :
      (j : ℕ) (e : Effect) (sys : System)
      → IsRecorded now sys
      → Ensures (IsRecorded now) (run_effect now j e sys)
  unfolding run_effect
  run_effect-IsRecorded j (submit c) sys h =
      on_server-IsRecorded j
        (alone (λ s. ok (with_transport (Transport.schedule_task (closure c) now) s))) sys h
  run_effect-IsRecorded j (timer delay c) sys h =
      on_server-IsRecorded j (alone (λ s. ok (set_timer now delay c s))) sys h
  run_effect-IsRecorded j (send socket payload flight_time) sys h =
      on_network-IsRecorded (Transport.send_request socket payload now flight_time) sys h
  run_effect-IsRecorded j (answer socket payload flight_time) sys h =
      on_network-IsRecorded (Transport.send_reply socket payload now flight_time) sys h
  run_effect-IsRecorded j (serve port handler ts) sys h =
      on_server-IsRecorded j
        (on_transport (λ t net. Transport.serve port handler ts t >>= λ t'. ok (t', net))) sys h
  run_effect-IsRecorded j (connect adversary host port handler ts flight_time) sys h =
      on_server-IsRecorded j
        (on_transport (λ t net.
          Transport.connect_to adversary host port handler ts now flight_time t net >>= λ r.
          ok (r.1, r.2)))
        sys h
  run_effect-IsRecorded j (close port) sys h =
      on_server-IsRecorded j (alone (λ s. ok (with_transport (Transport.remove_endpoint port) s)))
        sys h
  run_effect-IsRecorded j (pause_server k) sys h =
      on_server-IsRecorded k (alone (λ s. ok (Server.pause s))) sys h
  run_effect-IsRecorded j (resume_server k) sys h =
      on_server-IsRecorded k (alone (resume_server_at now)) sys h
  run_effect-IsRecorded j (crash_server k) sys h = on_server-IsRecorded k (alone Server.crash) sys h
  run_effect-IsRecorded j (reboot_server k init) sys h =
      on_server-IsRecorded k (alone (Server.fast_reboot init now)) sys h
  run_effect-IsRecorded j (adjust_clock k offset) sys h =
      on_server-IsRecorded k (alone (λ s. ok (Server.adjust_wall_clock offset s))) sys h
  run_effect-IsRecorded j (pause_link i) sys h = on_network-IsRecorded (Links.pause i) sys h
  run_effect-IsRecorded j (resume_link i) sys h = on_network-IsRecorded (Links.resume i now) sys h
  run_effect-IsRecorded j (record_call e) sys h =
      >>=-Ensures (Inv now) (IsRecorded now) (handle now e sys.history) _
        (Keeps-Ensures now (handle now e sys.history) (handle-Inv now e sys.history h)) (λ h' k. k)

  run_code-IsRecorded :
      (j : ℕ) (code : Code) (sys : System)
      → IsRecorded now sys
      → Ensures (IsRecorded now) (run_code now j code sys)
  unfolding run_code
  run_code-IsRecorded j done sys h = h
  run_code-IsRecorded j (asks e next) sys h =
      >>=-Ensures (IsRecorded now) (IsRecorded now) (run_effect now j e sys) _
        (run_effect-IsRecorded j e sys h) (λ sys' k. run_code-IsRecorded j (next sys') sys' k)

forwards : (future now : ℕ) → Ensures (λ n. now ≤ n) (fast_forward_to future now)
unfolding fast_forward_to
forwards future now = elim (Bool-cases (ltb future now)) [
  | inl e ↦ rw e tt
  | inr e ↦ rw e (ground (arith, e))
]

module _ (w : Hashes) (p : Programs) where
  step_server-IsRecorded :
      (now j : ℕ) (s : Server) (sys : System)
      → IsRecorded now sys
      → Ensures (IsRecorded now) (step_server w p j now s sys)
  unfolding step_server
  step_server-IsRecorded now j s sys h =
      Option-Ensures (IsRecorded now) (Server.take_task s) _ _ tt λ r e.
        let sys' : System = record sys { servers = set sys.servers j r.1 } in
        run_code-IsRecorded now j (p.code j now r.0 sys') sys' h

  step_network-IsRecorded :
      (now : ℕ) (sys : System)
      → IsRecorded now sys
      → Ensures (IsRecorded now) (step_network w p now sys)
  unfolding step_network receive
  step_network-IsRecorded now sys h =
      bind-Ensures (IsRecorded now) (Steps.step w sys.network) _ λ r.
        Option-Ensures (IsRecorded now) r.0 _ _ h λ d e.
          Option-Ensures (IsRecorded now) d.back _ _ tt λ out f.
            let sys' : System = record sys { network = r.1 } in
            on_server-IsRecorded now d.receiver
              (on_transport
                (λ t net. Transport.handle_packet d.packet out now (p.flight_time now sys') t net))
              sys' h

  step_actor-IsRecorded :
      (i now : ℕ) (sys : System)
      → IsRecorded now sys
      → Ensures (IsRecorded now) (step_actor w p i now sys)
  unfolding step_actor
  step_actor-IsRecorded i now sys h =
      Option-Ensures (IsRecorded now) (get_elem? sys.servers i) _ _
        (step_network-IsRecorded now sys h) (λ s e. step_server-IsRecorded now i s sys h)

  abbrev IsUpToNow : World System → Type 0
  IsUpToNow world = IsRecorded world.now world.actors

  step-IsUpToNow :
      (world : World System)
      → IsUpToNow world
      → Ensures (λ (r : Bool × World System). IsUpToNow r.1) (step w (actors w p) world)
  unfolding step
  step-IsUpToNow world h =
      Option-Ensures (λ (r : Bool × World System). IsUpToNow r.1)
        (find_next_step (actor_times world.actors)) _ _ h
        λ next e.
          >>=-Ensures (λ n. world.now ≤ n) (λ (r : Bool × World System). IsUpToNow r.1)
            (fast_forward_to next.time world.now) _ (forwards next.time world.now)
            λ n later.
              >>=-Ensures (IsRecorded n) (λ (r : Bool × World System). IsUpToNow r.1) _ _
                (step_actor-IsRecorded next.actor_index n world.actors (Inv-later later h))
                (λ sys k. k)

  make_steps-IsUpToNow :
      (n : ℕ) (world : World System)
      → IsUpToNow world
      → Ensures (λ (r : ℕ × World System). IsUpToNow r.1) (make_steps w (actors w p) n world)
  unfolding make_steps
  make_steps-IsUpToNow zero world h = h
  make_steps-IsUpToNow (suc n) world h =
      >>=-Ensures (λ (r : Bool × World System). IsUpToNow r.1)
        (λ (r : ℕ × World System). IsUpToNow r.1) _ _ (step-IsUpToNow world h)
        λ r q.
          Bool-Ensures (λ (r : ℕ × World System). IsUpToNow r.1) r.0 _ _
            (>>=-Ensures (λ (r' : ℕ × World System). IsUpToNow r'.1)
              (λ (r : ℕ × World System). IsUpToNow r.1) _ _ (make_steps-IsUpToNow n r.1 q)
              (λ r' q'. q'))
            q

  recorded-IsTimed : (t : ℕ) (h : HistoryRecorder) → Inv t h → IsTimed (finalize h).finalized_calls
  unfolding finalize
  recorded-IsTimed t h v c k =
      All-mem Timed (λ _. Bool-set _ _) _
        (All-append Timed h.finalized_calls _ v.timed (lost_all-Timed h.running_calls)) k

  -- From a world in which no call was recorded, whatever the programs of its servers, clients and adversaries do:
  -- if LinCheck refuses the history that is recorded after some steps, then this history of the
  -- key-value store has no linearization.
  pub make_steps-refused :
      (c : Codec) (n m : ℕ) (world world' : World System)
      → world.actors.history ≡ empty
      → make_steps w (actors w p) n world ≡ ok (m, world')
      → lin_check (kv_store_model c) (finalize world'.actors.history).finalized_calls ≡ false
      → ¬ IsLinearizable (kv_store_model c) (finalize world'.actors.history).finalized_calls
  make_steps-refused c n m world world' fresh runs refused =
      let begun : IsUpToNow world = subst (Inv world.now) (sym fresh) (empty-Inv world.now) in
      let now_recorded =
        ensured (λ (r : ℕ × World System). IsUpToNow r.1) (make_steps w (actors w p) n world)
          (m, world') (make_steps-IsUpToNow n world begun) runs in
      lin_check-kv c (finalize world'.actors.history).finalized_calls
        (recorded-IsTimed world'.now world'.actors.history now_recorded) refused

-- ===== src/World/System/Timeline.antt =====
-- World::Step on the servers and the network of a world: the virtual time.
use mathlib.Core.Path.{subst}
use whirl_matrix.Base.{
  Outcome, panic, ◌+◌, ◌^◌, ◌<◌, sym, ensured, Bool-cases, some_inj, ap, ℕ, zero, suc, ◌≤◌, ◌≡◌,
  refl, inl, inr, Bool, false, Option, some, List, [], ◌∷◌, ◌++◌, map, arith, All, All-set,
  All-get_elem?, get_elem?, set, ltb, ok, Ensures, >>=-Ensures, Bool-Ensures, Option-Ensures,
}
use whirl_matrix.Digest.{Hashes}
use whirl_matrix.Clocks.{fast_forward_to}
use whirl_matrix.Network.{Network}
use whirl_matrix.Network.Steps.{Delivery}
use whirl_matrix.Transport
use whirl_matrix.Transport.{Transport, Task}
use whirl_matrix.Server
use whirl_matrix.Server.{Server, running}
use whirl_matrix.World.{World, NextStep, find_next_step, step, make_steps}
use whirl_matrix.World.Next.{find_next_step_lem, NotAfter}
use whirl_matrix.World.System.{
  System, Programs, server_time, network_time, actor_times, step_server, receive, step_network,
  step_actor, actors,
}
use whirl_matrix.World.System.Queues.{
  IsOnTime, take_task-IsOnTime, server_time-IsOnTime, IsOnTime-server_time,
}
use whirl_matrix.World.System.Traffic.{
  IsAhead, step-IsAhead, network_time-IsAhead, IsAhead-network_time,
}
use whirl_matrix.World.System.Effects.{
  IsTimely, AllFit, run_code-IsTimely, transport-IsTimely, handle_packet-Kept,
}

-- None of the times of the actors is before `t`.
abbrev NoneBefore : ℕ → List (Option ℕ) → Type 0
NoneBefore t times = (i u : ℕ) → get_elem? times i ≡ some (some u) → t ≤ u

servers_from :
    (t : ℕ) (l : List Server) (rest : List (Option ℕ))
    → NoneBefore t (map server_time l ++ rest)
    → All (IsOnTime t) l × NoneBefore t rest
servers_from t [] rest h = (tt, h)
servers_from t (s ∷ l) rest h =
    let (later, others) = servers_from t l rest (λ i u e. h (suc i) u e) in
    ((server_time-IsOnTime t s (λ u e. h 0 u (ap (λ x. some x) e)), later), others)

from_servers :
    (now : ℕ) (l : List Server) (rest : List (Option ℕ))
    → All (IsOnTime now) l
    → NoneBefore now rest
    → NoneBefore now (map server_time l ++ rest)
from_servers now [] rest h k i u e = k i u e
from_servers now (s ∷ l) rest h k zero u e = IsOnTime-server_time now s u h.0 (some_inj e)
from_servers now (s ∷ l) rest h k (suc i) u e = from_servers now l rest h.1 k i u e

times_from : (t : ℕ) (sys : System) → NoneBefore t (actor_times sys) → IsTimely t sys
unfolding actor_times
times_from t sys h =
    let (servers, rest) = servers_from t sys.servers (network_time sys.network ∷ []) h in
    (servers, network_time-IsAhead t sys.network (λ u e. rest 0 u (ap (λ x. some x) e)))

from_times : (now : ℕ) (sys : System) → IsTimely now sys → NoneBefore now (actor_times sys)
unfolding actor_times
from_times now sys (h, k) = from_servers now sys.servers (network_time sys.network ∷ []) h last
  where
    last : NoneBefore now (network_time sys.network ∷ [])
    last zero u e = IsAhead-network_time now sys.network u k (some_inj e)
    last (suc i) u e = cc

-- The next step is not before now, and at its time nothing else is late.
next_step-IsTimely :
    (now : ℕ) (sys : System) (next : NextStep)
    → IsTimely now sys
    → find_next_step (actor_times sys) ≡ some next
    → (now ≤ next.time) × IsTimely next.time sys
next_step-IsTimely now sys next h e = elim (find_next_step_lem (actor_times sys)) [
  | inl q ↦ cc
  | inr (r, eq, here, all) ↦
      let same : r ≡ next = cc in
      subst (λ (n : NextStep). (now ≤ n.time) × IsTimely n.time sys) same
        (
          from_times now sys h r.actor_index r.time here,
          times_from r.time sys (λ i u f. not_after r i u (all i u f)),
        )
]
  where
    not_after : (r : NextStep) (i u : ℕ) → NotAfter r i u → r.time ≤ u
    not_after r i u (inl q) = omega arith
    not_after r i u (inr q) = omega (arith, q.0)

forwarded : (future now : ℕ) → Ensures (λ n. (n ≡ future) × (now ≤ n)) (fast_forward_to future now)
unfolding fast_forward_to
forwarded future now = elim (Bool-cases (ltb future now)) [
  | inl e ↦ rw e tt
  | inr e ↦ rw e (refl, ground (arith, e))
]

-- What holds under a condition on the arguments alone.
given :
    {A : Type 0} (C : Type 0) (P : A → Type 0) (m : Outcome A)
    → (C → Ensures P m)
    → Ensures (λ a. C → P a) m
given C P (ok a) h = h
given C P panic h = tt

module _ (w : Hashes) (p : Programs) (horizon : ℕ) where
  -- Up to the horizon the timers that the programs set and the flights of the packets end below 2^64.
  abbrev pub IsPunctual : Type 0
  IsPunctual =
      ((now j : ℕ) (task : Task) (sys : System)
        → now ≤ horizon
        → AllFit now j (p.code j now task sys) sys)
      × ((now : ℕ) (sys : System) → now ≤ horizon → now + p.flight_time now sys < 2 ^ 64)

  step_server-IsTimely :
      (now j : ℕ) (s : Server) (sys : System)
      → IsPunctual
      → now ≤ horizon
      → IsOnTime now s
      → IsTimely now sys
      → Ensures (IsTimely now) (step_server w p j now s sys)
  unfolding step_server
  step_server-IsTimely now j s sys f b k (h, a) =
      Option-Ensures (IsTimely now) (Server.take_task s) _ _ tt λ r e.
        let sys' : System = record sys { servers = set sys.servers j r.1 } in
        run_code-IsTimely now j (p.code j now r.0 sys') sys' (f.0 now j r.0 sys' b)
          (All-set (IsOnTime now) sys.servers j r.1 h (take_task-IsOnTime now s r.0 r.1 k e), a)

  receive-IsTimely :
      (now : ℕ) (d : Delivery) (sys : System)
      → IsPunctual
      → now ≤ horizon
      → IsTimely now sys
      → Ensures (IsTimely now) (receive w p now d sys)
  unfolding receive
  receive-IsTimely now d sys f b h = Option-Ensures (IsTimely now) d.back _ _ tt λ out e.
      transport-IsTimely now d.receiver
        (λ t net. Transport.handle_packet d.packet out now (p.flight_time now sys) t net) sys h
        λ C t q k.
          handle_packet-Kept C now d.packet out (p.flight_time now sys) t sys.network
            (f.1 now sys b) q k

  step_network-IsTimely :
      (now : ℕ) (sys : System)
      → IsPunctual
      → now ≤ horizon
      → IsTimely now sys
      → Ensures (IsTimely now) (step_network w p now sys)
  unfolding step_network
  step_network-IsTimely now sys f b (h, k) =
      >>=-Ensures (λ (r : Option Delivery × Network). IsAhead now r.1) (IsTimely now) _ _
        (step-IsAhead w now sys.network k)
        λ r k'.
          Option-Ensures (IsTimely now) r.0 _ _ (h, k')
            λ d e. receive-IsTimely now d (record sys { network = r.1 }) f b (h, k')

  step_actor-IsTimely :
      (i now : ℕ) (sys : System)
      → IsPunctual
      → now ≤ horizon
      → IsTimely now sys
      → Ensures (IsTimely now) (step_actor w p i now sys)
  unfolding step_actor
  step_actor-IsTimely i now sys f b h =
      Option-Ensures (IsTimely now) (get_elem? sys.servers i) _ _
        (step_network-IsTimely now sys f b h)
        λ s e.
          step_server-IsTimely now i s sys f b (All-get_elem? (IsOnTime now) sys.servers i s h.0 e)
            h

  -- A world after another: the time has not gone back, nothing that can run is late, and so the check of
  -- the time in the next step holds.
  abbrev pub IsOnward : World System → World System → Type 0
  IsOnward earlier later =
      (earlier.now ≤ later.now)
      × IsTimely later.now later.actors
      × ((next : NextStep)
          → find_next_step (actor_times later.actors) ≡ some next
          → fast_forward_to next.time later.now ≡ ok next.time)

  prompt :
      (now : ℕ) (sys : System)
      → IsTimely now sys
      → (next : NextStep) → find_next_step (actor_times sys) ≡ some next
      → fast_forward_to next.time now ≡ ok next.time
  unfolding fast_forward_to
  prompt now sys k next e =
      let (ahead, _) = next_step-IsTimely now sys next k e in
      let check : ltb next.time now ≡ false = ground arith in rw check refl

  -- The time has not gone back, and up to the horizon nothing is late.
  abbrev IsForward : World System → World System → Type 0
  IsForward earlier later =
      (earlier.now ≤ later.now) × (later.now ≤ horizon → IsTimely later.now later.actors)

  step-IsForward :
      (world : World System)
      → IsPunctual
      → (world.now ≤ horizon → IsTimely world.now world.actors)
      → Ensures (λ (r : Bool × World System). IsForward world r.1) (step w (actors w p) world)
  unfolding step
  step-IsForward world f h =
      Option-Ensures (λ (r : Bool × World System). IsForward world r.1)
        (find_next_step (actor_times world.actors)) _ _ (omega arith, h)
        λ next e.
          >>=-Ensures (λ n. (n ≡ next.time) × (world.now ≤ n))
            (λ (r : Bool × World System). IsForward world r.1) (fast_forward_to next.time world.now)
            _ (forwarded next.time world.now)
            λ n (same, later).
              >>=-Ensures (λ sys. n ≤ horizon → IsTimely n sys)
                (λ (r : Bool × World System). IsForward world r.1) _ _
                (given (n ≤ horizon) (IsTimely n) _ λ b.
                  step_actor-IsTimely next.actor_index n world.actors f b (
                    subst (λ t. IsTimely t world.actors) (sym same)
                      (next_step-IsTimely world.now world.actors next (h (omega (arith, later, b)))
                        e).1))
                λ sys k. (later, k)

  make_steps-IsForward :
      (n : ℕ) (world : World System)
      → IsPunctual
      → (world.now ≤ horizon → IsTimely world.now world.actors)
      → Ensures (λ (r : ℕ × World System). IsForward world r.1) (make_steps w (actors w p) n world)
  unfolding make_steps
  make_steps-IsForward zero world f h = (omega arith, h)
  make_steps-IsForward (suc n) world f h =
      >>=-Ensures (λ (r : Bool × World System). IsForward world r.1)
        (λ (r : ℕ × World System). IsForward world r.1) _ _ (step-IsForward world f h)
        λ r q.
          Bool-Ensures (λ (r : ℕ × World System). IsForward world r.1) r.0 _ _
            (>>=-Ensures (λ (r' : ℕ × World System). IsForward r.1 r'.1)
              (λ (r : ℕ × World System). IsForward world r.1) _ _ (make_steps-IsForward n r.1 f q.1)
              λ r' q'. (omega (arith, q.0, q'.0), q'.1))
            q

  -- From a world in which nothing that can run is late, with programs whose timers, and a network whose packets,
  -- end below 2^64 as long as the time has not passed a horizon, whatever the programs and the
  -- adversaries do: after steps that have not passed the horizon, virtual time has not gone back, again
  -- nothing that can run is late, and the check in FastForwardTo of a further step holds.
  pub make_steps-IsOnward :
      (n m : ℕ) (world world' : World System)
      → IsPunctual
      → IsTimely world.now world.actors
      → make_steps w (actors w p) n world ≡ ok (m, world')
      → world'.now ≤ horizon
      → IsOnward world world'
  make_steps-IsOnward n m world world' f h runs b =
      let (later, timely) =
        ensured (λ (r : ℕ × World System). IsForward world r.1) (make_steps w (actors w p) n world)
          (m, world') (make_steps-IsForward n world f (λ _. h)) runs in
      (later, timely b, prompt world'.now world'.actors (timely b))

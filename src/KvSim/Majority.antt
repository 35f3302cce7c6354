-- ===== src/KvSim/Majority.antt =====
-- The adversaries of the nodes leave a majority of the servers alive.
use whirl_matrix.Base.{
  bit, count_where, ℕ, zero, suc, ◌+◌, ◌≤◌, ◌<◌, ◌≡◌, refl, inl, inr, Bool, true, false, some, List,
  [], ◌∷◌, arith, Bool-cases, Outcome, ok, length, length-set, get_elem?, get_elem?-lt, set, All,
}
use whirl_matrix.Scheduler.Pauses.{resume-delay}
use whirl_matrix.Server.{
  Server, ServerState, initial, running, paused, crashed, state_eq, is_alive, crash, fast_reboot,
  pause, resume, adjust_wall_clock,
}
use whirl_matrix.Server.Life.{fast_reboot_lem}
use whirl_matrix.KvNode.{majority}
use whirl_matrix.KvSim.{
  at_victim, reap, resume_victim, Action, reaps, reboots, freezes, thaws, adjusts, act, run_actions,
  crash_bound, is_reap, victim_of,
}

-- A change that succeeds, and kills the server only if it may.
abbrev Keeps : ℕ → (Server → Outcome Server) → Server → Type 0
Keeps lost change s =
    (s' : Server) × (change s ≡ ok s') × (bit (is_alive s) ≤ bit (is_alive s') + lost)

count-set :
    (p : Server → Bool) (l : List Server) (i : ℕ) (x y : Server) (lost : ℕ)
    → get_elem? l i ≡ some x
    → bit (p x) ≤ bit (p y) + lost
    → count_where p l ≤ count_where p (set l i y) + lost
count-set p [] i x y lost e h = cc
count-set p (z ∷ l) zero x y lost e h =
    let same : p z ≡ p x = ground arith in rw same (omega (arith, h))
count-set p (z ∷ l) (suc i) x y lost e h = omega (arith, count-set p l i x y lost e h)

at_victim-Keeps :
    (i lost : ℕ) (change : Server → Outcome Server) (servers : List Server)
    → i < length servers
    → ((s : Server) → Keeps lost change s)
    → (servers' : List Server) × (at_victim i change servers ≡ ok servers')
      × (length servers' ≡ length servers)
      × (count_where is_alive servers ≤ count_where is_alive servers' + lost)
unfolding at_victim
at_victim-Keeps i lost change servers h keeps =
    let (s, at_i) = get_elem?-lt servers i h in
    let (s', done, alive) = keeps s in
    (
      set servers i s',
      rw (at_i, at_victim) (rw (done, at_victim) refl),
      length-set servers i s',
      count-set is_alive servers i s s' lost at_i alive,
    )

dead_stays :
    (lost : ℕ) (change : Server → Outcome Server) (s : Server)
    → is_alive s ≡ false
    → change s ≡ ok s
    → Keeps lost change s
dead_stays lost change s dead e = (s, e, omega arith)

reap_at : (state : ServerState) (s : Server) → Keeps 1 reap (record s { state = state })
unfolding reap crash is_alive state_eq
reap_at initial s = (_, refl, omega arith)
reap_at running s = (_, refl, omega arith)
reap_at paused s = (_, refl, omega arith)
reap_at crashed s = (_, refl, omega arith)

reap-Keeps : (s : Server) → Keeps 1 reap s
reap-Keeps s = reap_at s.state s

running-alive : (s s' : Server) → s'.state ≡ running → bit (is_alive s) ≤ bit (is_alive s') + 0
unfolding is_alive state_eq
running-alive s s' e = ground (arith, e)

dead_reboot : (init now : ℕ) (s : Server) → is_alive s ≡ false → fast_reboot init now s ≡ ok s
unfolding fast_reboot
dead_reboot init now s e = rw (e, fast_reboot) refl

reboot-Keeps : (init now : ℕ) (s : Server) → Keeps 0 (fast_reboot init now) s
reboot-Keeps init now s = elim (Bool-cases (is_alive s)) [
  | inl e ↦ let r = fast_reboot_lem init now s e in (r.0, r.1, running-alive s r.0 r.2)
  | inr e ↦ dead_stays 0 (fast_reboot init now) s e (dead_reboot init now s e)
]

pause_at :
    (state : ServerState) (s : Server) → Keeps 0 (λ s. ok (pause s)) (record s { state = state })
unfolding pause is_alive state_eq
pause_at initial s = (_, refl, omega arith)
pause_at running s = (_, refl, omega arith)
pause_at paused s = (_, refl, omega arith)
pause_at crashed s = (_, refl, omega arith)

pause-Keeps : (s : Server) → Keeps 0 (λ s. ok (pause s)) s
pause-Keeps s = pause_at s.state s

thaw_at :
    (now : ℕ) (state : ServerState) (s : Server)
    → Keeps 0 (resume_victim now) (record s { state = state })
unfolding resume_victim resume is_alive state_eq
thaw_at now initial s = (_, refl, omega arith)
thaw_at now running s = (_, refl, omega arith)
thaw_at now crashed s = (_, refl, omega arith)
thaw_at now paused s =
    let r = resume-delay now s.transport.scheduler in
    (
      record s { transport = record s.transport { scheduler = r.0 }; state = running },
      rw (r.1, resume_victim, resume) refl,
      omega arith,
    )

thaw-Keeps : (now : ℕ) (s : Server) → Keeps 0 (resume_victim now) s
thaw-Keeps now s = thaw_at now s.state s

adjust-Keeps : (offset : ℕ) (s : Server) → Keeps 0 (λ s. ok (adjust_wall_clock offset s)) s
unfolding adjust_wall_clock is_alive
adjust-Keeps offset s = (_, refl, omega arith)

abbrev Acts : Action → List Server → Type 0
Acts a servers =
    (servers' : List Server) × (act a servers ≡ ok servers')
    × (length servers' ≡ length servers)
    × (count_where is_alive servers ≤ count_where is_alive servers' + bit (is_reap a))

act-Acts : (a : Action) (servers : List Server) → victim_of a < length servers → Acts a servers
unfolding act is_reap victim_of
act-Acts (reaps i) servers h = at_victim-Keeps i 1 reap servers h reap-Keeps
act-Acts (reboots i init now) servers h =
    at_victim-Keeps i 0 (fast_reboot init now) servers h (reboot-Keeps init now)
act-Acts (freezes i) servers h = at_victim-Keeps i 0 (λ s. ok (pause s)) servers h pause-Keeps
act-Acts (thaws i now) servers h =
    at_victim-Keeps i 0 (resume_victim now) servers h (thaw-Keeps now)
act-Acts (adjusts i offset) servers h =
    at_victim-Keeps i 0 (λ s. ok (adjust_wall_clock offset s)) servers h (adjust-Keeps offset)

run_actions-count :
    (n : ℕ) (actions : List Action) (servers : List Server)
    → length servers ≡ n
    → All (λ a. victim_of a < n) actions
    → (servers' : List Server) × (run_actions actions servers ≡ ok servers')
      × (count_where is_alive servers ≤ count_where is_alive servers' + count_where is_reap actions)
unfolding run_actions
run_actions-count n [] servers e h = (servers, refl, omega arith)
run_actions-count n (a ∷ actions) servers e (h, hs) =
    let (servers', done, long, alive) = act-Acts a servers (omega arith) in
    let (end, runs, still) = run_actions-count n actions servers' (omega arith) hs in
    (end, rw done runs, omega (arith, alive, still))

all_alive :
    (servers : List Server)
    → All (λ s. is_alive s ≡ true) servers
    → length servers ≤ count_where is_alive servers
all_alive [] h = omega arith
all_alive (s ∷ servers) (h, hs) = rw h (omega (arith, all_alive servers hs))

-- Let all servers of a pool, which is not empty, be alive. Whatever reboots, freezes, thaws and adjusted clocks
-- come between the turns of the reaper, in any order and on any servers of the pool, if the turns of the reaper are
-- within its budget then no action fails and at least a majority of the servers, as the
-- coordinator counts it, is alive.
pub reaper-spares-majority :
    (actions : List Action) (servers : List Server)
    → 0 < length servers
    → All (λ s. is_alive s ≡ true) servers
    → All (λ a. victim_of a < length servers) actions
    → count_where is_reap actions ≤ crash_bound (length servers)
    → (servers' : List Server) × (run_actions actions servers ≡ ok servers')
      × (majority (length servers) ≤ count_where is_alive servers')
unfolding majority crash_bound
reaper-spares-majority actions servers some_server alive valid budget =
    let (servers', runs, still) = run_actions-count (length servers) actions servers refl valid in
    (servers', runs, omega (arith, still, all_alive servers alive))

-- ===== src/KvNode.antt =====
-- examples/kv/node/main.cpp: a replicated key-value store. Each node has a storage replica; a
-- coordinator sends a stamped value to every replica, or asks every replica for its value, and waits for the
-- answers of a majority. `KVStore` of the node library, by which a replica keeps its values, is a
-- parameter. The calls between the nodes are messages that arrive at any time, in any order and
-- more than once: the events of a run.
pub mod Quorums
pub mod Recency
use Prim.Native.String.{String}
use text.Mathlib.Text.{◌==◌ as str_eq}
use whirl_matrix.Base.{
  ℕ, zero, suc, ◌+◌, ◌/◌, ◌≡◌, Bool, true, false, ◌||◌, Option, none, some, List, [], ◌∷◌, ◌++◌,
  map, ltb, ◌==◌, if◌then◌else◌, length,
}

pub record StampedValue : Type 0 where
  pub value : String
  pub timestamp : ℕ

-- A store of the node library, and what `Put` does to `TryGet`.
pub record KvStore (S : Type 0) : Type 0 where
  pub put : String → StampedValue → S → S
  pub try_get : String → S → Option StampedValue
  pub try_get-put :
      (k j : String) (v : StampedValue) (s : S)
      → try_get j (put k v s) ≡ (if str_eq k j then some v else try_get j s)

-- `operator<` of the timestamps.
unfoldable pub older : StampedValue → StampedValue → Bool
older lhs rhs = ltb lhs.timestamp rhs.timestamp

abbrev pub initial_value : StampedValue
initial_value = record { value = ""; timestamp = 0 }

module _ {S : Type 0} ⦃o : KvStore S⦄ where
  -- Replica::LocalWrite
  unfoldable pub local_write : String → StampedValue → S → S
  unfolding older
  local_write key target_value s = elim (o.try_get key s) [
    | none ↦ o.put key target_value s
    | some local_value ↦ if older local_value target_value then o.put key target_value s else s
  ]

  -- Replica::LocalRead
  unfoldable pub local_read : String → S → StampedValue
  local_read key s = elim (o.try_get key s) [ none ↦ initial_value | some v ↦ v ]

-- std::max_element: the first of the largest.
unfoldable pub max_from : StampedValue → List StampedValue → StampedValue
unfolding older
max_from best [] = best
max_from best (v ∷ values) = max_from (if older best v then v else best) values

-- On no value the source is undefined.
unfoldable pub find_most_recent : List StampedValue → Option StampedValue
unfolding max_from
find_most_recent [] = none
find_most_recent (v ∷ values) = some (max_from v values)

unfoldable pub majority : ℕ → ℕ
majority node_count = node_count / 2 + 1

-- A request that arrives at the replica of a node.
pub data Event : Type 0 where
  writes : ℕ → String → StampedValue → Event
  reads : ℕ → String → Event

-- Coordinator::Set and Get: the requests to all peers, the node itself among them.
unfoldable pub set_requests : String → String → ℕ → List ℕ → List Event
set_requests key value write_ts peers =
    map (λ i. writes i key (record { value = value; timestamp = write_ts })) peers

unfoldable pub get_requests : String → List ℕ → List Event
get_requests key peers = map (λ i. reads i key) peers

-- The replicas by their nodes.
abbrev pub update {ℓ} : {A : Type ℓ} → (ℕ → A) → ℕ → A → ℕ → A
update f i a j = if i == j then a else f j

-- The answers of the replicas to the reads of a key, in the order of the events.
pub record Answer : Type 0 where
  pub node : ℕ
  pub key : String
  pub stamped : StampedValue

module _ {S : Type 0} ⦃o : KvStore S⦄ where
  unfoldable pub arrives : Event → (ℕ → S) → ℕ → S
  unfolding local_write
  arrives (writes i key v) replicas = update replicas i (local_write key v (replicas i))
  arrives (reads i key) replicas = replicas

  unfoldable pub answer_of : Event → (ℕ → S) → List Answer
  unfolding local_read
  answer_of (writes i key v) replicas = []
  answer_of (reads i key) replicas =
      record { node = i; key = key; stamped = local_read key (replicas i) } ∷ []

  unfoldable pub run_events : List Event → (ℕ → S) → ℕ → S
  unfolding arrives
  run_events [] replicas = replicas
  run_events (e ∷ es) replicas = run_events es (arrives e replicas)

  unfoldable pub answers : List Event → (ℕ → S) → List Answer
  unfolding answer_of arrives
  answers [] replicas = []
  answers (e ∷ es) replicas = answer_of e replicas ++ answers es (arrives e replicas)

-- Get, once its quorum of answers has been collected.
unfoldable pub get_result : List Answer → Option StampedValue
unfolding find_most_recent
get_result quorum = find_most_recent (map (λ (a : Answer). a.stamped) quorum)

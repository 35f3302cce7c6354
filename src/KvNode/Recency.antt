-- ===== src/KvNode/Recency.antt =====
-- What a read sees of a write that a majority has acknowledged.
use Prim.Native.String.{String}
use text.Mathlib.TextEquality.{eq_iff}
use text.Mathlib.TextPositions.{eq_refl}
use mathlib.Core.Path.{subst}
use whirl_matrix.Base.{
  ℕ, ◌≤◌, ◌≡◌, ◌⊎◌, inl, inr, refl, sym, true, some, List, [], ◌∷◌, arith, All, All-map, ==_iff,
  Bool-cases, if◌then◌else◌, length, ◌==◌, ==_refl, map,
}
use whirl_matrix.KvNode.{
  StampedValue, KvStore, older, local_write, local_read, max_from, find_most_recent, majority,
  Event, writes, reads, Answer, arrives, answer_of, run_events, answers, get_result,
}
use whirl_matrix.KvNode.Quorums.{elem, Apart, Below, majorities_meet}

module _ {S : Type 0} ⦃o : KvStore S⦄ where
  -- A write moves no timestamp back, and leaves its key with its own or a later one.
  local_write-newer :
      (key j : String) (v : StampedValue) (s : S)
      → (local_read j s).timestamp ≤ (local_read j (local_write key v s)).timestamp
  unfolding local_write local_read older
  local_write-newer key j v s = ground (arith, o.try_get-put key j v s, eq_iff key j)

  local_write-own :
      (key : String) (v : StampedValue) (s : S)
      → v.timestamp ≤ (local_read key (local_write key v s)).timestamp
  unfolding local_write local_read older
  local_write-own key v s = ground (arith, o.try_get-put key key v s, eq_refl key)

-- The timestamp that a node has for a key.
abbrev pub stamp : {S : Type 0} → ⦃o : KvStore S⦄ → String → (ℕ → S) → ℕ → ℕ
stamp key replicas i = (local_read key (replicas i)).timestamp

abbrev pub Occurs : {A : Type 0} → A → List A → Type 0
Occurs x [] = ⊥
Occurs x (y ∷ ys) = (x ≡ y) ⊎ Occurs x ys

module _ {S : Type 0} ⦃o : KvStore S⦄ where
  arrives-newer :
      (e : Event) (key : String) (replicas : ℕ → S) (i : ℕ)
      → stamp key replicas i ≤ stamp key (arrives e replicas) i
  unfolding arrives
  arrives-newer (writes j k v) key replicas i = elim (Bool-cases (j == i)) [
    | inl e ↦
        let same : j ≡ i = ground (arith, ==_iff j i) in
        rw (e, stamp) (rw same (local_write-newer k key v (replicas i)))
    | inr e ↦ rw (e, stamp) (omega arith)
  ]
  arrives-newer (reads j k) key replicas i = omega arith

  run_events-newer :
      (es : List Event) (key : String) (replicas : ℕ → S) (i : ℕ)
      → stamp key replicas i ≤ stamp key (run_events es replicas) i
  unfolding run_events
  run_events-newer [] key replicas i = omega arith
  run_events-newer (e ∷ es) key replicas i =
      omega (arith, arrives-newer e key replicas i, run_events-newer es key (arrives e replicas) i)

  arrives-own :
      (i : ℕ) (key : String) (v : StampedValue) (replicas : ℕ → S)
      → v.timestamp ≤ stamp key (arrives (writes i key v) replicas) i
  unfolding arrives
  arrives-own i key v replicas = rw (==_refl i, stamp) (local_write-own key v (replicas i))

  run_events-own :
      (i : ℕ) (key : String) (v : StampedValue) (es : List Event) (replicas : ℕ → S)
      → Occurs (writes i key v) es
      → v.timestamp ≤ stamp key (run_events es replicas) i
  unfolding run_events
  run_events-own i key v [] replicas h = absurd h
  run_events-own i key v (e ∷ es) replicas (inl h) =
      subst (λ (x : Event). v.timestamp ≤ stamp key (run_events es (arrives x replicas)) i) h
        (omega (
          arith,
          arrives-own i key v replicas,
          run_events-newer es key (arrives (writes i key v) replicas) i,
        ))
  run_events-own i key v (e ∷ es) replicas (inr h) =
      run_events-own i key v es (arrives e replicas) h

  answers-newer :
      (es : List Event) (replicas : ℕ → S)
      → All
          (λ (a : Answer). stamp a.key replicas a.node ≤ a.stamped.timestamp)
          (answers es replicas)
  unfolding answers answer_of
  answers-newer [] replicas = tt
  answers-newer (writes i k v ∷ es) replicas =
      All-map _ _ _ (λ a h. omega (arith, h, arrives-newer (writes i k v) a.key replicas a.node))
        (answers-newer es (arrives (writes i k v) replicas))
  answers-newer (reads i k ∷ es) replicas = (
    omega arith,
    All-map _ _ _ (λ a h. omega (arith, h, arrives-newer (reads i k) a.key replicas a.node))
        (answers-newer es (arrives (reads i k) replicas)),
  )

All-Occurs {κ} : {A : Type 0} → (P : A → Type κ) (x : A) (l : List A) → All P l → Occurs x l → P x
All-Occurs P x [] h k = absurd k
All-Occurs P x (y ∷ l) h (inl e) = subst P (sym e) h.0
All-Occurs P x (y ∷ l) h (inr k) = All-Occurs P x l h.1 k

elem-Occurs : (i : ℕ) (l : List ℕ) → elem i l ≡ true → Occurs i l
elem-Occurs i [] h = cc
elem-Occurs i (x ∷ l) h = elim (Bool-cases (x == i)) [
  | inl e ↦ inl (ground (arith, ==_iff x i))
  | inr e ↦ inr (elem-Occurs i l (ground arith))
]

abbrev stamps : List Answer → List StampedValue
stamps q = map (λ (a : Answer). a.stamped) q

abbrev pub nodes : List Answer → List ℕ
nodes q = map (λ (a : Answer). a.node) q

later : StampedValue → StampedValue → StampedValue
unfolding older
later best v = if older best v then v else best

later-both :
    (best v : StampedValue)
    → (best.timestamp ≤ (later best v).timestamp) × (v.timestamp ≤ (later best v).timestamp)
unfolding later older
later-both best v = ground arith

max_from-latest :
    (best : StampedValue) (vs : List StampedValue)
    → (best.timestamp ≤ (max_from best vs).timestamp)
      × All (λ (v : StampedValue). v.timestamp ≤ (max_from best vs).timestamp) vs
unfolding max_from later
max_from-latest best [] = (omega arith, tt)
max_from-latest best (v ∷ vs) =
    let (h, k) = max_from-latest (later best v) vs in
    let (p, q) = later-both best v in (omega (arith, h, p), (omega (arith, h, q), k))

at_node :
    (q : List Answer) (i t m : ℕ)
    → elem i (nodes q) ≡ true
    → All (λ (a : Answer). a.node ≡ i → t ≤ a.stamped.timestamp) q
    → All (λ (v : StampedValue). v.timestamp ≤ m) (stamps q)
    → t ≤ m
at_node [] i t m h k l = cc
at_node (a ∷ q) i t m h (k, ks) (l, ls) = elim (Bool-cases (a.node == i)) [
  | inl e ↦ omega (arith, k (ground (arith, ==_iff a.node i)), l)
  | inr e ↦ at_node q i t m (ground arith) ks ls
]

get_result-latest :
    (q : List Answer) (i t : ℕ)
    → elem i (nodes q) ≡ true
    → All (λ (a : Answer). a.node ≡ i → t ≤ a.stamped.timestamp) q
    → (r : StampedValue) × (get_result q ≡ some r) × (t ≤ r.timestamp)
unfolding get_result find_most_recent
get_result-latest [] i t h k = cc
get_result-latest (a ∷ q) i t h k =
    let r = max_from a.stamped (stamps q) in
    let (l, ls) = max_from-latest a.stamped (stamps q) in
    (r, refl, at_node (a ∷ q) i t r.timestamp h k (l, ls))

of_node :
    {S : Type 0}
    → ⦃o : KvStore S⦄
    → (key : String) (replicas : ℕ → S) (l : List Answer) (i t : ℕ) (q : List Answer)
    → t ≤ stamp key replicas i
    → All (λ (a : Answer). stamp a.key replicas a.node ≤ a.stamped.timestamp) l
    → All (λ (a : Answer). (a.key ≡ key) × Occurs a l) q
    → All (λ (a : Answer). a.node ≡ i → t ≤ a.stamped.timestamp) q
of_node key replicas l i t [] h g k = tt
of_node key replicas l i t (a ∷ q) h g ((same, k), ks) =
    let sees = All-Occurs _ a l g k in
    (
      λ e.
          let sees_key : stamp key replicas a.node ≤ a.stamped.timestamp =
            subst (λ x. stamp x replicas a.node ≤ a.stamped.timestamp) same sees in
          let sees_node : stamp key replicas i ≤ a.stamped.timestamp =
            subst (λ x. stamp key replicas x ≤ a.stamped.timestamp) e sees_key in
          omega (arith, h, sees_node),
      of_node key replicas l i t q h g ks,
    )

module _ {S : Type 0} ⦃o : KvStore S⦄ where
  -- Let a stamped value have arrived at a majority of the nodes, whatever else arrived before, between and
  -- after. A Get that collects the answers of any majority of the nodes, all of them given later, returns a
  -- value whose timestamp is not before that of the written one.
  pub get-sees-set :
      (n : ℕ) (key : String) (v : StampedValue) (replicas : ℕ → S)
      → (before after : List Event) (acks : List ℕ) (quorum : List Answer) → Apart acks
      → Below n acks
      → majority n ≤ length acks
      → All (λ i. Occurs (writes i key v) before) acks
      → Apart (nodes quorum)
      → Below n (nodes quorum)
      → majority n ≤ length (nodes quorum)
      → All
          (λ (a : Answer). (a.key ≡ key) × Occurs a (answers after (run_events before replicas)))
          quorum
      → (r : StampedValue) × (get_result quorum ≡ some r) × (v.timestamp ≤ r.timestamp)
  get-sees-set n key v replicas before after acks quorum pa ba ma wa pq bq mq aq =
      let (i, ia, iq) = majorities_meet n acks (nodes quorum) pa pq ba bq ma mq in
      let now = run_events before replicas in
      let has : v.timestamp ≤ stamp key now i =
        run_events-own i key v before replicas (All-Occurs _ i acks wa (elem-Occurs i acks ia)) in
      get_result-latest quorum i v.timestamp iq
        (of_node key now (answers after now) i v.timestamp quorum has (answers-newer after now) aq)

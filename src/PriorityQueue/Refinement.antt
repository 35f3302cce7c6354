-- ===== src/PriorityQueue/Refinement.antt =====
-- What the queue promises: it behaves as the list of its items in which a new item goes behind
-- every item that is not greater, and which is read from the front. The tie breakers are gone.
use whirl_matrix.Base.{
  ℕ, ◌+◌, ◌≤◌, ◌<◌, ◌≡◌, ◌≢◌, refl, ap, ◌∙◌, Option, none, some, List, [], ◌∷◌, map, arith, All,
  if◌then◌else◌,
}
use whirl_matrix.PriorityQueue.{
  StrictWeak, Entry, PriorityQueue, before, empty, insert, extract, clear,
}
use whirl_matrix.PriorityQueue.Sorting.{
  Distinct, place, sort, sort-All, sort-take_top, take_top-All, take_top-Distinct,
}

-- The tie breakers are distinct, and the next one is larger than all.
pub record IsFresh {ℓ} {T : Type ℓ} (q : PriorityQueue T) : Type ℓ where
  pub below : All (λ (e : Entry T). e.tie_braker ≤ q.inserts) q.items
  pub distinct : Distinct q.items

module _ {ℓ} {T : Type ℓ} where
  pub empty-IsFresh : IsFresh (empty {T = T})
  unfolding empty
  empty-IsFresh = record { below = tt; distinct = tt }

  pub clear-IsFresh : (q : PriorityQueue T) → IsFresh (clear q)
  unfolding clear
  clear-IsFresh q = record { below = tt; distinct = tt }

  below-apart :
      (n : ℕ) (l : List (Entry T))
      → All (λ (e : Entry T). e.tie_braker ≤ n) l
      → All (λ (e : Entry T). n + 1 ≢ e.tie_braker) l
  below-apart n [] h = tt
  below-apart n (e ∷ l) h = (λ q. omega arith, below-apart n l h.1)

  below_mono :
      (n : ℕ) (l : List (Entry T))
      → All (λ (e : Entry T). e.tie_braker ≤ n) l
      → All (λ (e : Entry T). e.tie_braker ≤ n + 1) l
  below_mono n [] h = tt
  below_mono n (e ∷ l) h = (omega arith, below_mono n l h.1)

  pub insert-IsFresh : (x : T) (q : PriorityQueue T) → IsFresh q → IsFresh (insert x q)
  unfolding insert
  insert-IsFresh x q v = record {
    below = (omega arith, below_mono q.inserts q.items v.below);
    distinct = (below-apart q.inserts q.items v.below, v.distinct);
  }

  below_lt :
      (n : ℕ) (l : List (Entry T))
      → All (λ (e : Entry T). e.tie_braker ≤ n) l
      → All (λ (e : Entry T). e.tie_braker < n + 1) l
  below_lt n [] h = tt
  below_lt n (e ∷ l) h = (omega arith, below_lt n l h.1)

module _ {ℓ} {T : Type ℓ} ⦃o : StrictWeak T⦄ where
  -- The items, in the order in which they leave.
  pub view : PriorityQueue T → List T
  unfolding sort
  view q = map (λ (e : Entry T). e.item) (sort q.items)

  -- Behind every item that is not greater.
  pub insert_stable : T → List T → List T
  insert_stable x [] = x ∷ []
  insert_stable x (y ∷ l) = if o.less x y then x ∷ y ∷ l else y ∷ insert_stable x l

  place-insert_stable :
      (e : Entry T) (l : List (Entry T))
      → All (λ (y : Entry T). y.tie_braker < e.tie_braker) l
      → map (λ (y : Entry T). y.item) (place e l)
        ≡ insert_stable e.item (map (λ (y : Entry T). y.item) l)
  unfolding place insert_stable before
  place-insert_stable e [] h = refl
  place-insert_stable e (y ∷ l) h =
      ground (arith, place-insert_stable e l h.1, o.asym e.item y.item, o.asym y.item e.item)

  view-insert :
      (x : T) (q : PriorityQueue T) → IsFresh q → view (insert x q) ≡ insert_stable x (view q)
  unfolding view insert sort
  view-insert x q v =
      place-insert_stable (record { item = x; tie_braker = q.inserts + 1 }) (sort q.items)
        (sort-All (λ (e : Entry T). e.tie_braker < q.inserts + 1) q.items
          (below_lt q.inserts q.items v.below))

  -- What `extract` returns, told by the view.
  abbrev pub Takes : PriorityQueue T → Option (T × PriorityQueue T) → Type ℓ
  Takes q none = view q ≡ []
  Takes q (some (x, q')) = (view q ≡ x ∷ view q') × IsFresh q'

  Takes-of_items :
      (l : List (Entry T)) (n : ℕ)
      → All (λ (e : Entry T). e.tie_braker ≤ n) l
      → Distinct l
      → Takes (record { items = l; inserts = n }) (extract (record { items = l; inserts = n }))
  unfolding extract view
  Takes-of_items [] n h d = unfold sort in refl
  Takes-of_items (x ∷ xs) n h d = (
    ap (map (λ (e : Entry T). e.item)) (sort-take_top x xs d),
    record {
      below = (take_top-All (λ (e : Entry T). e.tie_braker ≤ n) x xs h.0 h.1).1;
      distinct = (take_top-Distinct x xs d).1;
    },
  )

  pub extract-Takes : (q : PriorityQueue T) → IsFresh q → Takes q (extract q)
  extract-Takes q v = Takes-of_items q.items q.inserts v.below v.distinct

-- A sequence of calls, and the results of its extractions (`none` is an extraction from the empty
-- queue, which the source leaves undefined).
pub data Operation {ℓ} (T : Type ℓ) : Type ℓ where
  inserts : T → Operation T
  extracts clears : Operation T

module _ {ℓ} {T : Type ℓ} ⦃o : StrictWeak T⦄ where
  pub run : PriorityQueue T → List (Operation T) → List (Option T)
  unfolding insert clear extract
  run q [] = []
  run q (inserts x ∷ ops) = run (insert x q) ops
  run q (clears ∷ ops) = run (clear q) ops
  run q (extracts ∷ ops) = elim (extract q) [
    | none ↦ none ∷ run q ops
    | some (x, q') ↦ some x ∷ run q' ops
  ]

  pub run_stable : List T → List (Operation T) → List (Option T)
  unfolding insert_stable
  run_stable l [] = []
  run_stable l (inserts x ∷ ops) = run_stable (insert_stable x l) ops
  run_stable l (clears ∷ ops) = run_stable [] ops
  run_stable [] (extracts ∷ ops) = none ∷ run_stable [] ops
  run_stable (x ∷ l) (extracts ∷ ops) = some x ∷ run_stable l ops

  view-clear : (q : PriorityQueue T) → view (clear q) ≡ []
  unfolding view clear sort
  view-clear q = refl

  -- One extraction, given that the runs agree afterwards.
  run-extracts :
      (q : PriorityQueue T) (ops : List (Operation T))
      → ((p : PriorityQueue T) → IsFresh p → run p ops ≡ run_stable (view p) ops)
      → IsFresh q
      → (r : Option (T × PriorityQueue T)) → extract q ≡ r
      → Takes q r
      → run q (extracts ∷ ops) ≡ run_stable (view q) (extracts ∷ ops)
  unfolding run run_stable
  run-extracts q ops ih v none e t =
      rw (e, t, run) (ap (◌∷◌ none) (ih q v ∙ ap (λ l. run_stable l ops) t))
  run-extracts q ops ih v (some (x, q')) e t = rw (e, t.0, run) (ap (◌∷◌ (some x)) (ih q' t.1))

  run-eq_of_view :
      (q : PriorityQueue T) (ops : List (Operation T))
      → IsFresh q
      → run q ops ≡ run_stable (view q) ops
  unfolding run run_stable
  run-eq_of_view q [] v = refl
  run-eq_of_view q (inserts x ∷ ops) v =
      run-eq_of_view (insert x q) ops (insert-IsFresh x q v)
      ∙ ap (λ l. run_stable l ops) (view-insert x q v)
  run-eq_of_view q (clears ∷ ops) v =
      run-eq_of_view (clear q) ops (clear-IsFresh q) ∙ ap (λ l. run_stable l ops) (view-clear q)
  run-eq_of_view q (extracts ∷ ops) v =
      run-extracts q ops (λ p. run-eq_of_view p ops) v (extract q) refl (extract-Takes q v)

  view-empty : view (empty {T = T}) ≡ []
  unfolding view empty sort
  view-empty = refl

  -- Whatever the sequence of insertions, extractions and clearings of a new queue, the extracted
  -- items are those of the list in which each insertion goes behind every item that is not greater:
  -- smallest first, equal items in the order of their insertion.
  pub run-eq-run_stable : (ops : List (Operation T)) → run empty ops ≡ run_stable [] ops
  run-eq-run_stable ops =
      run-eq_of_view empty ops empty-IsFresh ∙ ap (λ l. run_stable l ops) view-empty

-- ===== src/Scheduler/Pauses.antt =====
-- Scheduler::Resume: what a pause of the server does to its tasks.
use whirl_matrix.Base.{
  bit, count_where, ℕ, zero, suc, ◌+◌, ◌≤◌, ◌<◌, ◌≡◌, inl, inr, refl, sym, ap, ◌∙◌, Bool, true,
  false, some, List, [], ◌∷◌, arith, All, Bool-cases, length, ltb, if◌then◌else◌,
}
use whirl_matrix.PriorityQueue.{PriorityQueue, Entry, extract, insert, take_top, size, make_unique}
use whirl_matrix.PriorityQueue.Smallest.{take_top-count, take_top-least}
use whirl_matrix.Scheduler.{ScheduledTask, scheduled_tasks, shift, resume}

-- What a pause that ends at `at` makes of a task.
unfoldable pub delay : {T : Type 0} → ℕ → ScheduledTask T → ScheduledTask T
delay at e = if ltb e.at_time at then record { at_time = at; task = e.task } else e

-- How many tasks of the queue satisfy `p`.
unfoldable pub tasks_where :
    {T : Type 0} → (ScheduledTask T → Bool) → PriorityQueue (ScheduledTask T) → ℕ
tasks_where {T = T} p queue = count_where (λ (e : Entry (ScheduledTask T)). p e.item) queue.items

module _ {T : Type 0} (at : ℕ) (p : ScheduledTask T → Bool) where
  abbrev late : Entry (ScheduledTask T) → Bool
  late e = ltb e.item.at_time at

  delay_once : (e : ScheduledTask T) → ltb e.at_time at ≡ false → delay at e ≡ e
  unfolding delay
  delay_once e h = rw h refl

  delay_late :
      (e : ScheduledTask T)
      → ltb e.at_time at ≡ true
      → delay at e ≡ record { at_time = at; task = e.task }
  unfolding delay
  delay_late e h = rw h refl

  delay_at :
      (t : T) → delay at (record { at_time = at; task = t }) ≡ record { at_time = at; task = t }
  delay_at t = delay_once (record { at_time = at; task = t }) (ground arith)

  count_in_time :
      (l : List (Entry (ScheduledTask T)))
      → All (λ (e : Entry (ScheduledTask T)). ltb e.item.at_time at ≡ false) l
      → count_where (λ (e : Entry (ScheduledTask T)). p e.item) l
        ≡ count_where (λ (e : Entry (ScheduledTask T)). p (delay at e.item)) l
  count_in_time [] h = refl
  count_in_time (e ∷ l) h = rw (delay_once e.item h.0, count_in_time l h.1) refl

  turn_late :
      (n : ℕ) (x : Entry (ScheduledTask T)) (xs : List (Entry (ScheduledTask T))) (inserts : ℕ)
      → ltb (take_top x xs).0.item.at_time at ≡ true
      → shift (suc n) at (record { items = x ∷ xs; inserts = inserts })
        ≡ shift n at (
            insert
              (record { at_time = at; task = (take_top x xs).0.item.task })
              (record { items = (take_top x xs).1; inserts = inserts }))
  unfolding shift extract
  turn_late n x xs inserts h = rw (h, shift) refl

  turn_done :
      (n : ℕ) (x : Entry (ScheduledTask T)) (xs : List (Entry (ScheduledTask T))) (inserts : ℕ)
      → ltb (take_top x xs).0.item.at_time at ≡ false
      → shift (suc n) at (record { items = x ∷ xs; inserts = inserts })
        ≡ some (record { items = x ∷ xs; inserts = inserts })
  unfolding shift extract
  turn_done n x xs inserts h = rw (h, shift) refl

  abbrev Shifted : ℕ → List (Entry (ScheduledTask T)) → ℕ → Type 0
  Shifted n items inserts =
      (q : PriorityQueue (ScheduledTask T)) × (shift n at
          (record { items = items; inserts = inserts })
        ≡ some q)
      × (tasks_where p q ≡ count_where (λ (e : Entry (ScheduledTask T)). p (delay at e.item)) items)

  delay_moved :
      (e : ScheduledTask T)
      → ltb e.at_time at ≡ true
      → delay at (record { at_time = at; task = e.task }) ≡ delay at e
  delay_moved e h = delay_at e.task ∙ sym (delay_late e h)

  shift_bound :
      (n : ℕ) (x : Entry (ScheduledTask T)) (xs : List (Entry (ScheduledTask T))) (inserts : ℕ)
      → ltb (take_top x xs).0.item.at_time at ≡ true
      → count_where late (x ∷ xs) < suc n
      → count_where late (
          make_unique (record { at_time = at; task = (take_top x xs).0.item.task }) inserts
          ∷ (take_top x xs).1)
        < n
  unfolding make_unique
  shift_bound n x xs inserts e h =
      let bound : bit true + count_where late (take_top x xs).1 ≡ count_where late (x ∷ xs) =
        ap (λ b. bit b + count_where late (take_top x xs).1) (sym e) ∙ take_top-count late x xs in
      let here : ltb at at ≡ false = ground arith in rw here (omega arith)

  shift-Shifted_late :
      (n : ℕ) (x : Entry (ScheduledTask T)) (xs : List (Entry (ScheduledTask T))) (inserts : ℕ)
      → ltb (take_top x xs).0.item.at_time at ≡ true
      → Shifted n
          (make_unique (record { at_time = at; task = (take_top x xs).0.item.task }) inserts
            ∷ (take_top x xs).1)
          (inserts + 1)
      → Shifted (suc n) (x ∷ xs) inserts
  unfolding insert make_unique
  shift-Shifted_late n x xs inserts e (q, eq, same) = (
    q,
    turn_late n x xs inserts e ∙ eq,
    same
        ∙ ap
            (λ d.
              bit (p d)
              + count_where (λ (e : Entry (ScheduledTask T)). p (delay at e.item))
                  (take_top x xs).1)
            (delay_moved (take_top x xs).0.item e)
        ∙ take_top-count (λ (e : Entry (ScheduledTask T)). p (delay at e.item)) x xs,
  )

  none_late :
      (t : Entry (ScheduledTask T)) (l : List (Entry (ScheduledTask T)))
      → ltb t.item.at_time at ≡ false
      → All (λ (z : Entry (ScheduledTask T)). ltb z.item.at_time t.item.at_time ≡ false) l
      → All (λ (e : Entry (ScheduledTask T)). ltb e.item.at_time at ≡ false) l
  none_late t [] h k = tt
  none_late t (z ∷ l) h (kz, k) = (ground arith, none_late t l h k)

  shift-Shifted :
      (n : ℕ) (items : List (Entry (ScheduledTask T))) (inserts : ℕ)
      → count_where late items < n
      → Shifted n items inserts
  shift-Shifted zero items inserts h = absurd (omega arith)
  shift-Shifted (suc n) [] inserts h = (
    record { items = []; inserts = inserts },
    unfold shift extract in refl,
    unfold tasks_where in refl,
  )
  shift-Shifted (suc n) (x ∷ xs) inserts h =
      elim (Bool-cases (ltb (take_top x xs).0.item.at_time at)) [
        | inl e ↦
            shift-Shifted_late n x xs inserts e
              (shift-Shifted n _ (inserts + 1) (shift_bound n x xs inserts e h))
        | inr e ↦ (
          _,
          turn_done n x xs inserts e,
          unfold tasks_where in
              count_in_time (x ∷ xs) (none_late (take_top x xs).0 (x ∷ xs) e (take_top-least x xs)),
        )
      ]

module _ {T : Type 0} where
  late_le_length :
      (at : ℕ) (l : List (Entry (ScheduledTask T)))
      → count_where (λ (e : Entry (ScheduledTask T)). ltb e.item.at_time at) l ≤ length l
  late_le_length at [] = omega arith
  late_le_length at (e ∷ l) = ground (arith, late_le_length at l)

  same_of :
      (at : ℕ) (queue : PriorityQueue (ScheduledTask T)) (p : ScheduledTask T → Bool)
      (q : PriorityQueue (ScheduledTask T))
      → shift (length queue.items + 1) at queue ≡ some q
      → tasks_where p q ≡ tasks_where (λ e. p (delay at e)) queue
  same_of at queue p q eq =
      let (r, eq', same) =
        shift-Shifted at p (length queue.items + 1) queue.items queue.inserts
          (omega (arith, late_le_length at queue.items)) in
      let one : q ≡ r = cc in ap (tasks_where p) one ∙ same ∙ unfold tasks_where in refl

  -- Resume ends, and the queue then holds what it held, each task that was due before `at` now due
  -- at `at`: whatever is asked of a task, as many of the queue satisfy it as of the delayed tasks.
  pub resume-delay :
      (at : ℕ) (queue : PriorityQueue (ScheduledTask T))
      → (q : PriorityQueue (ScheduledTask T)) × (resume at queue ≡ some q)
        × ((p : ScheduledTask T → Bool) → tasks_where p q ≡ tasks_where (λ e. p (delay at e)) queue)
  unfolding resume size tasks_where
  resume-delay at queue =
      let any =
        shift-Shifted at (λ e. true) (length queue.items + 1) queue.items queue.inserts
          (omega (arith, late_le_length at queue.items)) in
      (any.0, any.1, λ p. same_of at queue p any.0 any.1)

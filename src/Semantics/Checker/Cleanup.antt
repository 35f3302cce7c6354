-- ===== src/Semantics/Checker/Cleanup.antt =====
-- Leaving out the read-only calls that have not completed changes nothing for linearizability.
use mathlib.Core.Bool.{Bool-discrete, Bool-set}
use mathlib.Core.List.{
  Perm, Pairwise, Mem, filter, mem-cons_self, mem-cons_of_mem, mem-cons, mem-append_left,
  not-mem-nil, perm_middle, Pairwise-append,
}
use mathlib.Core.Logic.Or
use mathlib.Core.List.Pairwise
use mathlib.Core.List.Perm
use mathlib.Core.Logic.{∥∥₁_map}
use mathlib.Core.Path.{subst}
use whirl_matrix.Base.{
  ◌≡◌, ◌↔◌, refl, sym, ap, ◌∙◌, Bool, true, false, not, ◌&&◌, Bool-cases, inl, inr, List, [], ◌∷◌,
  ◌++◌, arith, if◌then◌else◌,
}
use whirl_matrix.Semantics.{Call, Model, is_completed, precedes_in_real_time, apply_call}
use whirl_matrix.Semantics.Linearization.{
  InRealTime, Legal, done, skip, step, Linearization, IsLinearizable,
}
use whirl_matrix.Semantics.Checker.{
  cleanup, check_all, lin_check_impl, lin_check_brute, lin_check, time_limit,
}
use whirl_matrix.Semantics.Checker.Tried.{IsTimed}
use whirl_matrix.Semantics.Checker.Verdict.{check_complete}

-- A call that is no mutation has a result, and leaves the state as it is.
abbrev pub ReadsAreNeutral : Model → Type 0
ReadsAreNeutral m =
    (s : m.State) (c : Call) → m.is_mutation c ≡ false → (apply_call m s c).next_state ≡ s

module _ (m : Model) where
  abbrev kept : Call → Bool
  kept c = not (not (is_completed c) && not (m.is_mutation c))

  abbrev Kept : Call → Type 0
  Kept c = kept c ≡ true

  abbrev kept? : (c : Call) → Dec (Kept c)
  kept? c = Bool-discrete (kept c) true

  cleanup-eq-filter : (l : List Call) → cleanup m l ≡ filter kept? l
  unfolding cleanup
  cleanup-eq-filter [] = refl
  cleanup-eq-filter (c ∷ l) = ground (arith, cleanup-eq-filter l)

  -- The calls that are left out.
  dropped : List Call → List Call
  dropped [] = []
  dropped (c ∷ l) = if kept c then dropped l else c ∷ dropped l

  cleanup-dropped-perm : (l : List Call) → Perm (cleanup m l ++ dropped l) l
  unfolding cleanup dropped
  cleanup-dropped-perm [] = Perm.nil
  cleanup-dropped-perm (c ∷ l) = elim (Bool-cases (not (is_completed c) && not (m.is_mutation c))) [
    | inl e ↦
        rw e (
          Perm.trans (perm_middle (cleanup m l) (dropped l)) (Perm.cons c (cleanup-dropped-perm l)))
    | inr e ↦ rw e (Perm.cons c (cleanup-dropped-perm l))
  ]

  open_never_precedes : (c d : Call) → is_completed c ≡ false → precedes_in_real_time c d ≡ false
  unfolding is_completed precedes_in_real_time
  open_never_precedes c d e = ground arith

  dropped-open : (l : List Call) (c : Call) → Mem c (dropped l) → is_completed c ≡ false
  unfolding dropped
  dropped-open [] c h = absurd (not-mem-nil h)
  dropped-open (d ∷ l) c h = elim (Bool-cases (kept d)) [
    | inl e ↦ dropped-open l c (rw e at h)
    | inr e ↦
        Or.elim (Bool-set _ _) (mem-cons.0 (rw e at h)) (λ q. rw q (ground arith))
          (dropped-open l c)
  ]

  open_in_time : (l : List Call) → ((c : Call) → Mem c l → is_completed c ≡ false) → InRealTime l
  open_in_time [] h = Pairwise.nil
  open_in_time (c ∷ l) h =
      Pairwise.cons (λ d k. open_never_precedes d c (h d (mem-cons_of_mem c k)))
        (open_in_time l (λ d k. h d (mem-cons_of_mem c k)))

  Legal-append_open :
      (l r : List Call)
      → ((c : Call) → Mem c r → is_completed c ≡ false)
      → {s : m.State} → Legal m s l
      → Legal m s (l ++ r)
  Legal-append_open [] [] h a = a
  Legal-append_open [] (c ∷ r) h a =
      skip (h c mem-cons_self) (Legal-append_open [] r (λ d k. h d (mem-cons_of_mem c k)) done)
  Legal-append_open (c ∷ l) r h (skip e a) = skip e (Legal-append_open l r h a)
  Legal-append_open (c ∷ l) r h (step t a) = step t (Legal-append_open l r h a)

  InRealTime-append_open :
      (l r : List Call)
      → ((c : Call) → Mem c r → is_completed c ≡ false)
      → InRealTime l
      → InRealTime (l ++ r)
  InRealTime-append_open l r h t =
      (Pairwise-append (λ a b. Bool-set _ _)).1
        (t, open_in_time r h, λ a _ b k. open_never_precedes b a (h b k))

  Linearization-of_cleanup :
      {s : m.State} {calls : List Call}
      → Linearization m s (cleanup m calls)
      → Linearization m s calls
  Linearization-of_cleanup {s} {calls} a =
      let open_calls = dropped-open calls in
      record {
        order = a.order ++ dropped calls;
        all_calls =
            Perm.trans (Perm.append_right (dropped calls) a.all_calls) (cleanup-dropped-perm calls);
        in_real_time = InRealTime-append_open a.order (dropped calls) open_calls a.in_real_time;
        legal = Legal-append_open a.order (dropped calls) open_calls a.legal;
      }

  module _ (neutral : ReadsAreNeutral m) where
    Legal-cleanup : (l : List Call) {s : m.State} → Legal m s l → Legal m s (cleanup m l)
    unfolding cleanup
    Legal-cleanup [] done = done
    Legal-cleanup (c ∷ l) (skip e a) =
        elim (Bool-cases (not (is_completed c) && not (m.is_mutation c))) [
          | inl q ↦ rw q (Legal-cleanup l a)
          | inr q ↦ rw q (skip e (Legal-cleanup l a))
        ]
    Legal-cleanup (c ∷ l) {s} (step {s' = s'} t a) =
        elim (Bool-cases (not (is_completed c) && not (m.is_mutation c))) [
          | inl q ↦
              let same : s' ≡ s = t.2 ∙ neutral s c (ground arith) in
              rw q (subst (λ x. Legal m x (cleanup m l)) same (Legal-cleanup l a))
          | inr q ↦ rw q (step t (Legal-cleanup l a))
        ]

    Linearization-cleanup :
        {s : m.State} {calls : List Call}
        → Linearization m s calls
        → Linearization m s (cleanup m calls)
    Linearization-cleanup {s} {calls} a = record {
      order = cleanup m a.order;
      all_calls =
          rw (cleanup-eq-filter a.order, cleanup-eq-filter calls) (Perm.filter kept? a.all_calls);
      in_real_time = rw (cleanup-eq-filter a.order) (Pairwise.filter kept? a.in_real_time);
      legal = Legal-cleanup a.order a.legal;
    }

    -- For a model whose read-only calls leave the state as it is, a history is linearizable exactly
    -- when what `Cleanup` keeps of it is: leaving out the read-only calls that have not completed
    -- neither hides a violation nor makes one up.
    pub cleanup-IsLinearizable :
        (calls : List Call) → IsLinearizable m (cleanup m calls) ↔ IsLinearizable m calls
    cleanup-IsLinearizable calls =
        (λ a. ∥∥₁_map a Linearization-of_cleanup, λ a. ∥∥₁_map a Linearization-cleanup)

    cleanup-IsTimed : (calls : List Call) → IsTimed calls → IsTimed (cleanup m calls)
    cleanup-IsTimed calls t c h =
        t c ((Perm.mem_iff (cleanup-dropped-perm calls)).0 (mem-append_left (dropped calls) h))

    -- If `LinCheck` answers `false`, then the history is not linearizable: for a model that does
    -- not decompose histories, whose read-only calls leave the state as it is, and a history in
    -- which no call ended before it began.
    pub lin_check_complete :
        ((calls : List Call) → m.decompose calls ≡ calls ∷ [])
        → (history : List Call) → IsTimed history
        → lin_check m history ≡ false
        → ¬ IsLinearizable m history
    unfolding lin_check check_all lin_check_impl
    lin_check_complete whole history timed e a =
        check_complete m (cleanup m history) time_limit (cleanup-IsTimed history timed)
          (all_false (lin_check_brute m (cleanup m history) time_limit)
            (ap (check_all m) (sym (whole (cleanup m history))) ∙ e))
          ((cleanup-IsLinearizable history).1 a)
      where
        all_false : (b : Bool) → (b && true) ≡ false → b ≡ false
        all_false b h = ground arith

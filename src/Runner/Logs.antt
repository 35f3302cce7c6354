-- ===== src/Runner/Logs.antt =====
-- The text of a log accounts for each of its events.
use whirl_matrix.Base.{
  ℕ, ◌+◌, ◌-◌, ◌≤◌, ◌≡◌, refl, inl, inr, List, [], ◌∷◌, ◌++◌, map, arith, leb, leb→le, Bool-cases,
  length, length-append, length-take, length-drop, take, drop,
}
use whirl_matrix.Runner.{Line, event, skipped, write_text_log}

-- How many events a line stands for.
abbrev stands_for : {E : Type 0} → List (Line E) → ℕ
stands_for [] = 0
stands_for (event e ∷ lines) = 1 + stands_for lines
stands_for (skipped n ∷ lines) = n + stands_for lines

stands_for-map : {E : Type 0} (l : List E) → stands_for (map event l) ≡ length l
stands_for-map [] = refl
stands_for-map (x ∷ l) = omega (arith, stands_for-map l)

stands_for-append :
    {E : Type 0} (l r : List (Line E)) → stands_for (l ++ r) ≡ stands_for l + stands_for r
stands_for-append [] r = omega arith
stands_for-append (event e ∷ l) r = omega (arith, stands_for-append l r)
stands_for-append (skipped n ∷ l) r = omega (arith, stands_for-append l r)

length-map : {E : Type 0} (l : List E) → length (map (λ e. event e) l) ≡ length l
length-map [] = refl
length-map (x ∷ l) = omega (arith, length-map l)

-- The lines of a log stand for as many events as there are, and there are at most 357 of them.
pub write_text_log_lem :
    {E : Type 0}
    → (events : List E)
    → (stands_for (write_text_log events) ≡ length events) × (length (write_text_log events) ≤ 357)
unfolding write_text_log
write_text_log_lem events = elim (Bool-cases (leb (length events) 356)) [
  | inl e ↦
      rw e (stands_for-map events, omega (arith, length-map events, leb→le (length events) 356 e))
  | inr e ↦
      let long : 357 ≤ length events = ground arith in
      let head = take 100 events in
      let tail = drop (length events - 256) events in
      let last = skipped (length events - 356) ∷ map event tail in
      rw e (
        omega (
          arith,
          stands_for-append (map event head) last,
          stands_for-map head,
          stands_for-map tail,
          length-take 100 events,
          length-drop (length events - 256) events,
        ),
        omega (
          arith,
          length-append (map event head) last,
          length-map head,
          length-map tail,
          length-take 100 events,
          length-drop (length events - 256) events,
        ),
      )
]

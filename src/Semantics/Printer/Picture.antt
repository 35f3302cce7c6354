-- ===== src/Semantics/Printer/Picture.antt =====
-- The picture of a history: one sees from its lines which calls precede which.
use mathlib.Core.Path.{subst}
use whirl_matrix.Base.{
  some_inj, All-get_elem?, ℕ, zero, suc, ◌+◌, ◌-◌, ◌*◌, ◌<◌, ◌≡◌, refl, ap, ◌∙◌, Bool, true, false,
  none, some, List, [], ◌∷◌, ◌++◌, arith, All, length, length-append, length-set, length-replicate,
  replicate, set, get_elem?, ltb, ◌==◌, ok, ◌>>=◌, if◌then◌else◌,
}
use whirl_matrix.Semantics.{Call, is_completed, precedes_in_real_time}
use whirl_matrix.Semantics.Printer.{
  Printing, collect, compact, span, unit_length, make_space, put_at, make_call_segment, print_lines,
  print_all, print, print_labels,
}
use whirl_matrix.Semantics.Printer.Columns.{
  Increasing, IsShown, span_in, Lasts, span-precedes, span-Lasts, collect-Increasing,
  collect-IsShown,
}

-- Where the first character of a line is that is not a space.
abbrev pub indent : List ℕ → ℕ
indent [] = 0
indent (c ∷ l) = let rest = indent l in if c == b' ' then suc rest else 0

abbrev IsSegment : ℕ → List ℕ → Type 0
IsSegment n s = (rest : List ℕ) × (s ≡ b'[' ∷ rest) × (length s ≡ n)

put_first : (x c : ℕ) (l : List ℕ) → put_at 0 c (x ∷ l) ≡ ok (c ∷ l)
unfolding put_at
put_first x c l =
    let inside : ltb 0 (suc (length l)) ≡ true = ground arith in rw (inside, put_at) refl

-- A character is written behind the first one.
put_behind :
    (x y c : ℕ) (l : List ℕ)
    → (s : List ℕ) × (put_at (length (x ∷ y ∷ l) - 1) c (x ∷ y ∷ l) ≡ ok (x ∷ s))
      × (length (x ∷ s) ≡ length (x ∷ y ∷ l))
unfolding put_at
put_behind x y c l =
    let last : suc (suc (length l)) - 1 ≡ suc (length l) = omega arith in
    let inside : ltb (suc (length l)) (suc (suc (length l))) ≡ true = ground arith in
    (set (y ∷ l) (length l) c, rw last (rw inside refl), ap suc (length-set (y ∷ l) (length l) c))

drawn_line :
    (n : ℕ) (completed : Bool)
    → (s : List ℕ) × ((put_at 0 b'[' (replicate (suc (suc n)) b'-') >>= λ call.
          if completed then put_at (length call - 1) b']' call else ok call)
        ≡ ok s)
      × IsSegment (suc (suc n)) s
drawn_line n true =
    let line : List ℕ = b'-' ∷ replicate n b'-' in
    let (s, e, same) = put_behind b'[' b'-' b']' (replicate n b'-') in
    (
      b'[' ∷ s,
      rw (put_first b'-' b'[' line) e,
      (s, refl, same ∙ ap (λ m. suc (suc m)) (length-replicate n b'-')),
    )
drawn_line n false =
    let line : List ℕ = b'-' ∷ replicate n b'-' in
    (
      b'[' ∷ line,
      rw (put_first b'-' b'[' line) refl,
      (line, refl, ap (λ m. suc (suc m)) (length-replicate n b'-')),
    )

make_call_segment-IsSegment :
    (start end : ℕ) (completed : Bool)
    → start < end
    → (s : List ℕ) × (make_call_segment start end completed ≡ ok s)
      × IsSegment ((end - start) * unit_length) s
unfolding make_call_segment
make_call_segment-IsSegment start end completed h =
    let ordered : ltb end start ≡ false = ground (arith, h) in
    let n = (end - start) * 3 - 2 in
    let size : (end - start) * 3 ≡ suc (suc n) = omega arith in
    rw ordered (rw size (drawn_line n completed))

indent_of : (n : ℕ) (rest : List ℕ) → indent (replicate n b' ' ++ b'[' ∷ rest) ≡ n
indent_of zero rest = refl
indent_of (suc n) rest = ap suc (indent_of n rest)

-- The second line of a call goes from its start to its end.
abbrev Spans : ℕ × ℕ → List ℕ × List ℕ → Type 0
Spans (start, end) lines =
    (indent lines.1 ≡ start * unit_length) × (length lines.1 ≡ end * unit_length)

all_last :
    (ts : List ℕ) (h : List Call)
    → Increasing 0 ts
    → All (λ c. IsShown c ts) h
    → All Lasts h
    → All (λ c. (span_in ts c).0 < (span_in ts c).1) h
all_last ts [] s shown l = tt
all_last ts (c ∷ h) s (first, shown) (lasts, l) =
    (span-Lasts ts c s first lasts, all_last ts h s shown l)

no_call : {A : Type 0} {c : Call} → none ≡ some c → A
no_call h = cc

module _ (p : Printing) where
  -- The printer of calls prints the call.
  abbrev pub HasText : Call → Type 0
  HasText c = (text : List ℕ) × (p.print_call c ≡ ok text)

  print_lines-Spans :
      (i start end : ℕ) (c : Call)
      → start < end
      → HasText c
      → (lines : List ℕ × List ℕ) × (print_lines p i (start, end) c ≡ ok lines)
        × Spans (start, end) lines
  unfolding print_lines make_space
  print_lines-Spans i start end c h (text, e) =
      let (s, d, (rest, first, size)) = make_call_segment-IsSegment start end (is_completed c) h in
      (
        (
          make_space start
              ++ (p.number (i + 1)
                  ++ b'.' ∷ b' ' ∷ (text ++ b'\t' ∷ print_labels p.bytes_of c.labels)),
          make_space start ++ s,
        ),
        rw (e, print_lines) (rw d refl),
        (
          ap (λ l. indent (replicate (start * unit_length) b' ' ++ l)) first
              ∙ indent_of (start * unit_length) rest,
          length-append (replicate (start * unit_length) b' ') s
              ∙ omega (arith, length-replicate {A = ℕ} (start * unit_length) b' ', size, h),
        ),
      )

  print_all-Spans :
      (m : List (ℕ × ℕ)) (max_tp i : ℕ) (h : List Call)
      → All HasText h
      → All (λ c. (span m max_tp c).0 < (span m max_tp c).1) h
      → (picture : List (List ℕ × List ℕ)) × (print_all p m max_tp i h ≡ ok picture)
        × (length picture ≡ length h)
        × ((j : ℕ) (c : Call)
            → get_elem? h j ≡ some c
            → (lines : List ℕ × List ℕ) × (get_elem? picture j ≡ some lines)
              × Spans (span m max_tp c) lines)
  unfolding print_all
  print_all-Spans m max_tp i [] t l = ([], refl, refl, λ j c e. no_call e)
  print_all-Spans m max_tp i (c ∷ h) (t, ts) (l, ls) =
      let (lines, e, spans) = print_lines-Spans i (span m max_tp c).0 (span m max_tp c).1 c l t in
      let (picture, run, same, all) = print_all-Spans m max_tp (i + 1) h ts ls in
      (
        lines ∷ picture,
        rw (e, print_lines) (rw run refl),
        ap suc same,
        λ j d found. at_place j d found lines spans picture all,
      )
    where
      at_place :
          (j : ℕ) (d : Call)
          → get_elem? (c ∷ h) j ≡ some d
          → (lines : List ℕ × List ℕ) → Spans (span m max_tp c) lines
          → (picture : List (List ℕ × List ℕ))
          → ((j : ℕ) (c : Call)
              → get_elem? h j ≡ some c
              → (lines : List ℕ × List ℕ) × (get_elem? picture j ≡ some lines)
                × Spans (span m max_tp c) lines)
          → (found : List ℕ × List ℕ) × (get_elem? (lines ∷ picture) j ≡ some found)
            × Spans (span m max_tp d) found
      at_place zero d e lines spans picture all =
          (lines, refl, subst (λ c. Spans (span m max_tp c) lines) (some_inj e) spans)
      at_place (suc j) d e lines spans picture all = all j d e

  -- What one sees of two calls in their second lines.
  abbrev pub Tells : Call → Call → List ℕ × List ℕ → List ℕ × List ℕ → Type 0
  Tells a b x y = ltb (length x.1) (indent y.1) ≡ precedes_in_real_time a b

  -- If its calls can be printed and a call that has completed has taken time, a history is printed as a picture with
  -- two lines for each call, and the second line of a call ends before that of another call begins exactly
  -- if the first call precedes the second one in real time.
  pub print_lem :
      (h : List Call)
      → All HasText h
      → All Lasts h
      → (picture : List (List ℕ × List ℕ)) × (print p h ≡ ok picture)
        × (length picture ≡ length h)
        × ((i j : ℕ) (a b : Call)
            → get_elem? h i ≡ some a
            → get_elem? h j ≡ some b
            → (x : List ℕ × List ℕ) × (y : List ℕ × List ℕ) × (get_elem? picture i ≡ some x)
              × (get_elem? picture j ≡ some y)
              × Tells a b x y)
  unfolding print
  print_lem h t l =
      let ts = collect h [] in
      let s = collect-Increasing h [] tt in
      let shown = collect-IsShown h [] in
      let lasting = all_last ts h s shown l in
      let (picture, run, same, all) =
        print_all-Spans (compact 0 ts) (length ts + 1) 0 h t lasting in
      (
        picture,
        run,
        same,
        λ i j a b ea eb.
            let (x, at_x, (_, x_end)) = all i a ea in
            let (y, at_y, (y_start, _)) = all j b eb in
            let seen_a = All-get_elem? (λ c. IsShown c ts) h i a shown ea in
            let seen_b = All-get_elem? (λ c. IsShown c ts) h j b shown eb in
            let order = span-precedes ts a b s seen_a seen_b in
            (x, y, at_x, at_y, ground (arith, x_end, y_start, order)),
      )

-- ===== src/Config/Counters.antt =====
-- A counter counts what is added to it.
use Prim.Native.String.{String}
use text.Mathlib.Text.{◌==◌ as str_eq}
use text.Mathlib.TextEquality.{eq_iff}
use whirl_matrix.Base.{
  ℕ, ◌+◌, ◌%◌, ◌^◌, ◌≡◌, ◌<◌, ◌∙◌, ap, refl, sym, inl, inr, some, List, [], ◌∷◌, arith, All,
  All-map, Bool-cases, ok, if◌then◌else◌,
}
use whirl_matrix.Fs.Table.{find}
use whirl_matrix.Config.{
  Any, size, set_value, get_value, cast_size, get_counter, add_counter, add_counters,
}

-- What is added to a counter.
abbrev pub sum_of : String → List (String × ℕ) → ℕ
sum_of name [] = 0
sum_of name ((n, d) ∷ adds) = (if str_eq n name then d else 0) + sum_of name adds

abbrev pub IsCounter : List (String × Any) → String → Type 0
IsCounter globals name = (n : ℕ) × (get_counter name globals ≡ ok n)

get_value-set_value :
    (name other : String) (v : Any) (globals : List (String × Any))
    → get_value other (set_value name v globals)
      ≡ (if str_eq name other then some v else get_value other globals)
unfolding get_value set_value find
get_value-set_value name other v [] = refl
get_value-set_value name other v ((k, old) ∷ globals) = ground (
  arith,
  get_value-set_value name other v globals,
  eq_iff k name,
  eq_iff k other,
  eq_iff name other,
)

get_counter-set :
    (name other : String) (n : ℕ) (globals : List (String × Any))
    → get_counter other (set_value name (size n) globals)
      ≡ (if str_eq name other then ok n else get_counter other globals)
unfolding get_counter cast_size
get_counter-set name other n globals = elim (Bool-cases (str_eq name other)) [
  | inl e ↦ rw (get_value-set_value name other (size n) globals) (rw e refl)
  | inr e ↦ rw (get_value-set_value name other (size n) globals) (rw e refl)
]

ok_inj : {m n : ℕ} → ok m ≡ ok n → m ≡ n
ok_inj h = cc

still_counters :
    (m : String) (v : ℕ) (adds : List (String × ℕ)) (globals : List (String × Any))
    → All (λ (a : String × ℕ). IsCounter globals a.0) adds
    → All (λ (a : String × ℕ). IsCounter (set_value m (size v) globals) a.0) adds
still_counters m v adds globals h =
    All-map _ _ adds
      (λ (a : String × ℕ) k. elim (Bool-cases (str_eq m a.0)) [
        | inl f ↦ (v, get_counter-set m a.0 v globals ∙ rw f refl)
        | inr f ↦ (k.0, get_counter-set m a.0 v globals ∙ rw f k.1)
      ])
      h

-- Additions to counters that are there, to several of them and in any order, do not fail. Afterwards a counter
-- has what it had and what was added to it, with 64 bits; a number that the counters do not reach
-- does not wrap.
pub add_counters-sum :
    (name : String) (n : ℕ) (adds : List (String × ℕ)) (globals : List (String × Any))
    → get_counter name globals ≡ ok n
    → n < 2 ^ 64
    → All (λ (a : String × ℕ). IsCounter globals a.0) adds
    → (globals' : List (String × Any)) × (add_counters adds globals ≡ ok globals')
      × (get_counter name globals' ≡ ok ((n + sum_of name adds) % 2 ^ 64))
unfolding add_counters add_counter
add_counters-sum name n [] globals e small h = (globals, refl, e ∙ ap ok (omega arith))
add_counters-sum name n ((m, d) ∷ adds) globals e small ((old, h), hs) =
    let v = (old + d) % 2 ^ 64 in
    let globals1 = set_value m (size v) globals in
    elim (Bool-cases (str_eq m name)) [
      | inl f ↦
          let same : old ≡ n =
            ok_inj (sym h ∙ ap (λ x. get_counter x globals) ((eq_iff m name).0 f) ∙ e) in
          let now = get_counter-set m name v globals ∙ rw f refl in
          let (end, runs, total) =
            add_counters-sum name v adds globals1 now (omega arith)
              (still_counters m v adds globals hs) in
          (end, rw (h, add_counter) runs, total ∙ ap ok (rw f (omega (arith, same))))
      | inr f ↦
          let now = get_counter-set m name v globals ∙ rw f e in
          let (end, runs, total) =
            add_counters-sum name n adds globals1 now small (still_counters m v adds globals hs) in
          (end, rw (h, add_counter) runs, total ∙ ap ok (rw f (omega arith)))
    ]

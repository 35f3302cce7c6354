-- ===== src/Tests/Pictures.antt =====
-- The picture of a write and a later read.
use whirl_matrix.Base.{ℕ, ◌≡◌, refl, some, List, [], ◌∷◌, get_elem?, length, arith, ok, panic}
use whirl_matrix.Semantics.{Call, Value}
use whirl_matrix.Semantics.Printer.{Printing, print, print_kv_call}
use whirl_matrix.Semantics.Printer.Picture.{Tells, print_lem}
use whirl_matrix.Tests.Checker.{one_key, set_x, good}

-- A text is printed as one letter.
abbrev letters : Printing
letters = record {
  bytes_of = λ s. b'l' ∷ [];
  number = λ n. b'1' ∷ [];
  print_call = print_kv_call one_key (λ k. b'k' ∷ []) (λ v. b'v' ∷ []) (λ (r : Value). r.bytes);
}

last_of : {t u : ℕ} → some t ≡ some u → t ≡ u
last_of h = cc

print_lem_example :
    (picture : List (List ℕ × List ℕ)) × (print letters good ≡ ok picture)
    × (length picture ≡ length good)
    × ((i j : ℕ) (a b : Call)
        → get_elem? good i ≡ some a
        → get_elem? good j ≡ some b
        → (x : List ℕ × List ℕ) × (y : List ℕ × List ℕ) × (get_elem? picture i ≡ some x)
          × (get_elem? picture j ≡ some y)
          × Tells letters a b x y)
unfolding print_kv_call
print_lem_example =
    print_lem letters good ((_, refl), ((_, refl), tt))
      ((λ t e. omega (arith, last_of e)), ((λ t e. omega (arith, last_of e)), tt))

abbrev at_once : Call
at_once = record set_x { end_time = some 1 }

-- A call that has completed at the time at which it was started has no room for its segment.
at_once_fails : print letters (at_once ∷ []) ≡ panic
unfolding print print_kv_call
at_once_fails = refl

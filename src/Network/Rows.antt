-- ===== src/Network/Rows.antt =====
-- Network::BuildLinks: the links from each server to each, row by row.
use whirl_matrix.Base.{
  ℕ, zero, suc, ◌+◌, ◌*◌, ◌<◌, ◌≡◌, refl, ap, ◌∙◌, some, List, [], ◌∷◌, ◌++◌, map, arith, length,
  get_elem?,
}
use whirl_matrix.Network.Links.{new_link}
use whirl_matrix.Network.Steps.{range, links_from, all_links}

next_row : (a n b : ℕ) → suc a * n + b ≡ n + (a * n + b)
next_row a n b = grind arith

module _ {A : Type 0} where
  get_elem?-left : (l r : List A) (k : ℕ) → k < length l → get_elem? (l ++ r) k ≡ get_elem? l k
  get_elem?-left [] r k h = absurd (omega arith)
  get_elem?-left (x ∷ l) r zero h = refl
  get_elem?-left (x ∷ l) r (suc k) h = get_elem?-left l r k (omega arith)

  get_elem?-right : (l r : List A) (k : ℕ) → get_elem? (l ++ r) (length l + k) ≡ get_elem? r k
  get_elem?-right [] r k = ap (get_elem? r) (omega arith)
  get_elem?-right (x ∷ l) r k =
      let later : length (x ∷ l) + k ≡ suc (length l + k) = omega arith in
      ap (get_elem? ((x ∷ l) ++ r)) later ∙ get_elem?-right l r k

get_elem?-range : (s c k : ℕ) → k < c → get_elem? (range s c) k ≡ some (s + k)
get_elem?-range s zero k h = absurd (omega arith)
get_elem?-range s (suc c) zero h = ap some (omega arith)
get_elem?-range s (suc c) (suc k) h =
    get_elem?-range (s + 1) c k (omega arith) ∙ ap some (omega arith)

length-links_from : (n i s c : ℕ) → length (map (new_link i) (range s c)) ≡ c
length-links_from n i s zero = refl
length-links_from n i s (suc c) = omega (arith, length-links_from n i (s + 1) c)

get_elem?-row :
    (i s c k : ℕ) → k < c → get_elem? (map (new_link i) (range s c)) k ≡ some (new_link i (s + k))
get_elem?-row i s zero k h = absurd (omega arith)
get_elem?-row i s (suc c) zero h = ap (λ x. some (new_link i x)) (omega arith)
get_elem?-row i s (suc c) (suc k) h =
    get_elem?-row i (s + 1) c k (omega arith) ∙ ap (λ x. some (new_link i x)) (omega arith)

pub new_link_eq : (a b i j : ℕ) → a ≡ b → i ≡ j → some (new_link a i) ≡ some (new_link b j)
new_link_eq a b i j e f = ap (λ x. some (new_link x i)) e ∙ ap (λ x. some (new_link b x)) f

-- The link from `s + a` to `j`.
pub get_elem?-all_links :
    (n s c a j : ℕ)
    → a < c
    → j < n
    → get_elem? (all_links n (range s c)) (a * n + j) ≡ some (new_link (s + a) j)
unfolding all_links links_from
get_elem?-all_links n s zero a j h k = absurd (omega arith)
get_elem?-all_links n s (suc c) zero j h k =
    let row = map (new_link s) (range 0 n) in
    let long : length row ≡ n = length-links_from n s 0 n in
    get_elem?-left row (all_links n (range (s + 1) c)) (0 * n + j) (omega arith)
    ∙ ap (get_elem? row) (omega arith)
    ∙ get_elem?-row s 0 n j k
    ∙ new_link_eq s (s + 0) (0 + j) j (omega arith) (omega arith)
get_elem?-all_links n s (suc c) (suc a) j h k =
    let row = map (new_link s) (range 0 n) in
    let long : length row ≡ n = length-links_from n s 0 n in
    ap (get_elem? (row ++ all_links n (range (s + 1) c))) (next_row a n j ∙ omega (arith, long))
    ∙ get_elem?-right row (all_links n (range (s + 1) c)) (a * n + j)
    ∙ get_elem?-all_links n (s + 1) c a j (omega arith) k
    ∙ new_link_eq (s + 1 + a) (s + suc a) j j (omega arith) refl

-- ===== src/Runtime/Addresses.antt =====
-- An address that is put together of a host and a port is read as that host and that port.
use native.Mathlib.Nat.{mod-eq_of_lt}
use whirl_matrix.Base.{
  ℕ, zero, suc, ◌+◌, ◌^◌, ◌<◌, ◌≡◌, ◌≢◌, refl, ap, false, some, List, [], ◌∷◌, ◌++◌, ◌==◌, ==_iff,
  arith, All, length, take, drop,
}
use whirl_matrix.Runtime.{colon, find_char, parse_port, parse_address, make_address}

find_char-append :
    (host rest : List ℕ)
    → All (λ c. c ≢ colon) host
    → find_char colon (host ++ colon ∷ rest) ≡ some (length host)
unfolding find_char
find_char-append [] rest h = refl
find_char-append (x ∷ host) rest (h, hs) =
    let other : (x == 58) ≡ false = ground (arith, ==_iff x 58) in
    let there = find_char-append host rest hs in rw (other, find_char) (rw (there, find_char) refl)

take-append : (host rest : List ℕ) → take (length host) (host ++ rest) ≡ host
take-append [] rest = refl
take-append (x ∷ host) rest = ap (◌∷◌ x) (take-append host rest)

drop-append :
    (host rest : List ℕ) (x n : ℕ) → n ≡ length host + 1 → drop n (host ++ x ∷ rest) ≡ rest
drop-append [] rest x n e = rw e refl
drop-append (y ∷ host) rest x zero e = absurd (omega arith)
drop-append (y ∷ host) rest x (suc n) e = drop-append host rest x n (omega arith)

-- The address made of a host name without a colon and of a port is read as the host and the
-- port, when the number that the library has printed is read as itself.
pub parse_address-make_address :
    (atoi : List ℕ → ℕ) (print : ℕ → List ℕ)
    → ((n : ℕ) → atoi (print n) ≡ n)
    → (host : List ℕ) (port : ℕ) → All (λ c. c ≢ colon) host
    → port < 2 ^ 16
    → parse_address atoi (make_address print host port) ≡ (host, port)
unfolding parse_address make_address parse_port
parse_address-make_address atoi print reads host port plain small =
    let found = find_char-append host (print port) plain in
    rw (found, parse_address)
      (rw
        (
          take-append host (colon ∷ print port),
          drop-append host (print port) colon (length host + 1) refl,
        )
        (rw (reads port) (rw (mod-eq_of_lt small) refl)))

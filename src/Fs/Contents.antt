-- ===== src/Fs/Contents.antt =====
-- matrix/fs/file.hpp and file.cpp. A file is its bytes. `wheels::io::MemoryReader`, which copies from
-- a view into a buffer, is a parameter.
use whirl_matrix.Base.{
  ℕ, zero, suc, ◌+◌, ◌-◌, ◌≤◌, ◌≡◌, refl, ap, List, [], ◌∷◌, ◌++◌, arith, leb, if◌then◌else◌,
  length, take, drop, replicate, take_all,
}
use whirl_matrix.Digest.{Hashes}

pub record File : Type 0 where
  pub bytes : List ℕ

unfoldable pub new_file : File
new_file = record { bytes = [] }

unfoldable pub file_size : File → ℕ
file_size f = length f.bytes

-- std::vector::resize(new_size, 0)
unfoldable pub resize : ℕ → List ℕ → List ℕ
resize new_size l = take new_size l ++ replicate (new_size - length l) 0

-- memcpy to a position of the vector.
unfoldable pub copy_at : ℕ → List ℕ → List ℕ → List ℕ
copy_at zero [] l = l
copy_at zero (b ∷ bs) [] = []
copy_at zero (b ∷ bs) (x ∷ l) = b ∷ copy_at zero bs l
copy_at (suc i) bs [] = []
copy_at (suc i) bs (x ∷ l) = x ∷ copy_at i bs l

unfoldable pub file_truncate : ℕ → File → File
unfolding resize
file_truncate new_size f = record { bytes = resize new_size f.bytes }

unfoldable pub file_append : List ℕ → File → File
unfolding resize copy_at
file_append append f =
    let curr_size = length f.bytes in
    let new_size = curr_size + length append in
    record { bytes = copy_at curr_size append (resize new_size f.bytes) }

unfoldable pub tail : ℕ → File → List ℕ
tail offset f = if leb (length f.bytes) offset then [] else drop offset f.bytes

-- `MemoryReader(view).Read(buffer)`: the bytes that a buffer of this size receives are the first of
-- the view, as many as fit.
pub record Reader : Type 0 where
  pub read : List ℕ → ℕ → List ℕ
  pub read_lem : (view : List ℕ) (size : ℕ) → read view size ≡ take size view

unfoldable pub p_read : Reader → ℕ → ℕ → File → List ℕ
unfolding tail
p_read r offset buffer_size f = r.read (tail offset f) buffer_size

unfoldable pub file_digest : Hashes → File → ℕ
file_digest w f = w.hash_range 17 f.bytes

copy_at-zeros :
    (l append : List ℕ) → copy_at (length l) append (l ++ replicate (length append) 0) ≡ l ++ append
unfolding copy_at
copy_at-zeros [] [] = refl
copy_at-zeros [] (b ∷ bs) = ap (◌∷◌ b) (copy_at-zeros [] bs)
copy_at-zeros (x ∷ l) append = ap (◌∷◌ x) (copy_at-zeros l append)

-- Resizing and copying behind the old end puts the new bytes behind the old ones.
pub bytes-file_append :
    (append : List ℕ) (f : File) → (file_append append f).bytes ≡ f.bytes ++ append
unfolding file_append
bytes-file_append append f =
    let more : length f.bytes + length append - length f.bytes ≡ length append = omega arith in
    rw (take_all (length f.bytes + length append) f.bytes (omega arith), more)
      (copy_at-zeros f.bytes append)

drop_beyond : (l : List ℕ) (n : ℕ) → length l ≤ n → drop n l ≡ []
drop_beyond [] zero h = refl
drop_beyond [] (suc n) h = refl
drop_beyond (x ∷ l) zero h = absurd (omega arith)
drop_beyond (x ∷ l) (suc n) h = drop_beyond l n (omega arith)

-- A read gives the bytes from the offset on, as many as fit, and none beyond the end.
pub p_read_lem :
    (r : Reader) (offset size : ℕ) (f : File)
    → p_read r offset size f ≡ take size (drop offset f.bytes)
unfolding p_read
p_read_lem r offset size f =
    ground
      (arith, r.read_lem (drop offset f.bytes) size, r.read_lem [] size, drop_beyond f.bytes offset)

-- ===== src/Bytes.antt =====
-- Integers as bytes (`to_be_bytes`, `from_be_bytes` and their little-endian twins of the standard
-- library), and the order and prefix test of `Vec<u8>`. A byte is a number below 256.
pub mod RoundTrip
pub mod Order
use grainstore.Base.{
  ℕ, zero, suc, ◌+◌, ◌*◌, ◌/◌, ◌%◌, ◌<◌, Bool, true, false, ◌&&◌, List, [], ◌∷◌, ◌++◌, foldl,
  compare, Ordering, lt, eq, gt, then_cmp, ◌==◌,
}

abbrev pub IsByte : ℕ → Type 0
IsByte b = b < 256

-- v.to_be_bytes() of an integer of `w` bytes
unfoldable pub be_bytes : ℕ → ℕ → List ℕ
be_bytes zero v = []
be_bytes (suc w) v = be_bytes w (v / 256) ++ (v % 256 ∷ [])

-- T::from_be_bytes(bytes)
unfoldable pub from_be_bytes : List ℕ → ℕ
from_be_bytes = foldl (λ acc b. acc * 256 + b) 0

-- v.to_le_bytes() of an integer of `w` bytes
unfoldable pub le_bytes : ℕ → ℕ → List ℕ
le_bytes zero v = []
le_bytes (suc w) v = v % 256 ∷ le_bytes w (v / 256)

-- T::from_le_bytes(bytes)
unfoldable pub from_le_bytes : List ℕ → ℕ
from_le_bytes [] = 0
from_le_bytes (b ∷ bs) = b + 256 * from_le_bytes bs

-- a.cmp(b) on slices: lexicographic, and a proper prefix comes first
unfoldable pub bytes_cmp : List ℕ → List ℕ → Ordering
bytes_cmp [] [] = eq
bytes_cmp [] (y ∷ ys) = lt
bytes_cmp (x ∷ xs) [] = gt
bytes_cmp (x ∷ xs) (y ∷ ys) = then_cmp (compare x y) (bytes_cmp xs ys)

-- key.starts_with(prefix)
unfoldable pub starts_with : List ℕ → List ℕ → Bool
starts_with key [] = true
starts_with [] (p ∷ ps) = false
starts_with (k ∷ ks) (p ∷ ps) = k == p && starts_with ks ps

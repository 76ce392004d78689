-- ===== src/Bytes/RoundTrip.antt =====
-- Encoding an integer in `w` bytes and reading it back.
use grainstore.Base.{
  ℕ, zero, suc, ◌+◌, ◌*◌, ◌/◌, ◌%◌, ◌^◌, ◌<◌, ◌≡◌, refl, List, [], ◌∷◌, ◌++◌, foldl-append, length,
  length-append, All, All-append, arith,
}
use grainstore.Bytes.{IsByte, be_bytes, from_be_bytes, le_bytes, from_le_bytes}
use native.Mathlib.Nat.{pow-suc}

pub length-be_bytes : (w v : ℕ) → length (be_bytes w v) ≡ w
unfolding be_bytes
length-be_bytes zero v = refl
length-be_bytes (suc w) v =
    omega (arith, length-append (be_bytes w (v / 256)) (v % 256 ∷ []), length-be_bytes w (v / 256))

pub length-le_bytes : (w v : ℕ) → length (le_bytes w v) ≡ w
unfolding le_bytes
length-le_bytes zero v = refl
length-le_bytes (suc w) v = omega (arith, length-le_bytes w (v / 256))

pub be_bytes-All-IsByte : (w v : ℕ) → All IsByte (be_bytes w v)
unfolding be_bytes
be_bytes-All-IsByte zero v = tt
be_bytes-All-IsByte (suc w) v =
    All-append IsByte (be_bytes w (v / 256)) (v % 256 ∷ []) (be_bytes-All-IsByte w (v / 256))
      (omega arith)

pub from_be_bytes-append_byte :
    (xs : List ℕ) (b : ℕ) → from_be_bytes (xs ++ (b ∷ [])) ≡ from_be_bytes xs * 256 + b
unfolding from_be_bytes
from_be_bytes-append_byte xs b = rw foldl-append

pub from_be_bytes-be_bytes : (w v : ℕ) → v < 256 ^ w → from_be_bytes (be_bytes w v) ≡ v
unfolding be_bytes
from_be_bytes-be_bytes zero v h = unfold from_be_bytes in omega arith
from_be_bytes-be_bytes (suc w) v h = omega (
  arith,
  from_be_bytes-append_byte (be_bytes w (v / 256)) (v % 256),
  from_be_bytes-be_bytes w (v / 256) (omega (arith, pow-suc 256 w)),
)

pub from_le_bytes-le_bytes : (w v : ℕ) → v < 256 ^ w → from_le_bytes (le_bytes w v) ≡ v
unfolding le_bytes from_le_bytes
from_le_bytes-le_bytes zero v h = omega arith
from_le_bytes-le_bytes (suc w) v h =
    omega (arith, from_le_bytes-le_bytes w (v / 256) (omega (arith, pow-suc 256 w)))

-- ===== src/Bytes/Order.antt =====
-- The lexicographic order of big-endian bytes is the order of the numbers.
use grainstore.Base.{
  ℕ, ◌+◌, ◌*◌, ◌<◌, ◌≡◌, refl, List, [], ◌∷◌, foldl, length, All, arith, compare, Ordering, lt, eq,
  gt, then_cmp,
}
use grainstore.Bytes.{IsByte, from_be_bytes, bytes_cmp}

compare_digit :
    (a b x y : ℕ)
    → x < 256
    → y < 256
    → compare (a * 256 + x) (b * 256 + y) ≡ then_cmp (compare a b) (compare x y)
compare_digit a b x y hx hy = ground arith

then_cmp_assoc : (p q r : Ordering) → then_cmp (then_cmp p q) r ≡ then_cmp p (then_cmp q r)
then_cmp_assoc lt q r = refl
then_cmp_assoc eq q r = refl
then_cmp_assoc gt q r = refl

abbrev read : ℕ → List ℕ → ℕ
read = foldl (λ acc b. acc * 256 + b)

compare-read :
    (a b : ℕ) (xs ys : List ℕ)
    → length xs ≡ length ys
    → All IsByte xs
    → All IsByte ys
    → compare (read a xs) (read b ys) ≡ then_cmp (compare a b) (bytes_cmp xs ys)
unfolding bytes_cmp
compare-read a b [] [] h hx hy = ground arith
compare-read a b [] (y ∷ ys) h hx hy = absurd (omega arith)
compare-read a b (x ∷ xs) [] h hx hy = absurd (omega arith)
compare-read a b (x ∷ xs) (y ∷ ys) h hx hy =
    rw (compare-read (a * 256 + x) (b * 256 + y) xs ys (omega arith) hx.1 hy.1) (
      rw (compare_digit a b x y hx.0 hy.0)
        (then_cmp_assoc (compare a b) (compare x y) (bytes_cmp xs ys)))

-- Byte strings of one length compare as the numbers that they encode.
pub bytes_cmp-from_be_bytes :
    (xs ys : List ℕ)
    → length xs ≡ length ys
    → All IsByte xs
    → All IsByte ys
    → bytes_cmp xs ys ≡ compare (from_be_bytes xs) (from_be_bytes ys)
unfolding from_be_bytes
bytes_cmp-from_be_bytes xs ys h hx hy = ground (arith, compare-read 0 0 xs ys h hx hy)

pub bytes_cmp_refl : (xs : List ℕ) → bytes_cmp xs xs ≡ eq
unfolding bytes_cmp
bytes_cmp_refl [] = refl
bytes_cmp_refl (x ∷ xs) = ground (arith, bytes_cmp_refl xs)

pub eq_of_bytes_cmp : (xs ys : List ℕ) → bytes_cmp xs ys ≡ eq → xs ≡ ys
unfolding bytes_cmp
eq_of_bytes_cmp [] [] h = refl
eq_of_bytes_cmp [] (y ∷ ys) h = cc
eq_of_bytes_cmp (x ∷ xs) [] h = cc
eq_of_bytes_cmp (x ∷ xs) (y ∷ ys) h = ground (arith, eq_of_bytes_cmp xs ys)

-- `Ordering::reverse`
abbrev pub reverse_cmp : Ordering → Ordering
reverse_cmp lt = gt
reverse_cmp eq = eq
reverse_cmp gt = lt

pub bytes_cmp_swap : (xs ys : List ℕ) → bytes_cmp ys xs ≡ reverse_cmp (bytes_cmp xs ys)
unfolding bytes_cmp
bytes_cmp_swap [] [] = refl
bytes_cmp_swap [] (y ∷ ys) = refl
bytes_cmp_swap (x ∷ xs) [] = refl
bytes_cmp_swap (x ∷ xs) (y ∷ ys) = ground (arith, bytes_cmp_swap xs ys)

pub bytes_cmp_trans :
    (xs ys zs : List ℕ) → bytes_cmp xs ys ≡ lt → bytes_cmp ys zs ≡ lt → bytes_cmp xs zs ≡ lt
unfolding bytes_cmp
bytes_cmp_trans [] [] zs h k = cc
bytes_cmp_trans [] (y ∷ ys) [] h k = cc
bytes_cmp_trans [] (y ∷ ys) (z ∷ zs) h k = refl
bytes_cmp_trans (x ∷ xs) [] zs h k = cc
bytes_cmp_trans (x ∷ xs) (y ∷ ys) [] h k = cc
bytes_cmp_trans (x ∷ xs) (y ∷ ys) (z ∷ zs) h k = ground (arith, bytes_cmp_trans xs ys zs)

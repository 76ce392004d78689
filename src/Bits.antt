-- ===== src/Bits.antt =====
-- The bitwise operations at one bit: a bit that `w | 1 << b` sets is seen by `w & 1 << b`.
use Prim.Native.Nat.{bit_and, bit_or, bit_and-bitwise, bit_or-bitwise, bitwise, digits}
use native.Mathlib.Nat.{pow-suc, le_refl}
use grainstore.Base.{
  ℕ, zero, suc, ◌+◌, ◌*◌, ◌/◌, ◌%◌, ◌^◌, ◌≤◌, ◌≡◌, ◌≢◌, max, min, refl, ap, arith, ◌==◌, Bool, true,
  not,
}

module _ (rest : ℕ → ℕ) (op : ℕ → ℕ → ℕ) where
  -- The fuel of the definition does not matter once it is enough.
  digits_enough : (n m a b : ℕ) → a ≤ n → a ≤ m → digits rest op n a b ≡ digits rest op m a b
  digits_enough n m zero b p q = at_zero n m
    where
      at_zero : (i j : ℕ) → digits rest op i zero b ≡ digits rest op j zero b
      at_zero zero zero = refl
      at_zero zero (suc j) = refl
      at_zero (suc i) zero = refl
      at_zero (suc i) (suc j) = refl
  digits_enough zero m (suc a) b p q = absurd (omega arith)
  digits_enough (suc n) zero (suc a) b p q = absurd (omega arith)
  digits_enough (suc n) (suc m) (suc a) b p q =
      rw (digits_enough n m (suc a / 2) (b / 2) (omega arith) (omega arith))

  bitwise_digit :
      (a b : ℕ)
      → bitwise rest op (suc a) b ≡ bitwise rest op (suc a / 2) (b / 2) * 2 + op (suc a % 2) (b % 2)
  bitwise_digit a b =
      omega (arith, digits_enough a (suc a / 2) (suc a / 2) (b / 2) (omega arith) (le_refl _))

bit_or_digit : (a b : ℕ) → bit_or a b ≡ bit_or (a / 2) (b / 2) * 2 + max (a % 2) (b % 2)
bit_or_digit zero b = simp bit_or-bitwise (omega arith)
bit_or_digit (suc a) b = simp bit_or-bitwise (bitwise_digit (λ y. y) max a b)

bit_and_digit : (a b : ℕ) → bit_and a b ≡ bit_and (a / 2) (b / 2) * 2 + min (a % 2) (b % 2)
bit_and_digit zero b = simp bit_and-bitwise (omega arith)
bit_and_digit (suc a) b = simp bit_and-bitwise (bitwise_digit (λ y. 0) min a b)

-- `w & 1 << b != 0`
abbrev pub has_bit : ℕ → ℕ → Bool
has_bit w b = not (bit_and w (2 ^ b) == 0)

bit_and_nil : (n a : ℕ) → a ≤ n → bit_and a 0 ≡ 0
bit_and_nil n zero h = refl
bit_and_nil zero (suc a) h = absurd (omega arith)
bit_and_nil (suc n) (suc a) h =
    omega (arith, bit_and_digit (suc a) 0, bit_and_nil n (suc a / 2) (omega arith))

bit_or_nil : (n a : ℕ) → a ≤ n → bit_or a 0 ≡ a
bit_or_nil n zero h = refl
bit_or_nil zero (suc a) h = absurd (omega arith)
bit_or_nil (suc n) (suc a) h =
    omega (arith, bit_or_digit (suc a) 0, bit_or_nil n (suc a / 2) (omega arith))

bit_and_lowest : (w : ℕ) → bit_and w 1 ≡ w % 2
bit_and_lowest w = omega (arith, bit_and_digit w 1, bit_and_nil (w / 2) (w / 2) (le_refl _))

half : (n : ℕ) → n * 2 / 2 ≡ n
half n = omega arith

bit_and_higher : (w b : ℕ) → bit_and w (2 ^ suc b) ≡ bit_and (w / 2) (2 ^ b) * 2
bit_and_higher w b = omega (
  arith,
  ap (λ (t : ℕ). bit_and w t) (pow-suc 2 b),
  bit_and_digit w (2 ^ b * 2),
  ap (λ (t : ℕ). bit_and (w / 2) t) (half (2 ^ b)),
)

bit_or_lowest : (w : ℕ) → bit_or w 1 ≡ w / 2 * 2 + 1
bit_or_lowest w = omega (arith, bit_or_digit w 1, bit_or_nil (w / 2) (w / 2) (le_refl _))

bit_or_higher : (w b : ℕ) → bit_or w (2 ^ suc b) ≡ bit_or (w / 2) (2 ^ b) * 2 + w % 2
bit_or_higher w b = omega (
  arith,
  ap (λ (t : ℕ). bit_or w t) (pow-suc 2 b),
  bit_or_digit w (2 ^ b * 2),
  ap (λ (t : ℕ). bit_or (w / 2) t) (half (2 ^ b)),
)

bit_or_half : (w c : ℕ) → bit_or w (2 ^ suc c) / 2 ≡ bit_or (w / 2) (2 ^ c)
bit_or_half w c = omega (arith, bit_or_higher w c)

-- A bit that was set stays set.
set_keeps_bit : (b c w : ℕ) → bit_and w (2 ^ b) ≢ 0 → bit_and (bit_or w (2 ^ c)) (2 ^ b) ≢ 0
set_keeps_bit zero zero w h e = absurd (omega (arith, bit_and_lowest (bit_or w 1), bit_or_lowest w))
set_keeps_bit zero (suc c) w h e =
    h (omega (arith, bit_and_lowest (bit_or w (2 ^ suc c)), bit_and_lowest w, bit_or_higher w c))
set_keeps_bit (suc b) zero w h e = h (
    omega (
      arith,
      bit_and_higher (bit_or w 1) b,
      bit_and_higher w b,
      ap (λ (t : ℕ). bit_and t (2 ^ b)) {x = bit_or w 1 / 2} {y = w / 2}
          (omega (arith, bit_or_lowest w)),
    ))
set_keeps_bit (suc b) (suc c) w h e =
    set_keeps_bit b c (w / 2) (λ z. h (omega (arith, bit_and_higher w b)))
      (omega (
        arith,
        bit_and_higher (bit_or w (2 ^ suc c)) b,
        ap (λ (t : ℕ). bit_and t (2 ^ b)) (bit_or_half w c),
      ))

-- The bit itself is set.
set_sets_bit : (b w : ℕ) → bit_and (bit_or w (2 ^ b)) (2 ^ b) ≢ 0
set_sets_bit zero w e = absurd (omega (arith, bit_and_lowest (bit_or w 1), bit_or_lowest w))
set_sets_bit (suc b) w e = set_sets_bit b (w / 2) (
    omega (
      arith,
      bit_and_higher (bit_or w (2 ^ suc b)) b,
      ap (λ (t : ℕ). bit_and t (2 ^ b)) (bit_or_half w b),
    ))

pub has_bit-bit_or : (b c w : ℕ) → has_bit w b ≡ true → has_bit (bit_or w (2 ^ c)) b ≡ true
has_bit-bit_or b c w h = ground (arith, set_keeps_bit b c w)

pub has_bit-bit_or_self : (b w : ℕ) → has_bit (bit_or w (2 ^ b)) b ≡ true
has_bit-bit_or_self b w = ground (arith, set_sets_bit b w)

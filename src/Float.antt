-- ===== src/Float.antt =====
-- The order of `f32` values on their bit patterns (IEEE 754 binary32): `partial_cmp` with the
-- program's `.unwrap_or(Ordering::Equal)`, and `total_cmp`. Arithmetic on floats is not modelled
-- here: where the program computes with them it is a parameter.
use grainstore.Base.{
  ℕ, List, false, ◌+◌, ◌-◌, ◌%◌, ◌^◌, ◌≡◌, Bool, compare, Ordering, lt, eq, gt, ltb, ◌||◌,
  if◌then◌else◌, refl,
}

-- Not a number: all exponent bits set, and a fraction that is not 0.
abbrev pub is_nan : ℕ → Bool
is_nan x = ltb 0x7f800000 (x % 2 ^ 31)

-- The values in order, both zeros at the same place.
abbrev pub value_rank : ℕ → ℕ
value_rank x = if ltb x (2 ^ 31) then 2 ^ 31 + x else 2 ^ 32 - x

-- `a.partial_cmp(&b).unwrap_or(Ordering::Equal)`
unfoldable pub cmp_or_equal : ℕ → ℕ → Ordering
cmp_or_equal a b = if is_nan a || is_nan b then eq else compare (value_rank a) (value_rank b)

abbrev pub total_rank : ℕ → ℕ
total_rank x = if ltb x (2 ^ 31) then 2 ^ 31 + x else 2 ^ 32 - 1 - x

-- `a.total_cmp(&b)`
unfoldable pub total_cmp : ℕ → ℕ → Ordering
total_cmp a b = compare (total_rank a) (total_rank b)

-- `a < b`
abbrev pub lt32 : ℕ → ℕ → Bool
lt32 a b = if is_nan a || is_nan b then false else ltb (value_rank a) (value_rank b)

-- `a.max(b)`
abbrev pub max32 : ℕ → ℕ → ℕ
max32 a b =
    if is_nan a
    then b
    else if is_nan b
    then a
    else if ltb (value_rank a) (value_rank b)
    then b
    else a

abbrev pub infinity : ℕ
infinity = 0x7f800000

-- The arithmetic of `f32`, on bit patterns: `sum` is that of an iterator, `of_nat n` is `n as f32`, and
-- `to_nat a` is `a as usize`.
pub record Float32 : Type 0 where
  pub add : ℕ → ℕ → ℕ
  pub sub : ℕ → ℕ → ℕ
  pub mul : ℕ → ℕ → ℕ
  pub div : ℕ → ℕ → ℕ
  pub sqrt : ℕ → ℕ
  pub sum : List ℕ → ℕ
  pub of_nat : ℕ → ℕ
  pub to_nat : ℕ → ℕ

-- What the filter and the graph use of `f64`: `of_nat n` is `n as f64`, `to_nat a` is `a as u64`, and
-- `lit n d` is the literal n / d.
pub record LogFloat : Type 1 where
  pub Real : Type 0
  pub lit : ℕ → ℕ → Real
  pub ln_2 : Real
  pub of_nat : ℕ → Real
  pub neg : Real → Real
  pub mul : Real → Real → Real
  pub div : Real → Real → Real
  pub ln : Real → Real
  pub larger : Real → Real → Real
  pub ceil : Real → Real
  pub floor : Real → Real
  pub round : Real → Real
  pub to_nat : Real → ℕ

-- -0.0 and 0.0 compare equal, -1.0 is below, infinity above.
cmp_or_equal_examples :
    (cmp_or_equal 0x80000000 0 ≡ eq)
    × (cmp_or_equal 0xbf800000 0 ≡ lt)
    × (cmp_or_equal 0x7f800000 0x3f800000 ≡ gt)
unfolding cmp_or_equal
cmp_or_equal_examples = (refl, refl, refl)

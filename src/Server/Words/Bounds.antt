-- ===== src/Server/Words/Bounds.antt =====
-- Reading numbers as `str::parse` does: their range.
use grainstore.Base.{
  ℕ, ◌+◌, ◌*◌, ◌-◌, ◌%◌, ◌^◌, ◌<◌, ◌≤◌, ◌≡◌, List, [], ◌∷◌, Option, none, some, leb, ◌==◌, ◌&&◌,
  &&-eq-true, Bool-cases, inl, inr, arith,
}
use grainstore.Server.Words.{digits, number, negated, is_digit, parse_u64, parse_i64}

digits-le :
    (bound n : ℕ) (text : List ℕ) (m : ℕ) → n ≤ bound → digits bound n text ≡ some m → m ≤ bound
unfolding digits
digits-le bound n [] m h e = ground (arith, e)
digits-le bound n (b ∷ text) m h e =
    elim (Bool-cases (is_digit b && leb (n * 10 + (b - 48)) bound)) [
      | inl fits ↦
          let (_, within) = &&-eq-true (is_digit b) (leb (n * 10 + (b - 48)) bound) fits in
          let below : (n * 10 + (b - 48) ≤ bound) = ground (arith, within) in
          digits-le bound (n * 10 + (b - 48)) text m below (rw (fits, digits) at e)
      | inr stops ↦ let never : (none ≡ some m) = rw (stops, digits) at e in absurd (cc)
    ]

number-le : (bound : ℕ) (text : List ℕ) (m : ℕ) → number bound text ≡ some m → m ≤ bound
unfolding number
number-le bound [] m e = absurd (cc)
number-le bound (b ∷ text) m e = digits-le bound 0 (b ∷ text) m (omega arith) e

-- Every number that is read as a `u64` is one.
pub parse_u64-lt : (text : List ℕ) (m : ℕ) → parse_u64 text ≡ some m → m < 2 ^ 64
unfolding parse_u64
parse_u64-lt [] m e = absurd (cc)
parse_u64-lt (b ∷ text) m e = elim (Bool-cases (b == b'+')) [
  | inl plus ↦ let h = number-le (2 ^ 64 - 1) text m (rw (plus, parse_u64) at e) in omega arith
  | inr bare ↦
      let h = number-le (2 ^ 64 - 1) (b ∷ text) m (rw (bare, parse_u64) at e) in omega arith
]

negated-lt : (o : Option ℕ) (m : ℕ) → negated o ≡ some m → m < 2 ^ 64
unfolding negated
negated-lt none m e = absurd (cc)
negated-lt (some n) m e = let same : ((2 ^ 64 - n) % 2 ^ 64 ≡ m) = cc in omega arith

-- Every number that is read as an `i64` is the two's complement of one.
pub parse_i64-lt : (text : List ℕ) (m : ℕ) → parse_i64 text ≡ some m → m < 2 ^ 64
unfolding parse_i64
parse_i64-lt [] m e = absurd (cc)
parse_i64-lt (b ∷ text) m e = elim (Bool-cases (b == b'-')) [
  | inl minus ↦ negated-lt (number (2 ^ 63) text) m (rw (minus, parse_i64) at e)
  | inr positive ↦ elim (Bool-cases (b == b'+')) [
    | inl plus ↦
        let h = number-le (2 ^ 63 - 1) text m (rw (positive, plus, parse_i64) at e) in omega arith
    | inr bare ↦
        let h = number-le (2 ^ 63 - 1) (b ∷ text) m (rw (positive, bare, parse_i64) at e) in
        omega arith
  ]
]

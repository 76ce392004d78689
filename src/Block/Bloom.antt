-- ===== src/Block/Bloom.antt =====
-- src/block.rs: the Bloom filter over sids. The `f64` arithmetic that sizes it is a parameter.
pub mod Laws
use Prim.Native.Nat.{bit_and, bit_or, bit_xor}
use grainstore.Base.{
  ℕ, zero, suc, ◌+◌, ◌*◌, ◌/◌, ◌%◌, ◌^◌, ◌-◌, max, min, List, Bool, true, not, ◌&&◌, ◌==◌, get_or,
  set, replicate,
}
use grainstore.Bits.{has_bit}
use grainstore.Float.{LogFloat}

pub record Bloom : Type 0 where
  pub bits : List ℕ
  pub m_bits : ℕ
  pub k : ℕ

-- An unsigned 64-bit number, wrapped.
abbrev wrap : ℕ → ℕ
wrap n = n % 2 ^ 64

-- Bloom::new
unfoldable pub new : (f : LogFloat) → ℕ → f.Real → Bloom
new f expected fp =
    let n = f.of_nat (max expected 1) in
    let m = f.ceil (f.div (f.neg (f.mul n (f.ln fp))) (f.mul f.ln_2 f.ln_2)) in
    let m_bits = max (f.to_nat m) 64 in
    let rounds = f.larger (f.round (f.mul (f.div (f.of_nat m_bits) n) f.ln_2)) (f.lit 1 1) in
    record {
      bits = replicate ((m_bits + 63) / 64) 0;
      m_bits = m_bits;
      k = min (f.to_nat rounds) (2 ^ 32 - 1);
    }

-- Bloom::splitmix
unfoldable pub splitmix : ℕ → ℕ
splitmix start =
    let z = wrap (start + 0x9E3779B97F4A7C15) in
    let z' = wrap (bit_xor z (z / 2 ^ 30) * 0xBF58476D1CE4E5B9) in
    let z'' = wrap (bit_xor z' (z' / 2 ^ 27) * 0x94D049BB133111EB) in bit_xor z'' (z'' / 2 ^ 31)

-- Bloom::hashes
unfoldable pub hashes : ℕ → ℕ × ℕ
unfolding splitmix
hashes x =
    let lo = x % 2 ^ 64 in
    let hi = x / 2 ^ 64 in
    (
      splitmix (bit_xor lo (wrap (hi * 0xD6E8FEB86659FD93))),
      bit_or (splitmix (bit_xor hi (wrap (lo * 0x9E3779B97F4A7C15)))) 1,
    )

-- The bit of round `i`.
unfoldable pub probe : ℕ → ℕ × ℕ → ℕ → ℕ
probe m_bits h i = wrap (h.0 + wrap (i * h.1)) % m_bits

-- `self.bits[bit / 64] |= 1 << (bit % 64)`
unfoldable pub set_bit : List ℕ → ℕ → List ℕ
set_bit bits bit = set bits (bit / 64) (bit_or (get_or 0 bits (bit / 64)) (2 ^ (bit % 64)))

-- `self.bits[bit / 64] & (1 << (bit % 64)) != 0`
unfoldable pub test_bit : List ℕ → ℕ → Bool
test_bit bits bit = has_bit (get_or 0 bits (bit / 64)) (bit % 64)

-- The loop of `insert` from round `i` on.
unfoldable pub insert_loop : ℕ → ℕ × ℕ → ℕ → ℕ → List ℕ → List ℕ
unfolding probe set_bit
insert_loop m_bits h zero i bits = bits
insert_loop m_bits h (suc rounds) i bits =
    insert_loop m_bits h rounds (i + 1) (set_bit bits (probe m_bits h i))

unfoldable pub insert : Bloom → ℕ → Bloom
unfolding insert_loop
insert b x = record b { bits = insert_loop b.m_bits (hashes x) b.k 0 b.bits }

-- The loop of `maybe_contains` from round `i` on.
unfoldable pub contains_loop : ℕ → ℕ × ℕ → ℕ → ℕ → List ℕ → Bool
unfolding probe test_bit
contains_loop m_bits h zero i bits = true
contains_loop m_bits h (suc rounds) i bits =
    test_bit bits (probe m_bits h i) && contains_loop m_bits h rounds (i + 1) bits

unfoldable pub maybe_contains : Bloom → ℕ → Bool
unfolding contains_loop
maybe_contains b x = contains_loop b.m_bits (hashes x) b.k 0 b.bits

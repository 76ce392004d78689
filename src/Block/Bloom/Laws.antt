-- ===== src/Block/Bloom/Laws.antt =====
-- src/block.rs: insertions into the Bloom filter and the lookups after them.
use grainstore.Float.{LogFloat}
use grainstore.Base.{
  ℕ, zero, suc, ◌+◌, ◌*◌, ◌/◌, ◌%◌, ◌≤◌, ◌<◌, ◌≡◌, refl, &&-eq-true, List, [], ◌∷◌, All, true,
  replicate, length, length-set, length-replicate, get_or-set_self, get_or-set_other, foldl, max,
  arith,
}
use native.Mathlib.Decide.{ℕ_discrete}
use grainstore.Bits.{has_bit-bit_or, has_bit-bit_or_self}
use grainstore.Block.Bloom.{
  Bloom, new, hashes, probe, set_bit, test_bit, insert_loop, insert, contains_loop, maybe_contains,
}

-- A filter whose bits all have a word.
pub record IsBloom (b : Bloom) : Type 0 where
  pub some_bits : 0 < b.m_bits
  pub enough_words : b.m_bits ≤ 64 * length b.bits

-- Every bit that is set in the first is set in the second.
abbrev Within : List ℕ → List ℕ → Type 0
Within bits bits' = (bit : ℕ) → test_bit bits bit ≡ true → test_bit bits' bit ≡ true

set_bit-Within : (bits : List ℕ) (c : ℕ) → c / 64 < length bits → Within bits (set_bit bits c)
unfolding set_bit test_bit
set_bit-Within bits c fits bit h = elim (ℕ_discrete (c / 64) (bit / 64)) [
  | yes same ↦
      rw (← same, get_or-set_self 0 bits (c / 64) _ fits)
        (has_bit-bit_or (bit % 64) (c % 64) _ (rw same h))
  | no other ↦ rw (get_or-set_other 0 bits (c / 64) (bit / 64) _ other) h
]

test_bit-set_bit :
    (bits : List ℕ) (c : ℕ) → c / 64 < length bits → test_bit (set_bit bits c) c ≡ true
unfolding set_bit test_bit
test_bit-set_bit bits c fits =
    rw (get_or-set_self 0 bits (c / 64) _ fits) (has_bit-bit_or_self (c % 64) _)

length-set_bit : (bits : List ℕ) (c : ℕ) → length (set_bit bits c) ≡ length bits
unfolding set_bit
length-set_bit bits c = length-set bits (c / 64) _

probe-lt : (m : ℕ) (h : ℕ × ℕ) (i : ℕ) → 0 < m → probe m h i < m
unfolding probe
probe-lt m h i some = grind arith

module _ (m : ℕ) (h : ℕ × ℕ) (some : 0 < m) where
  word_fits : (i : ℕ) (bits : List ℕ) → m ≤ 64 * length bits → probe m h i / 64 < length bits
  word_fits i bits enough = omega (arith, probe-lt m h i some)

  length-insert_loop :
      (rounds i : ℕ) (bits : List ℕ) → length (insert_loop m h rounds i bits) ≡ length bits
  unfolding insert_loop
  length-insert_loop zero i bits = refl
  length-insert_loop (suc r) i bits = omega (
    arith,
    length-insert_loop r (i + 1) (set_bit bits (probe m h i)),
    length-set_bit bits (probe m h i),
  )

  insert_loop-Within :
      (rounds i : ℕ) (bits : List ℕ)
      → m ≤ 64 * length bits
      → Within bits (insert_loop m h rounds i bits)
  unfolding insert_loop
  insert_loop-Within zero i bits enough bit t = t
  insert_loop-Within (suc r) i bits enough bit t =
      insert_loop-Within r (i + 1) (set_bit bits (probe m h i))
        (omega (arith, length-set_bit bits (probe m h i))) bit
        (set_bit-Within bits (probe m h i) (word_fits i bits enough) bit t)

  -- The bits that an insertion sets are those that the lookup tests.
  contains_loop-insert_loop :
      (rounds i : ℕ) (bits : List ℕ)
      → m ≤ 64 * length bits
      → contains_loop m h rounds i (insert_loop m h rounds i bits) ≡ true
  unfolding contains_loop insert_loop
  contains_loop-insert_loop zero i bits enough = refl
  contains_loop-insert_loop (suc r) i bits enough =
      let next = set_bit bits (probe m h i) in
      let room : (m ≤ 64 * length next) = omega (arith, length-set_bit bits (probe m h i)) in
      rw (
        insert_loop-Within r (i + 1) next room (probe m h i)
            (test_bit-set_bit bits (probe m h i) (word_fits i bits enough)),
        contains_loop-insert_loop r (i + 1) next room,
      )

contains_loop-Within :
    (m : ℕ) (h : ℕ × ℕ) (rounds i : ℕ) (bits bits' : List ℕ)
    → Within bits bits'
    → contains_loop m h rounds i bits ≡ true
    → contains_loop m h rounds i bits' ≡ true
unfolding contains_loop
contains_loop-Within m h zero i bits bits' w t = t
contains_loop-Within m h (suc r) i bits bits' w t =
    let parts = &&-eq-true (test_bit bits (probe m h i)) _ t in
    rw (w (probe m h i) parts.0, contains_loop-Within m h r (i + 1) bits bits' w parts.1)

pub insert-IsBloom : (b : Bloom) (x : ℕ) → IsBloom b → IsBloom (insert b x)
unfolding insert
insert-IsBloom b x h = record {
  some_bits = h.some_bits;
  enough_words =
      omega
        (arith, h.enough_words, length-insert_loop b.m_bits (hashes x) h.some_bits b.k 0 b.bits);
}

maybe_contains-insert_self : (b : Bloom) (x : ℕ) → IsBloom b → maybe_contains (insert b x) x ≡ true
unfolding insert maybe_contains
maybe_contains-insert_self b x h =
    contains_loop-insert_loop b.m_bits (hashes x) h.some_bits b.k 0 b.bits h.enough_words

maybe_contains-insert :
    (b : Bloom) (x y : ℕ)
    → IsBloom b
    → maybe_contains b y ≡ true
    → maybe_contains (insert b x) y ≡ true
unfolding insert maybe_contains
maybe_contains-insert b x y h t =
    contains_loop-Within b.m_bits (hashes y) b.k 0 b.bits _
      (insert_loop-Within b.m_bits (hashes x) h.some_bits b.k 0 b.bits h.enough_words) t

enough_new : (t : ℕ) → max t 64 ≤ 64 * length (replicate {A = ℕ} ((max t 64 + 63) / 64) 0)
enough_new t = omega (arith, length-replicate {A = ℕ} ((max t 64 + 63) / 64) 0)

pub new-IsBloom : (f : LogFloat) (expected : ℕ) (fp : f.Real) → IsBloom (new f expected fp)
unfolding new
new-IsBloom f expected fp = record { some_bits = ground arith; enough_words = enough_new _ }

kept_after :
    (b : Bloom) (y : ℕ) (xs : List ℕ)
    → IsBloom b
    → maybe_contains b y ≡ true
    → maybe_contains (foldl insert b xs) y ≡ true
kept_after b y [] h t = t
kept_after b y (x ∷ xs) h t =
    kept_after (insert b x) y xs (insert-IsBloom b x h) (maybe_contains-insert b x y h t)

-- No false negatives: whatever was inserted into a filter, before or after other sids, is found, for
-- every arithmetic that sized it.
pub maybe_contains-foldl :
    (b : Bloom) (xs : List ℕ)
    → IsBloom b
    → All (λ x. maybe_contains (foldl insert b xs) x ≡ true) xs
maybe_contains-foldl b [] h = tt
maybe_contains-foldl b (x ∷ xs) h = (
  kept_after (insert b x) x xs (insert-IsBloom b x h) (maybe_contains-insert_self b x h),
  maybe_contains-foldl (insert b x) xs (insert-IsBloom b x h),
)

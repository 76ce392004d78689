-- ===== src/Vector/Brute.antt =====
-- src/vector/brute.rs, with `l2_sq` of src/vector/mod.rs: the exact index. The order of the entries
-- of the map stands for the order in which an iteration over it goes, which is not known.
use grainstore.Base.{
  ℕ, ◌≤◌, ◌≡◌, refl, arith, List, [], ◌∷◌, Option, none, some, length, take, Ordering,
}
use grainstore.Base.Panic.{◌>>=◌}
use grainstore.Base.HashMap
use grainstore.Float.{cmp_or_equal, Float32}
use grainstore.Model.{Sid}
use grainstore.Sort.{sort_by}
use grainstore.Vector.{Candidate, VectorIndex}

-- The loop of `l2_sq`, with `s`. It goes over the indices of `a`; one that is out of bounds of `b` is
-- a panic. The assertion that the lengths are the same is one of debug builds only.
l2_loop : Float32 → ℕ → List ℕ → List ℕ → Option ℕ
l2_loop f s [] b = some s
l2_loop f s (x ∷ xs) [] = none
l2_loop f s (x ∷ xs) (y ∷ ys) = let d = f.sub x y in l2_loop f (f.add s (f.mul d d)) xs ys

-- `0.0f32` has the bit pattern 0.
unfoldable pub l2_sq : Float32 → List ℕ → List ℕ → Option ℕ
unfolding l2_loop
l2_sq f a b = l2_loop f 0 a b

l2_loop_total :
    (f : Float32) (s : ℕ) (a b : List ℕ)
    → length a ≤ length b
    → (d : ℕ) × (l2_loop f s a b ≡ some d)
unfolding l2_loop
l2_loop_total f s [] b fits = (s, refl)
l2_loop_total f s (x ∷ xs) [] fits = absurd (omega arith)
l2_loop_total f s (x ∷ xs) (y ∷ ys) fits = l2_loop_total f _ xs ys (omega arith)

pub l2_sq_total :
    (f : Float32) (a b : List ℕ) → length a ≤ length b → (d : ℕ) × (l2_sq f a b ≡ some d)
unfolding l2_sq
l2_sq_total f a b fits = l2_loop_total f 0 a b fits

abbrev pub BruteForceIndex : Type 0
BruteForceIndex = List (ℕ × List ℕ)

abbrev pub new : BruteForceIndex
new = []

unfoldable pub insert : BruteForceIndex → Sid → List ℕ → BruteForceIndex
insert m sid vector = HashMap.insert sid vector m

unfoldable pub remove : BruteForceIndex → Sid → BruteForceIndex
remove m sid = HashMap.remove sid m

-- The comparison of the sort.
abbrev pub by_dist : Candidate → Candidate → Ordering
by_dist a b = cmp_or_equal a.dist b.dist

unfoldable pub all_candidates : Float32 → BruteForceIndex → List ℕ → Option (List Candidate)
unfolding l2_sq
all_candidates f [] query = some []
all_candidates f (e ∷ m) query = do
  d ← l2_sq f query e.1
  rest ← all_candidates f m query
  some (record { sid = e.0; dist = d } ∷ rest)

-- With a NaN the comparison is no total order, for which `sort_by` may panic too.
unfoldable pub search : Float32 → BruteForceIndex → List ℕ → ℕ → ℕ → Option (List Candidate)
unfolding all_candidates
search f m query k ef = do out ← all_candidates f m query; some (take k (sort_by by_dist out))

unfoldable pub len : BruteForceIndex → ℕ
len m = length m

-- The implementation of the trait.
unfoldable pub brute_force : Float32 → VectorIndex
unfolding insert remove search len
brute_force f = record {
  Index = BruteForceIndex;
  insert = insert;
  remove = remove;
  search = search f;
  len = len;
}

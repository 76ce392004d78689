-- ===== src/Tests/Blocks.antt =====
-- The block index on a few grains, and the witnesses of its theorems.
use grainstore.Float.{LogFloat}
use grainstore.Base.{
  ℕ, ◌+◌, ◌*◌, ◌/◌, ◌-◌, ◌≡◌, refl, max, List, [], ◌∷◌, All, some, map, foldl, arith,
}
use grainstore.Block.{GrainRec, build, centroid_of, radius_of, l2}
use grainstore.Block.Cluster.{kmeans_assign, assign_all}
use grainstore.Block.Bloom
use grainstore.Block.Bloom.{Bloom, maybe_contains}
use grainstore.Block.Count.{count_category-build_clustered}
use grainstore.Block.Near.{Triangle, candidate, near-build_clustered}
use grainstore.Block.Point.{Answers, get-build_clustered}
use grainstore.Block.Scan.{dist_rank}
use grainstore.Block.Sketch.{count_cat}
use grainstore.Block.Store.{
  BlockStore, Candidate, QueryStats, build_groups, build_clustered, get, count_category, near,
}
use grainstore.Float.{Float32}
use grainstore.Sort.Laws.{IsNearest}

-- Whole numbers in place of floats.
abbrev pub whole : Float32
whole = record {
  add = λ a b. a + b;
  sub = λ a b. a - b;
  mul = λ a b. a * b;
  div = λ a b. a / b;
  sqrt = λ a. a;
  sum = λ xs. foldl (λ a b. a + b) 0 xs;
  of_nat = λ n. n;
  to_nat = λ n. n;
}

abbrev pub whole_log : LogFloat
whole_log = record {
  Real = ℕ;
  lit = λ n d. n / d;
  ln_2 = 1;
  of_nat = λ n. n;
  neg = λ a. a;
  mul = λ a b. a * b;
  div = λ a b. a / b;
  ln = λ a. a;
  larger = λ a b. max a b;
  ceil = λ a. a;
  floor = λ a. a;
  round = λ a. a;
  to_nat = λ a. max (a - 61) 1;
}

abbrev grain : ℕ → ℕ → List ℕ → GrainRec
grain sid cat vector = record {
  sid = sid;
  pred = 1;
  cat = cat;
  vector = vector;
  t_tx = sid;
  conf = 0;
}

abbrev near_one : GrainRec
near_one = grain 1 3 (2 ∷ 2 ∷ [])

abbrev far_one : GrainRec
far_one = grain 2 5 (9 ∷ 9 ∷ [])

abbrev filter : Bloom
filter = Bloom.new whole_log 2 0

count_category-build_clustered_example :
    (blocks : BlockStore) × (build_clustered whole whole_log (near_one ∷ far_one ∷ []) 2 1
      ≡ some blocks)
    × ((count_category blocks 5).0 ≡ count_cat 5 (near_one ∷ far_one ∷ []))
count_category-build_clustered_example =
    count_category-build_clustered whole whole_log near_one (far_one ∷ []) 2 1 5 (omega arith)
      (omega arith, (omega arith, tt)) (omega arith)

get-build_clustered_example :
    (blocks : BlockStore) × (build_clustered whole whole_log (near_one ∷ far_one ∷ []) 2 1
      ≡ some blocks)
    × Answers 2 (near_one ∷ far_one ∷ []) (get blocks 2).0
get-build_clustered_example =
    get-build_clustered whole whole_log near_one (far_one ∷ []) 2 1 2 (omega arith)

abbrev two_blocks : BlockStore
two_blocks = build_groups whole whole_log ((near_one ∷ []) ∷ (far_one ∷ []) ∷ [])

two_blocks-build_clustered :
    build_clustered whole whole_log (near_one ∷ far_one ∷ []) 2 1 ≡ some two_blocks
unfolding build_clustered kmeans_assign assign_all l2
two_blocks-build_clustered = refl

two_blocks-Triangle :
    All (λ b. All (Triangle whole (9 ∷ 9 ∷ []) b) (near_one ∷ far_one ∷ [])) two_blocks
unfolding build_groups build l2 centroid_of radius_of
two_blocks-Triangle = (
  ((refl, refl, λ h. omega arith), ((refl, refl, λ h. omega arith), tt)),
  (((refl, refl, λ h. omega arith), ((refl, refl, λ h. omega arith), tt)), tt),
)

near-build_clustered_example :
    (best : List Candidate) × (stats : QueryStats) × (near whole two_blocks (9 ∷ 9 ∷ []) 1
      ≡ some (best, stats))
    × IsNearest dist_rank 1 (map (candidate whole (9 ∷ 9 ∷ [])) (near_one ∷ far_one ∷ [])) best
near-build_clustered_example =
    near-build_clustered whole (9 ∷ 9 ∷ []) whole_log near_one (far_one ∷ []) 2 1 1 two_blocks
      (omega arith) (omega arith) (omega arith) two_blocks-build_clustered two_blocks-Triangle

-- ===== src/Block/Store.antt =====
-- src/block.rs: the collection of blocks, and its queries. A panic is `none`.
use grainstore.Float.{LogFloat}
use grainstore.Base.{
  ℕ, zero, suc, ◌+◌, ◌%◌, ◌^◌, List, [], ◌∷◌, ◌++◌, Option, none, some, ltb, ◌==◌, if◌then◌else◌,
  map, length, take, get_elem?, get_or, set, replicate, Ordering,
}
use grainstore.Block.{GrainRec, Block, build, find, category_count, l2}
use grainstore.Block.Bloom.{maybe_contains}
use grainstore.Block.Cluster.{kmeans_assign}
use grainstore.Float.{Float32, cmp_or_equal, lt32, infinity}
use grainstore.Sort.{sort_by}
use grainstore.Vector.{has_capacity}

pub record Candidate : Type 0 where
  pub sid : ℕ
  pub dist : ℕ

pub record QueryStats : Type 0 where
  pub blocks_touched : ℕ
  pub blocks_total : ℕ

abbrev pub BlockStore : Type 0
BlockStore = List Block

-- `groups[a].push(r.clone())` over the records; a number with no group is a panic.
unfoldable pub group_all :
    List (List GrainRec) → List GrainRec → List ℕ → Option (List (List GrainRec))
group_all groups (r ∷ recs) (a ∷ assign) =
    let next = group_all (set groups a (get_or [] groups a ++ (r ∷ []))) recs assign in
    if ltb a (length groups) then next else none
group_all groups _ _ = some groups

-- A block for each group that is not empty.
unfoldable pub build_groups : Float32 → LogFloat → List (List GrainRec) → BlockStore
build_groups f g [] = []
build_groups f g ([] ∷ groups) = build_groups f g groups
build_groups f g ((r ∷ rest) ∷ groups) = build f g r rest ∷ build_groups f g groups

-- BlockStore::build_clustered; with no records at all `recs[0]` panics.
unfoldable pub build_clustered : Float32 → LogFloat → List GrainRec → ℕ → ℕ → Option BlockStore
unfolding group_all build_groups
build_clustered f g [] n_blocks iters = none
build_clustered f g (first ∷ rest) n_blocks iters =
    elim (group_all (replicate n_blocks []) (first ∷ rest)
      (kmeans_assign f first rest n_blocks iters)) [
        | none ↦ none
        | some groups ↦ some (build_groups f g groups)
      ]

unfoldable pub block_count : BlockStore → ℕ
block_count blocks = length blocks

-- The loop of `get` with `touched`.
unfoldable pub get_loop : ℕ → ℕ → List Block → Option ℕ × ℕ
get_loop sid touched [] = (none, touched)
get_loop sid touched (b ∷ blocks) =
    let skipped = get_loop sid touched blocks in
    let missed = get_loop sid (touched + 1) blocks in
    if maybe_contains b.descriptor.sid_bloom sid
    then elim (find b sid) [ some (cat, _) ↦ (some cat, touched + 1) | none ↦ missed ]
    else skipped

unfoldable pub get : BlockStore → ℕ → Option ℕ × QueryStats
unfolding get_loop
get blocks sid =
    let (found, touched) = get_loop sid 0 blocks in
    (found, record { blocks_touched = touched; blocks_total = length blocks })

-- The loop of `count_category` with `total` and `touched`.
unfoldable pub count_in : ℕ → List ℕ → ℕ
count_in cat [] = 0
count_in cat (c ∷ cats) = if c == cat then suc (count_in cat cats) else count_in cat cats

unfoldable pub count_loop : ℕ → ℕ → ℕ → List Block → ℕ × ℕ
unfolding count_in
count_loop cat total touched [] = (total, touched)
count_loop cat total touched (b ∷ blocks) =
    let skipped = count_loop cat total touched blocks in
    let counted = count_loop cat (total + count_in cat b.cats) (touched + 1) blocks in
    if category_count b.descriptor cat == 0 then skipped else counted

unfoldable pub count_category : BlockStore → ℕ → ℕ × QueryStats
unfolding count_loop
count_category blocks cat =
    let (total, touched) = count_loop cat 0 0 blocks in
    (total, record { blocks_touched = touched; blocks_total = length blocks })

-- The comparison of the sort by distance.
abbrev pub by_dist : Candidate → Candidate → Ordering
by_dist a b = cmp_or_equal a.dist b.dist

-- `best[k - 1].dist`, or infinity; with `k == 0` the index panics.
unfoldable pub kth_best : ℕ → List Candidate → Option ℕ
kth_best k best = if ltb (length best) k then some infinity else elim k [
  | zero ↦ none
  | suc j ↦ elim (get_elem? best j) [ none ↦ none | some c ↦ some c.dist ]
]

module _ (f : Float32) where
  -- The candidates of a block: its sids beside the distances of its vectors.
  unfoldable pub candidates_of : List ℕ → List ℕ → List (List ℕ) → List Candidate
  candidates_of q (s ∷ sids) (v ∷ vectors) =
      record { sid = s; dist = l2 f q v } ∷ candidates_of q sids vectors
  candidates_of q _ _ = []

  -- The loop of `near` over the blocks in order, each with the distance of its centroid; a block
  -- stands in place of its index.
  unfoldable pub near_loop :
      List ℕ → ℕ → List Candidate → ℕ → List (ℕ × Block) → Option (List Candidate × ℕ)
  unfolding candidates_of kth_best
  near_loop q k best touched [] = some (best, touched)
  near_loop q k best touched ((d_centroid, b) ∷ order) =
      let skipped = near_loop q k best touched order in
      let visited =
        near_loop q k (take k (sort_by by_dist (best ++ candidates_of q b.sids b.vectors)))
          (touched + 1) order in
      elim (kth_best k best) [
        | none ↦ none
        | some kth ↦ if lt32 kth (f.sub d_centroid b.descriptor.radius) then skipped else visited
      ]

  -- The comparison of the sort of the blocks.
  abbrev pub by_centroid : ℕ × Block → ℕ × Block → Ordering
  by_centroid a b = cmp_or_equal a.0 b.0

  unfoldable pub order_of : List ℕ → BlockStore → List (ℕ × Block)
  order_of q blocks = sort_by by_centroid (map (λ b. (l2 f q b.descriptor.centroid, b)) blocks)

  -- The room for `k + 1` candidates, whose sum wraps, is reserved first.
  unfoldable pub near : BlockStore → List ℕ → ℕ → Option (List Candidate × QueryStats)
  unfolding near_loop order_of has_capacity
  near blocks q k =
      let found : Option (List Candidate × QueryStats) =
        elim (near_loop q k [] 0 (order_of q blocks)) [
          | none ↦ none
          | some (best, touched) ↦
              some (best, record { blocks_touched = touched; blocks_total = length blocks })
        ] in
      if has_capacity ((k + 1) % 2 ^ 64) then found else none

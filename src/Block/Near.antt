-- ===== src/Block/Near.antt =====
-- src/block.rs: BlockStore::near over the blocks that are built from some records.
use mathlib.Core.List.{Perm, Permᴰ, Perm-prop, perm_append_comm, map-append}
use mathlib.Core.List.Perm
use mathlib.Core.Logic.{∥∥₁_elim}
use native.Mathlib.Bridge.{le_prop}
use mathlib.Core.Option.{some_inj}
use grainstore.Float.{LogFloat}
use grainstore.Base.{
  ℕ, ◌+◌, ◌*◌, ◌%◌, ◌^◌, ltb, true, ◌≤◌, ◌<◌, ◌≡◌, refl, sym, ◌∙◌, subst, ap, List, [], ◌∷◌, ◌++◌,
  All, All-map, All-perm, All-of_append, append_assoc, some, map, length, arith, false,
}
use grainstore.Block.{GrainRec, Block, build, l2}
use grainstore.Block.Groups.{members}
use grainstore.Vector.{has_capacity}
use grainstore.Block.Groups
use grainstore.Block.Scan.{dist_rank, Clean, found_in, found_in_all, IsBounded, near_loop-Kept}
use grainstore.Block.Sketch.{sids-build, vectors-build, radius-build}
use grainstore.Block.Store.{
  BlockStore, Candidate, QueryStats, build_groups, build_clustered, candidates_of, by_centroid,
  order_of, near,
}
use grainstore.Float.{Float32, is_nan, value_rank}
use grainstore.Sort.Laws.{IsNearest, sort_by-All, sort_by-perm}
use grainstore.Sort.Nearest.{IsNearest-perm}

swap_front : (xs ys zs : List Candidate) → Perm (xs ++ (ys ++ zs)) (ys ++ (xs ++ zs))
swap_front xs ys zs =
    rw (← append_assoc xs ys zs, ← append_assoc ys xs zs)
      (Perm.append_right zs (perm_append_comm xs ys))

nothing-IsNearest : (k : ℕ) → IsNearest dist_rank k [] []
nothing-IsNearest k = record {
  ordered = tt;
  count = omega arith;
  left = [];
  parts = Perm.refl [];
  nearest = tt;
}

module _ (f : Float32) (q : List ℕ) where
  abbrev pub candidate : GrainRec → Candidate
  candidate r = record { sid = r.sid; dist = l2 f q r.vector }

  candidates_of-map :
      (recs : List GrainRec)
      → candidates_of f q (map (λ r. r.sid) recs) (map (λ r. r.vector) recs) ≡ map candidate recs
  unfolding candidates_of
  candidates_of-map [] = refl
  candidates_of-map (r ∷ recs) = ap (◌∷◌ (candidate r)) (candidates_of-map recs)

  -- The triangle inequality for the query, a vector and the centroid of a block whose radius reaches
  -- the vector. No distance of them is a NaN.
  abbrev pub Triangle : Block → GrainRec → Type 0
  Triangle b r =
      (is_nan (l2 f q r.vector) ≡ false)
      × (is_nan (l2 f r.vector b.descriptor.centroid) ≡ false)
      × (value_rank (l2 f r.vector b.descriptor.centroid) ≤ value_rank b.descriptor.radius
          → value_rank (f.sub (l2 f q b.descriptor.centroid) b.descriptor.radius)
            ≤ value_rank (l2 f q r.vector))

  abbrev with_centroid : Block → ℕ × Block
  with_centroid b = (l2 f q b.descriptor.centroid, b)

  module _ (g : LogFloat) where
    found_in-build :
        (first : GrainRec) (rest : List GrainRec)
        → found_in f q (build f g first rest) ≡ map candidate (first ∷ rest)
    found_in-build first rest =
        rw (sids-build f g first rest, vectors-build f g first rest)
          (candidates_of-map (first ∷ rest))

    bounded_candidates :
        (b : Block) (recs : List GrainRec)
        → All (Triangle b) recs
        → All
            (λ r. value_rank (l2 f r.vector b.descriptor.centroid) ≤ value_rank b.descriptor.radius)
            recs
        → All
            (λ c.
              Clean c
              × (value_rank (f.sub (l2 f q b.descriptor.centroid) b.descriptor.radius)
                  ≤ dist_rank c))
            (map candidate recs)
    bounded_candidates b [] tri reach = tt
    bounded_candidates b (r ∷ recs) tri reach =
        ((tri.0.0, tri.0.2 reach.0), bounded_candidates b recs tri.1 reach.1)

    build-IsBounded :
        (first : GrainRec) (rest : List GrainRec)
        → All (Triangle (build f g first rest)) (first ∷ rest)
        → IsBounded f q (with_centroid (build f g first rest))
    build-IsBounded first rest tri = rw (found_in-build first rest) (
        bounded_candidates (build f g first rest) (first ∷ rest) tri
          (radius-build f g first rest (All-map _ _ (λ r t. t.1) (first ∷ rest) tri)))

    build_groups-IsBounded :
        (gs : List (List GrainRec))
        → All (λ b. All (Triangle b) (members gs)) (build_groups f g gs)
        → All (IsBounded f q) (map with_centroid (build_groups f g gs))
    unfolding build_groups members
    build_groups-IsBounded [] tri = tt
    build_groups-IsBounded ([] ∷ gs) tri = build_groups-IsBounded gs tri
    build_groups-IsBounded ((r ∷ rest) ∷ gs) tri = (
      build-IsBounded r rest
          (All-of_append (Triangle (build f g r rest)) (r ∷ rest) (members gs) tri.0).0,
      build_groups-IsBounded gs (
          All-map _ _ (λ b h. (All-of_append (Triangle b) (r ∷ rest) (members gs) h).1)
            (build_groups f g gs) tri.1),
    )

    found_in_all-build_groups :
        (gs : List (List GrainRec))
        → found_in_all f q (map with_centroid (build_groups f g gs)) ≡ map candidate (members gs)
    unfolding build_groups members found_in_all
    found_in_all-build_groups [] = refl
    found_in_all-build_groups ([] ∷ gs) = found_in_all-build_groups gs
    found_in_all-build_groups ((r ∷ rest) ∷ gs) =
        rw (found_in-build r rest, found_in_all-build_groups gs)
          (sym (map-append candidate (r ∷ rest) (members gs)))

  Permᴰ-found_in_all :
      {xs ys : List (ℕ × Block)} → Permᴰ xs ys → Perm (found_in_all f q xs) (found_in_all f q ys)
  unfolding found_in_all
  Permᴰ-found_in_all Permᴰ.nil = Perm.refl []
  Permᴰ-found_in_all (Permᴰ.cons {b = x} e p) =
      rw e (Perm.append_left (found_in f q x.1) (Permᴰ-found_in_all p))
  Permᴰ-found_in_all (Permᴰ.swap {a = x} {b = y} {l = order} e e') =
      rw (← e, ← e') (swap_front (found_in f q x.1) (found_in f q y.1) (found_in_all f q order))
  Permᴰ-found_in_all (Permᴰ.trans p p') = Perm.trans (Permᴰ-found_in_all p) (Permᴰ-found_in_all p')

  perm-found_in_all :
      {xs ys : List (ℕ × Block)} → Perm xs ys → Perm (found_in_all f q xs) (found_in_all f q ys)
  perm-found_in_all p = ∥∥₁_elim p Perm-prop Permᴰ-found_in_all

  -- Over the blocks of some groups the search succeeds with the nearest of the groups' records.
  near-build_groups :
      (g : LogFloat) (k : ℕ) (gs : List (List GrainRec))
      → 0 < k
      → (k + 1) * 32 < 2 ^ 63
      → All (λ b. All (Triangle b) (members gs)) (build_groups f g gs)
      → (best : List Candidate) × (stats : QueryStats) × (near f (build_groups f g gs) q k
          ≡ some (best, stats))
        × IsNearest dist_rank k (map candidate (members gs)) best
  unfolding near order_of
  near-build_groups g k gs some_k room tri =
      let same : ((k + 1) % 2 ^ 64 ≡ k + 1) = omega arith in
      let fits : (ltb ((k + 1) * 32) (2 ^ 63) ≡ true) = ground arith in
      let blocks = build_groups f g gs in
      let order = map with_centroid blocks in
      let (best, t, e, h) =
        near_loop-Kept f q k some_k (order_of f q blocks) [] [] 0
          (sort_by-All (by_centroid f) (IsBounded f q) order (build_groups-IsBounded g gs tri))
          (nothing-IsNearest k, tt) in
      (
        best,
        record { blocks_touched = t; blocks_total = length blocks },
        rw (e, near, same, has_capacity, fits),
        rw (← found_in_all-build_groups g gs) (
            IsNearest-perm dist_rank k best (perm-found_in_all (sort_by-perm (by_centroid f) order))
              h),
      )

  -- When the distances are no NaN and obey the triangle inequality on the blocks that are built from
  -- some records, and `k` is at least one and `k + 1` candidates of 32 bytes are less than 2^63 bytes,
  -- then the search succeeds on these blocks, and returns the `k` nearest of all the records, nearest
  -- first: no block is skipped wrongly.
  pub near-build_clustered :
      (g : LogFloat) (first : GrainRec) (rest : List GrainRec) (n_blocks iters k : ℕ)
      (blocks : BlockStore)
      → 0 < n_blocks
      → 0 < k
      → (k + 1) * 32 < 2 ^ 63
      → build_clustered f g (first ∷ rest) n_blocks iters ≡ some blocks
      → All (λ b. All (Triangle b) (first ∷ rest)) blocks
      → (best : List Candidate) × (stats : QueryStats) × (near f blocks q k ≡ some (best, stats))
        × IsNearest dist_rank k (map candidate (first ∷ rest)) best
  near-build_clustered g first rest n_blocks iters k blocks some_block some_k room built tri =
      let (gs, e, p) = Groups.build_clustered_total f g first rest n_blocks iters some_block in
      let same : (build_groups f g gs ≡ blocks) = some_inj.0 (sym e ∙ built) in
      let tri' : All (λ b. All (Triangle b) (members gs)) (build_groups f g gs) = rw same (
        All-map _ _ (λ b h. All-perm (Triangle b) (λ r. hlevel (le_prop)) (Perm.symm p) h) blocks
          tri) in
      let (best, stats, found, h) = near-build_groups g k gs some_k room tri' in
      (
        best,
        stats,
        subst (λ (bs : BlockStore). near f bs q k ≡ some (best, stats)) same found,
        IsNearest-perm dist_rank k best (Perm.map candidate p) h,
      )

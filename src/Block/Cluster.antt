-- ===== src/Block/Cluster.antt =====
-- src/block.rs: the light k-means that assigns each record to a block.
use grainstore.Base.{
  ℕ, zero, suc, ◌+◌, ◌*◌, ◌/◌, max, min, List, [], ◌∷◌, ltb, if◌then◌else◌, map, length, replicate,
  get_or, set,
}
use grainstore.Block.{GrainRec, l2, add_into, bump}
use grainstore.Float.{Float32, lt32, infinity}

-- `recs[i].vector`; the indices that are taken are in range.
vector_at : List GrainRec → ℕ → List ℕ
vector_at [] i = []
vector_at (r ∷ recs) zero = r.vector
vector_at (r ∷ recs) (suc i) = vector_at recs i

-- The seeds `i`, `i + 1`, …, of which `left` are still to come.
unfoldable pub seeds_from : List GrainRec → ℕ → ℕ → ℕ → List (List ℕ)
unfolding vector_at
seeds_from recs blocks zero i = []
seeds_from recs blocks (suc left) i =
    vector_at recs (i * length recs / blocks) ∷ seeds_from recs blocks left (i + 1)

module _ (f : Float32) where
  -- The loop over the centroids from number `c` on, with `best`.
  unfoldable pub nearest_loop : List ℕ → ℕ → ℕ × ℕ → List (List ℕ) → ℕ × ℕ
  nearest_loop v c best [] = best
  nearest_loop v c best (cen ∷ centroids) =
      let d = l2 f v cen in
      nearest_loop v (c + 1) (if lt32 d best.0 then (d, c) else best) centroids

  unfoldable pub assign_all : List (List ℕ) → List GrainRec → List ℕ
  unfolding nearest_loop
  assign_all centroids recs = map (λ r. (nearest_loop r.vector 0 (infinity, 0) centroids).1) recs

  -- The loop over the records with `sums` and `counts`.
  accumulate : List (List ℕ) → List ℕ → List GrainRec → List ℕ → List (List ℕ) × List ℕ
  accumulate sums counts (r ∷ recs) (a ∷ assign) =
      accumulate (set sums a (add_into f (get_or [] sums a) r.vector)) (bump counts a) recs assign
  accumulate sums counts _ _ = (sums, counts)

  -- `*cen = *s / counts[c]`
  write_mean : List ℕ → List ℕ → ℕ → List ℕ
  write_mean (c ∷ cs) (s ∷ ss) n = f.div s (f.of_nat n) ∷ write_mean cs ss n
  write_mean cs _ n = cs

  unfoldable pub recompute : List (List ℕ) → List (List ℕ) → List ℕ → List (List ℕ)
  unfolding write_mean
  recompute (cen ∷ centroids) (s ∷ sums) (n ∷ counts) =
      (if ltb 0 n then write_mean cen s n else cen) ∷ recompute centroids sums counts
  recompute centroids _ _ = centroids

  -- One pass after the assignment.
  unfoldable pub next_centroids : ℕ → List (List ℕ) → List GrainRec → List ℕ → List (List ℕ)
  unfolding accumulate recompute
  next_centroids dim centroids recs assign =
      let blocks = length centroids in
      let (sums, counts) =
        accumulate (replicate blocks (replicate dim 0)) (replicate blocks 0) recs assign in
      recompute centroids sums counts

  -- The passes that are left, with the assignment of the last one.
  unfoldable pub passes : ℕ → ℕ → List (List ℕ) → List ℕ → List GrainRec → List ℕ
  unfolding next_centroids
  passes zero dim centroids assign recs = assign
  passes (suc left) dim centroids assign recs =
      let now = assign_all centroids recs in
      passes left dim (next_centroids dim centroids recs now) now recs

  -- `kmeans_assign`, for records of which the first is `first`
  unfoldable pub kmeans_assign : GrainRec → List GrainRec → ℕ → ℕ → List ℕ
  unfolding seeds_from passes
  kmeans_assign first rest n_blocks iters =
      let recs = first ∷ rest in
      let n = length recs in
      let blocks = min (max n_blocks 1) (max n 1) in
      passes (max iters 1) (length first.vector) (seeds_from recs blocks blocks 0) (replicate n 0)
        recs

-- ===== src/Block/Groups.antt =====
-- src/block.rs: the groups into which the clustering puts the records.
use mathlib.Core.List.{Perm, perm_append_comm}
use mathlib.Core.List.Perm
use grainstore.Float.{LogFloat}
use grainstore.Base.{
  ℕ, zero, suc, ◌+◌, ◌≤◌, ◌<◌, ◌≡◌, refl, Bool, true, false, subst, ap, sym, List, [], ◌∷◌, ◌++◌,
  All, some, length, min, max, get_or, set, length-set, replicate, length-replicate, append_assoc,
  append-nil, arith, lt→ltb, if◌then◌else◌,
}
use grainstore.Block.{GrainRec, l2}
use grainstore.Block.Cluster.{
  nearest_loop, assign_all, recompute, next_centroids, seeds_from, passes, kmeans_assign,
}
use grainstore.Block.Store.{group_all, build_groups, build_clustered}
use grainstore.Float.{Float32, lt32, infinity}

-- The records of all groups.
unfoldable pub members : List (List GrainRec) → List GrainRec
members [] = []
members (g ∷ groups) = g ++ members groups

abbrev one_more : List (List GrainRec) → ℕ → GrainRec → List (List GrainRec)
one_more groups a r = set groups a (get_or [] groups a ++ (r ∷ []))

members-one_more :
    (groups : List (List GrainRec)) (a : ℕ) (r : GrainRec)
    → a < length groups
    → Perm (members (one_more groups a r)) (members groups ++ (r ∷ []))
unfolding members
members-one_more [] a r h = absurd (omega arith)
members-one_more (g ∷ groups) zero r h =
    rw (append_assoc g (r ∷ []) (members groups), append_assoc g (members groups) (r ∷ []))
      (Perm.append_left g (perm_append_comm (r ∷ []) (members groups)))
members-one_more (g ∷ groups) (suc a) r h =
    rw (append_assoc g (members groups) (r ∷ []))
      (Perm.append_left g (members-one_more groups a r (omega arith)))

-- Every record finds its group, and none is lost or doubled.
group_all-members :
    (groups : List (List GrainRec)) (recs : List GrainRec) (assign : List ℕ)
    → length recs ≡ length assign
    → All (λ a. a < length groups) assign
    → (gs : List (List GrainRec)) × (group_all groups recs assign ≡ some gs)
      × Perm (members gs) (members groups ++ recs)
unfolding group_all
group_all-members groups [] [] same fits =
    (groups, refl, rw append-nil (Perm.refl (members groups)))
group_all-members groups [] (a ∷ assign) same fits = absurd (omega arith)
group_all-members groups (r ∷ recs) [] same fits = absurd (omega arith)
group_all-members groups (r ∷ recs) (a ∷ assign) same fits =
    let next = one_more groups a r in
    let fits' : All (λ b. b < length next) assign = rw (length-set groups a _) fits.1 in
    let (gs, e, p) = group_all-members next recs assign (omega arith) fits' in
    (
      gs,
      rw (lt→ltb a (length groups) fits.0) e,
      Perm.trans p (
          subst (λ (xs : List GrainRec). Perm (members next ++ recs) xs)
            (append_assoc (members groups) (r ∷ []) recs)
            (Perm.append_right recs (members-one_more groups a r fits.0))),
    )

pick_lt :
    (b : Bool) (d c n : ℕ) (best : ℕ × ℕ) → c < n → best.1 < n → (if b then (d, c) else best).1 < n
pick_lt true d c n best h g = h
pick_lt false d c n best h g = g

module _ (f : Float32) where
  nearest_loop-lt :
      (v : List ℕ) (n c : ℕ) (best : ℕ × ℕ) (centroids : List (List ℕ))
      → best.1 < n
      → c + length centroids ≤ n
      → (nearest_loop f v c best centroids).1 < n
  unfolding nearest_loop
  nearest_loop-lt v n c best [] h room = h
  nearest_loop-lt v n c best (cen ∷ centroids) h room =
      nearest_loop-lt v n (c + 1) (if lt32 (l2 f v cen) best.0 then (l2 f v cen, c) else best)
        centroids (pick_lt (lt32 (l2 f v cen) best.0) (l2 f v cen) c n best (omega arith) h)
        (omega arith)

  assign_all-fits :
      (n : ℕ) (centroids : List (List ℕ)) (recs : List GrainRec)
      → 0 < n
      → length centroids ≤ n
      → All (λ a. a < n) (assign_all f centroids recs)
        × (length (assign_all f centroids recs) ≡ length recs)
  unfolding assign_all
  assign_all-fits n centroids [] some_block room = (tt, refl)
  assign_all-fits n centroids (r ∷ recs) some_block room =
      let ih = assign_all-fits n centroids recs some_block room in
      (
        (nearest_loop-lt r.vector n 0 (infinity, 0) centroids some_block (omega arith), ih.0),
        ap (λ (k : ℕ). suc k) ih.1,
      )

  recompute_room :
      (centroids sums : List (List ℕ)) (counts : List ℕ)
      → length (recompute f centroids sums counts) ≡ length centroids
  unfolding recompute
  recompute_room [] sums counts = refl
  recompute_room (c ∷ cs) [] counts = refl
  recompute_room (c ∷ cs) (s ∷ ss) [] = refl
  recompute_room (c ∷ cs) (s ∷ ss) (n ∷ ns) = ap (λ (k : ℕ). suc k) (recompute_room cs ss ns)

  next_centroids_room :
      (dim : ℕ) (centroids : List (List ℕ)) (recs : List GrainRec) (assign : List ℕ)
      → length (next_centroids f dim centroids recs assign) ≡ length centroids
  unfolding next_centroids
  next_centroids_room dim centroids recs assign = recompute_room centroids _ _

  -- After each pass the assignment has a group for every record.
  passes-fits :
      (left dim n : ℕ) (centroids : List (List ℕ)) (assign : List ℕ) (recs : List GrainRec)
      → 0 < n
      → length centroids ≤ n
      → All (λ a. a < n) assign × (length assign ≡ length recs)
      → All (λ a. a < n) (passes f left dim centroids assign recs)
        × (length (passes f left dim centroids assign recs) ≡ length recs)
  unfolding passes
  passes-fits zero dim n centroids assign recs some_block room h = h
  passes-fits (suc left) dim n centroids assign recs some_block room h =
      passes-fits left dim n (next_centroids f dim centroids recs (assign_all f centroids recs))
        (assign_all f centroids recs) recs some_block
        (omega (arith, next_centroids_room dim centroids recs (assign_all f centroids recs)))
        (assign_all-fits n centroids recs some_block room)

  All-replicate : (n k : ℕ) → 0 < n → All (λ a. a < n) (replicate k 0)
  All-replicate n zero h = tt
  All-replicate n (suc k) h = (h, All-replicate n k h)

  length-seeds_from :
      (recs : List GrainRec) (blocks left i : ℕ) → length (seeds_from recs blocks left i) ≡ left
  unfolding seeds_from
  length-seeds_from recs blocks zero i = refl
  length-seeds_from recs blocks (suc left) i =
      ap (λ (k : ℕ). suc k) (length-seeds_from recs blocks left (i + 1))

  kmeans_assign-fits :
      (first : GrainRec) (rest : List GrainRec) (n_blocks iters : ℕ)
      → 0 < n_blocks
      → All (λ a. a < n_blocks) (kmeans_assign f first rest n_blocks iters)
        × (length (kmeans_assign f first rest n_blocks iters) ≡ length (first ∷ rest))
  unfolding kmeans_assign
  kmeans_assign-fits first rest n_blocks iters some_block =
      let recs = first ∷ rest in
      let blocks = min (max n_blocks 1) (max (length recs) 1) in
      passes-fits (max iters 1) (length first.vector) n_blocks (seeds_from recs blocks blocks 0)
        (replicate (length recs) 0) recs some_block
        (omega (arith, length-seeds_from recs blocks blocks 0))
        (All-replicate n_blocks (length recs) some_block, length-replicate {A = ℕ} (length recs) 0)

  members-replicate : (n : ℕ) → members (replicate n []) ≡ []
  unfolding members
  members-replicate zero = refl
  members-replicate (suc n) = members-replicate n

  -- Building does not panic on any records, if there are some and room for a block, and the blocks
  -- are those of groups that hold each record once.
  pub build_clustered_total :
      (g : LogFloat) (first : GrainRec) (rest : List GrainRec) (n_blocks iters : ℕ)
      → 0 < n_blocks
      → (gs : List (List GrainRec)) × (build_clustered f g (first ∷ rest) n_blocks iters
          ≡ some (build_groups f g gs))
        × Perm (members gs) (first ∷ rest)
  unfolding build_clustered
  build_clustered_total g first rest n_blocks iters some_block =
      let recs = first ∷ rest in
      let fits = kmeans_assign-fits first rest n_blocks iters some_block in
      let (gs, e, p) =
        group_all-members (replicate n_blocks []) recs (kmeans_assign f first rest n_blocks iters)
          (sym fits.1) (rw (length-replicate {A = List GrainRec} n_blocks []) fits.0) in
      (gs, rw (e, build_clustered), rw (members-replicate n_blocks) at p)

-- ===== src/Vector/Hnsw/Found.antt =====
-- src/vector/hnsw.rs: State::search.
use mathlib.Core.Option.{some_inj}
use grainstore.Base.{
  ℕ, zero, suc, ◌≤◌, ◌≡◌, refl, ap, sym, ◌∙◌, max, List, [], ◌∷◌, All, All-take, length,
  length-take, Option, none, some, Bool, true, false, get_elem?, take, get_elem?_total, arith,
}
use grainstore.Float.{Float32, total_rank}
use grainstore.Vector.{Candidate}
use grainstore.Vector.Brute.{l2_sq}
use grainstore.Vector.Hnsw.{State, live_candidates, search_from, search}
use grainstore.Vector.Hnsw.Layer.{Node, DistIdx, distance}
use grainstore.Vector.Hnsw.Links.{stored, HasDim, reaches, descend_total}
use grainstore.Vector.Hnsw.Live.{IsHnsw}
use grainstore.Vector.Hnsw.Refine.{vector_of, lookup_known}
use grainstore.Sort.Laws.{IsSorted, IsSorted-take}
use grainstore.Vector.Hnsw.Heap.{dist_total}
use grainstore.Vector.Hnsw.Visits.{IsScored, IsScored-lt, search_layer_total}

-- The order of the distances.
abbrev pub near_first : Candidate → ℕ
near_first c = total_rank c.dist

get_elem?-stored :
    (nodes : List Node) (i : ℕ) (node : Node)
    → get_elem? nodes i ≡ some node
    → get_elem? (stored nodes) i ≡ some (node.sid, node.vector)
get_elem?-stored [] i node h = absurd (cc)
get_elem?-stored (x ∷ nodes) zero node h = ap (λ (n : Node). some (n.sid, n.vector)) (some_inj.0 h)
get_elem?-stored (x ∷ nodes) (suc i) node h = get_elem?-stored nodes i node h

module _ (f : Float32) {Real : Type 0} (s : State Real) (q : List ℕ) where
  -- The candidate is a stored sid, at the distance of its vector.
  abbrev pub IsEntry : Candidate → Type 0
  IsEntry c = (v : List ℕ) × (vector_of s c.sid ≡ some v) × (l2_sq f q v ≡ some c.dist)

  scored_dist :
      (d : DistIdx) (node : Node)
      → IsScored f s.nodes q d
      → get_elem? s.nodes d.idx ≡ some node
      → l2_sq f q node.vector ≡ some d.dist
  unfolding distance
  scored_dist d node h at = sym (rw (at, distance) refl) ∙ h

  live-IsEntry :
      (d : DistIdx) (node : Node)
      → IsHnsw s
      → IsScored f s.nodes q d
      → get_elem? s.nodes d.idx ≡ some node
      → get_elem? s.deleted d.idx ≡ some false
      → IsEntry (record { sid = node.sid; dist = d.dist })
  unfolding vector_of
  live-IsEntry d node h scored at live =
      let there = get_elem?-stored s.nodes d.idx node at in
      (
        node.vector,
        lookup_known s.sid_to_idx (stored s.nodes) node.sid d.idx (node.sid, node.vector)
            (h.live_known d.idx node.sid node.vector live there) there,
        scored_dist d node scored at,
      )

  -- What the filter leaves of nodes in order: entries, in order, none nearer than all of the nodes.
  abbrev Left : List DistIdx → List Candidate → Type 0
  Left w cs =
      All IsEntry cs
      × IsSorted near_first cs
      × ((n : ℕ) → All (λ d. n ≤ dist_total d) w → All (λ c. n ≤ near_first c) cs)

  one_more-Left :
      (d : DistIdx) (node : Node) (gone : Bool) (w : List DistIdx) (cs : List Candidate)
      → IsHnsw s
      → IsScored f s.nodes q d
      → All (λ x. dist_total d ≤ dist_total x) w
      → get_elem? s.nodes d.idx ≡ some node
      → get_elem? s.deleted d.idx ≡ some gone
      → live_candidates f s.nodes s.deleted w ≡ some cs
      → Left w cs
      → (cs' : List Candidate) × (live_candidates f s.nodes s.deleted (d ∷ w) ≡ some cs')
        × Left (d ∷ w) cs'
  unfolding live_candidates
  one_more-Left d node true w cs h scored first at mark e left =
      (cs, rw (mark, at, e), (left.0, left.1, λ n low. left.2 n low.1))
  one_more-Left d node false w cs h scored first at mark e left = (
    record { sid = node.sid; dist = d.dist } ∷ cs,
    rw (mark, at, e),
    (
      (live-IsEntry d node h scored at mark, left.0),
      (left.2 (dist_total d) first, left.1),
      λ n low. (low.0, left.2 n low.1),
    ),
  )

  live_candidates_total :
      (w : List DistIdx)
      → IsHnsw s
      → All (IsScored f s.nodes q) w
      → IsSorted dist_total w
      → (cs : List Candidate) × (live_candidates f s.nodes s.deleted w ≡ some cs) × Left w cs
  unfolding live_candidates
  live_candidates_total [] h all sorted = ([], refl, (tt, tt, λ n low. tt))
  live_candidates_total (d ∷ w) h all sorted =
      let fits = IsScored-lt f s.nodes q d all.0 in
      let (node, at) = get_elem?_total s.nodes d.idx fits in
      let (gone, mark) = get_elem?_total s.deleted d.idx (omega (arith, h.sizes)) in
      let (cs, e, left) = live_candidates_total w h all.1 sorted.1 in
      one_more-Left d node gone w cs h all.0 sorted.0 at mark e left

  search_from_total :
      (dim k ef : ℕ) (entry : Option ℕ)
      → s.entry ≡ entry
      → IsHnsw s
      → HasDim dim s.nodes
      → length q ≡ dim
      → (cs : List Candidate) × (search_from f s q k ef entry ≡ some cs)
        × (length cs ≤ k)
        × All IsEntry cs
        × IsSorted near_first cs
  unfolding search_from
  search_from_total dim k ef none at h dims size = ([], refl, omega arith, tt, tt)
  search_from_total dim k ef (some entry) at h dims size =
      let (ep, e, fits) =
        descend_total f dim s.nodes q 1 s.max_level entry h.linked dims size (h.entered entry at) in
      let (w, e', all, sorted, len) =
        search_layer_total f s.nodes q (reaches f dim q s.nodes s.nodes dims size) (ep ∷ [])
          (max ef k) 0 h.linked (fits, tt) in
      let (cs, e'', left) = live_candidates_total w h all sorted in
      (
        take k cs,
        rw (e, e', e'') refl,
        omega (arith, length-take k cs),
        All-take IsEntry k cs left.0,
        IsSorted-take near_first k cs left.1,
      )

  -- When the vectors of a whole graph are as long as the query, the search does not panic, and returns
  -- at most `k` candidates, each a stored sid at the distance of its vector, nearest first: no deleted
  -- or replaced vector is returned.
  pub search_total :
      (dim k ef : ℕ)
      → IsHnsw s
      → HasDim dim s.nodes
      → length q ≡ dim
      → (cs : List Candidate) × (search f s q k ef ≡ some cs)
        × (length cs ≤ k)
        × All IsEntry cs
        × IsSorted near_first cs
  unfolding search
  search_total dim k ef h dims size = search_from_total dim k ef s.entry refl h dims size

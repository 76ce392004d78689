-- ===== src/Vector/Hnsw/Layer.antt =====
-- src/vector/hnsw.rs: the beam search of one layer. A heap is the list of its elements in ascending
-- order: `Ord for DistIdx` is total, so that this order is unique.
use grainstore.Base.{
  ℕ, zero, suc, ◌+◌, List, [], ◌∷◌, Option, none, some, Bool, false, ltb, leb, ◌==◌, ◌||◌, ◌&&◌,
  if◌then◌else◌, length, get_elem?, compare, Ordering, then_cmp,
}
use grainstore.Base.Panic.{◌>>=◌}
use grainstore.Float.{Float32, total_cmp, lt32, infinity}
use grainstore.Model.{Sid}
use grainstore.Sort.{insert_by}
use grainstore.Vector.Brute.{l2_sq}

pub record Node : Type 0 where
  pub sid : Sid
  pub vector : List ℕ
  pub links : List (List ℕ)

pub record DistIdx : Type 0 where
  pub dist : ℕ
  pub idx : ℕ

-- Ord for DistIdx
abbrev pub by_dist_idx : DistIdx → DistIdx → Ordering
by_dist_idx a b = then_cmp (total_cmp a.dist b.dist) (compare a.idx b.idx)

abbrev pub push : DistIdx → List DistIdx → List DistIdx
push d heap = insert_by by_dist_idx d heap

-- The distance at the top of the result heap, or infinity.
unfoldable pub farthest : List DistIdx → ℕ
farthest [] = infinity
farthest (d ∷ []) = d.dist
farthest (d ∷ e ∷ heap) = farthest (e ∷ heap)

-- `result.pop()`
unfoldable pub pop_last : List DistIdx → List DistIdx
pop_last [] = []
pop_last (d ∷ []) = []
pop_last (d ∷ e ∷ heap) = d ∷ pop_last (e ∷ heap)

unfoldable pub contains : ℕ → List ℕ → Bool
contains n [] = false
contains n (x ∷ xs) = x == n || contains n xs

pub record Search : Type 0 where
  pub visited : List ℕ
  pub candidates : List DistIdx
  pub result : List DistIdx

-- `links.get(level)`, without any on a level that the node does not reach.
unfoldable pub links_at : Node → ℕ → List ℕ
links_at node level = elim (get_elem? node.links level) [ none ↦ [] | some neighbors ↦ neighbors ]

module _ (f : Float32) (nodes : List Node) (q : List ℕ) where
  -- State::distance; an index out of bounds is a panic, as is a shorter vector.
  unfoldable pub distance : ℕ → Option ℕ
  distance idx = elim (get_elem? nodes idx) [ none ↦ none | some node ↦ l2_sq f q node.vector ]

  -- The loop over the entry points.
  unfoldable pub seed_points : List ℕ → Search → Option Search
  unfolding distance
  seed_points [] s = some s
  seed_points (ep ∷ eps) s = do
    d ← distance ep
    seed_points eps (record s {
      candidates = push (record { dist = d; idx = ep }) s.candidates;
      result = push (record { dist = d; idx = ep }) s.result;
    })

  -- A neighbour at distance `d` that was not visited before.
  unfoldable pub offer : ℕ → DistIdx → Search → Search
  unfolding farthest pop_last
  offer ef d s =
      let result = push d s.result in
      if lt32 d.dist (farthest s.result) || ltb (length s.result) ef
      then record s {
        candidates = push d s.candidates;
        result = if ltb ef (length result) then pop_last result else result;
      }
      else s

  -- The loop over the neighbours.
  unfoldable pub expand : ℕ → List ℕ → Search → Option Search
  unfolding distance offer contains
  expand ef [] s = some s
  expand ef (n ∷ neighbors) s =
      let seen = expand ef neighbors s in
      let unseen : Option Search = (do
        d ← distance n
        expand ef neighbors
            (offer ef (record { dist = d; idx = n }) (record s { visited = n ∷ s.visited }))) in
      if contains n s.visited then seen else unseen

  unfoldable pub neighbors_at : ℕ → ℕ → Option (List ℕ)
  unfolding links_at
  neighbors_at idx level = do node ← get_elem? nodes idx; some (links_at node level)

  -- The `while let` loop over the candidates, with the rounds that are allowed.
  unfoldable pub search_loop :
      ℕ → ℕ → ℕ → List ℕ → List DistIdx → List DistIdx → Option (List DistIdx)
  unfolding expand neighbors_at
  search_loop rounds ef level visited [] result = some result
  search_loop zero ef level visited (c ∷ candidates) result = none
  search_loop (suc rounds) ef level visited (c ∷ candidates) result =
      let next : Option (List DistIdx) = (do
        neighbors ← neighbors_at c.idx level
        s ←
            expand ef neighbors
              (record { visited = visited; candidates = candidates; result = result })
        search_loop rounds ef level s.visited s.candidates s.result) in
      if lt32 (farthest result) c.dist && leb ef (length result) then some result else next

  -- State::search_layer. A round takes a candidate off the heap, and a node gets on it once.
  unfoldable pub search_layer : List ℕ → ℕ → ℕ → Option (List DistIdx)
  unfolding seed_points search_loop
  search_layer entry_points ef level = do
    s ← seed_points entry_points (record { visited = entry_points; candidates = []; result = [] })
    search_loop (length entry_points + length nodes) ef level s.visited s.candidates s.result

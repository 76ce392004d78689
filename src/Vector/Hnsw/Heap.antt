-- ===== src/Vector/Hnsw/Heap.antt =====
-- src/vector/hnsw.rs: the result heap of a search, as a list in order.
use grainstore.Base.{ℕ, suc, ◌+◌, ◌≤◌, ◌≡◌, max, List, [], ◌∷◌, All, length, arith}
use grainstore.Float.{total_rank, total_cmp}
use grainstore.Sort.{insert_by}
use grainstore.Sort.Laws.{Agrees, IsSorted, insert_by-perm, insert_by-IsSorted}
use grainstore.Sort.Nearest.{length-perm}
use grainstore.Vector.Hnsw.Layer.{DistIdx, by_dist_idx, pop_last}

pub length-push :
    (d : DistIdx) (heap : List DistIdx) → length (insert_by by_dist_idx d heap) ≡ suc (length heap)
length-push d heap = length-perm (insert_by-perm by_dist_idx d heap)

pub length-pop_last : (heap : List DistIdx) → length (pop_last heap) + 1 ≤ max (length heap) 1
unfolding pop_last
length-pop_last [] = omega arith
length-pop_last (d ∷ []) = omega arith
length-pop_last (d ∷ e ∷ heap) = omega (arith, length-pop_last (e ∷ heap))

pub pop_last-All : (P : DistIdx → Type 0) (heap : List DistIdx) → All P heap → All P (pop_last heap)
unfolding pop_last
pop_last-All P [] h = tt
pop_last-All P (d ∷ []) h = tt
pop_last-All P (d ∷ e ∷ heap) h = (h.0, pop_last-All P (e ∷ heap) h.1)

-- The order of the distances.
abbrev pub dist_total : DistIdx → ℕ
dist_total d = total_rank d.dist

by_dist_idx-Agrees : Agrees by_dist_idx dist_total (λ _. Unit {0})
by_dist_idx-Agrees x y hx hy = unfold total_cmp in ((λ l. ground arith), (λ n. ground arith))

All-unit : (xs : List DistIdx) → All (λ _. Unit {0}) xs
All-unit [] = tt
All-unit (x ∷ xs) = (tt, All-unit xs)

pub push-IsSorted :
    (d : DistIdx) (heap : List DistIdx)
    → IsSorted dist_total heap
    → IsSorted dist_total (insert_by by_dist_idx d heap)
push-IsSorted d heap h =
    insert_by-IsSorted by_dist_idx dist_total (λ _. Unit {0}) by_dist_idx-Agrees d heap tt
      (All-unit heap) h

pub pop_last-IsSorted :
    (heap : List DistIdx) → IsSorted dist_total heap → IsSorted dist_total (pop_last heap)
unfolding pop_last
pop_last-IsSorted [] h = tt
pop_last-IsSorted (d ∷ []) h = tt
pop_last-IsSorted (d ∷ e ∷ heap) h = (
  pop_last-All (λ x. dist_total d ≤ dist_total x) (e ∷ heap) h.0,
  pop_last-IsSorted (e ∷ heap) h.1,
)

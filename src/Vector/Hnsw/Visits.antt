-- ===== src/Vector/Hnsw/Visits.antt =====
-- src/vector/hnsw.rs: search_layer and its loops.
use grainstore.Base.{
  ℕ, zero, suc, ◌+◌, ◌≤◌, ◌<◌, ◌≡◌, refl, max, List, [], ◌∷◌, All, All-get_elem?, get_elem?_total,
  lt-of_get_elem?, some, false, ltb, leb, ◌||◌, ◌&&◌, length, get_elem?, arith, tests, Bool-cases,
  Option-cases, inl, inr,
}
use grainstore.Float.{Float32, lt32}
use grainstore.Sort.{insert_by}
use grainstore.Sort.Laws.{IsSorted, insert_by-All}
use grainstore.Vector.Brute.{l2_sq_total}
use grainstore.Vector.Hnsw.Layer.{
  Node, DistIdx, Search, by_dist_idx, farthest, contains, distance, seed_points, offer, expand,
  links_at, neighbors_at, search_loop, search_layer,
}
use grainstore.Vector.Hnsw.Heap.{
  dist_total, length-push, length-pop_last, pop_last-All, push-IsSorted, pop_last-IsSorted,
}
use grainstore.Vector.Hnsw.Unvisited.{unvisited, unvisited-le, unvisited-cons}

-- Every link is the index of a node.
abbrev pub IsLinkedNode : ℕ → Node → Type 0
IsLinkedNode n node = All (All (λ i. i < n)) node.links

abbrev pub IsLinked : List Node → Type 0
IsLinked nodes = All (IsLinkedNode (length nodes)) nodes

links_at-All :
    (n : ℕ) (node : Node) (level : ℕ) → IsLinkedNode n node → All (λ i. i < n) (links_at node level)
unfolding links_at
links_at-All n node level h = elim (Option-cases (get_elem? node.links level)) [
  | inl none_there ↦ rw (none_there, links_at) tt
  | inr (l, there) ↦
      rw (there, links_at) (All-get_elem? (All (λ i. i < n)) node.links level l h there)
]

module _ (f : Float32) (nodes : List Node) (q : List ℕ) where
  -- The distance is the one of the node with that index, which there is.
  abbrev pub IsScored : DistIdx → Type 0
  IsScored d = distance f nodes q d.idx ≡ some d.dist

  -- The query is no longer than the vector.
  abbrev pub IsReached : Node → Type 0
  IsReached node = length q ≤ length node.vector

  pub IsScored-lt : (d : DistIdx) → IsScored d → d.idx < length nodes
  unfolding distance
  IsScored-lt d h = elim (Option-cases (get_elem? nodes d.idx)) [
    | inl e ↦ absurd (cc)
    | inr (node, e) ↦ lt-of_get_elem? nodes d.idx node e
  ]

  module _ (reach : All IsReached nodes) where
    pub distance_total : (i : ℕ) → i < length nodes → (d : ℕ) × (distance f nodes q i ≡ some d)
    unfolding distance
    distance_total i h =
        let (node, e) = get_elem?_total nodes i h in
        let (d, e') = l2_sq_total f q node.vector (All-get_elem? IsReached nodes i node reach e) in
        (d, rw (e, distance) e')

    IsSearch : Search → Type 0
    IsSearch s = All IsScored s.candidates × All IsScored s.result × IsSorted dist_total s.result

    -- What is left to do: the candidates, and the nodes that may become candidates.
    work : Search → ℕ
    work s = length s.candidates + unvisited (length nodes) s.visited

    seed_points_total :
        (eps : List ℕ) (s : Search)
        → All (λ i. i < length nodes) eps
        → IsSearch s
        → (s' : Search) × (seed_points f nodes q eps s ≡ some s')
          × IsSearch s'
          × (work s' ≡ length eps + work s)
          × (length s'.result ≡ length eps + length s.result)
    unfolding seed_points IsSearch work
    seed_points_total [] s fits h = (s, refl, h, omega arith, omega arith)
    seed_points_total (ep ∷ eps) s fits h =
        let (d, e) = distance_total ep fits.0 in
        let p : DistIdx = record { dist = d; idx = ep } in
        let s1 : Search = record s {
          candidates = insert_by by_dist_idx p s.candidates;
          result = insert_by by_dist_idx p s.result;
        } in
        let (s', e', h', w, r) = seed_points_total eps s1 fits.1 (
          insert_by-All by_dist_idx IsScored p s.candidates e h.0,
          insert_by-All by_dist_idx IsScored p s.result e h.1,
          push-IsSorted p s.result h.2,
        ) in
        (
          s',
          rw e e',
          h',
          omega (arith, w, length-push p s.candidates),
          omega (arith, r, length-push p s.result),
        )

    -- A neighbour that is offered becomes a candidate at most, and the result stays within `ef`.
    offer-facts :
        (ef : ℕ) (d : DistIdx) (s : Search)
        → IsScored d
        → IsSearch s
        → IsSearch (offer f nodes q ef d s)
          × (work (offer f nodes q ef d s) ≤ suc (work s))
          × (length (offer f nodes q ef d s).result ≤ max ef (length s.result))
    unfolding offer IsSearch work
    offer-facts ef d s scored h =
        let pushed = insert_by by_dist_idx d s.result in
        elim (Bool-cases (lt32 d.dist (farthest s.result) || ltb (length s.result) ef)) [
          | inr refused ↦ rw refused (h, omega arith, omega arith)
          | inl taken ↦
              let all' = insert_by-All by_dist_idx IsScored d s.result scored h.1 in
              let sorted = push-IsSorted d s.result h.2 in
              let more = insert_by-All by_dist_idx IsScored d s.candidates scored h.0 in
              elim (Bool-cases (ltb ef (length pushed))) [
                | inl over ↦
                    rw (taken, over)
                      (
                        (more, pop_last-All IsScored pushed all', pop_last-IsSorted pushed sorted),
                        omega (arith, length-push d s.candidates),
                        omega (arith, length-pop_last pushed, length-push d s.result),
                      )
                | inr within ↦
                    rw (taken, within)
                      (
                        (more, all', sorted),
                        omega (arith, length-push d s.candidates),
                        omega (tests, within, length-push d s.result),
                      )
              ]
        ]

    visit-IsSearch :
        (s : Search) (n : ℕ) → IsSearch s → IsSearch (record s { visited = n ∷ s.visited })
    unfolding IsSearch
    visit-IsSearch s n h = h

    work-visit :
        (s : Search) (n : ℕ)
        → n < length nodes
        → contains n s.visited ≡ false
        → suc (work (record s { visited = n ∷ s.visited })) ≡ work s
    unfolding work
    work-visit s n fits new = omega (arith, unvisited-cons (length nodes) n s.visited fits new)

    expand_total :
        (ef : ℕ) (neighbors : List ℕ) (s : Search)
        → All (λ i. i < length nodes) neighbors
        → IsSearch s
        → (s' : Search) × (expand f nodes q ef neighbors s ≡ some s')
          × IsSearch s'
          × (work s' ≤ work s)
          × (length s'.result ≤ max ef (length s.result))
    unfolding expand
    expand_total ef [] s fits h = (s, refl, h, omega arith, omega arith)
    expand_total ef (n ∷ neighbors) s fits h = elim (Bool-cases (contains n s.visited)) [
      | inl seen ↦ rw seen (expand_total ef neighbors s fits.1 h)
      | inr new ↦
          let (d, e) = distance_total n fits.0 in
          let p : DistIdx = record { dist = d; idx = n } in
          let s1 : Search = record s { visited = n ∷ s.visited } in
          let (h1, w1, r1) = offer-facts ef p s1 e (visit-IsSearch s n h) in
          let (s', e', h', w', r') =
            expand_total ef neighbors (offer f nodes q ef p s1) fits.1 h1 in
          (
            s',
            rw (new, e) e',
            h',
            omega (arith, w', w1, work-visit s n fits.0 new),
            omega (arith, r', r1),
          )
    ]

    neighbors_at_total :
        (idx level : ℕ)
        → IsLinked nodes
        → idx < length nodes
        → (l : List ℕ) × (neighbors_at f nodes q idx level ≡ some l) × All (λ i. i < length nodes) l
    unfolding neighbors_at
    neighbors_at_total idx level linked fits =
        let (node, e) = get_elem?_total nodes idx fits in
        let mine = All-get_elem? (IsLinkedNode (length nodes)) nodes idx node linked e in
        (links_at node level, rw (e, neighbors_at), links_at-All (length nodes) node level mine)

    -- With a round for each piece of work the loop ends.
    search_loop_total :
        (rounds ef level : ℕ) (visited : List ℕ) (candidates result : List DistIdx)
        → IsLinked nodes
        → length candidates + unvisited (length nodes) visited ≤ rounds
        → All IsScored candidates
        → All IsScored result
        → IsSorted dist_total result
        → (w : List DistIdx) × (search_loop f nodes q rounds ef level visited candidates result
            ≡ some w)
          × All IsScored w
          × IsSorted dist_total w
          × (length w ≤ max ef (length result))
    unfolding search_loop work IsSearch
    search_loop_total rounds ef level v [] r linked room hc hr hs = (r, refl, hr, hs, omega arith)
    search_loop_total zero ef level v (c ∷ cs) r linked room hc hr hs = absurd (omega arith)
    search_loop_total (suc rounds) ef level v (c ∷ cs) r linked room hc hr hs =
        elim (Bool-cases (lt32 (farthest r) c.dist && leb ef (length r))) [
          | inl done ↦ rw done (r, refl, hr, hs, omega arith)
          | inr on ↦
              let s : Search = record { visited = v; candidates = cs; result = r } in
              let (l, e, fits) = neighbors_at_total c.idx level linked (IsScored-lt c hc.0) in
              let (s', e', h', w', r') = expand_total ef l s fits (hc.1, hr, hs) in
              let (w, e'', all, sorted, len) =
                search_loop_total rounds ef level s'.visited s'.candidates s'.result linked
                  (omega (arith, w')) h'.0 h'.1 h'.2 in
              (w, rw (on, e, e') e'', all, sorted, omega (arith, len, r'))
        ]

    -- On nodes whose links are in bounds and whose vectors are as long as the query, the search of a layer from nodes that there are ends without
    -- a panic, and returns nodes with their distances, nearest first, at most `ef` or as many as it
    -- started from.
    pub search_layer_total :
        (eps : List ℕ) (ef level : ℕ)
        → IsLinked nodes
        → All (λ i. i < length nodes) eps
        → (w : List DistIdx) × (search_layer f nodes q eps ef level ≡ some w)
          × All IsScored w
          × IsSorted dist_total w
          × (length w ≤ max ef (length eps))
    unfolding search_layer work IsSearch
    search_layer_total eps ef level linked fits =
        let start : Search = record { visited = eps; candidates = []; result = [] } in
        let (s, e, h, w, r) = seed_points_total eps start fits (tt, tt, tt) in
        let (out, e', all, sorted, len) =
          search_loop_total (length eps + length nodes) ef level s.visited s.candidates s.result
            linked (omega (arith, w, unvisited-le (length nodes) eps)) h.0 h.1 h.2 in
        (out, rw e e', all, sorted, omega (arith, len, r))

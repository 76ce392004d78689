-- ===== src/Block/Scan.antt =====
-- src/block.rs: the loop of BlockStore::near.
use grainstore.Base.{
  ℕ, zero, suc, ◌+◌, ◌≤◌, ◌<◌, ◌≡◌, ◌⊎◌, refl, List, [], ◌∷◌, ◌++◌, All, All-append, All-map,
  All-take, append-nil, append_assoc, Option, some, length, take, get_elem?, arith, tests, true,
  false, ltb, if◌then◌else◌, Bool-cases, inl, inr,
}
use grainstore.Block.{Block}
use grainstore.Block.Store.{Candidate, by_dist, kth_best, candidates_of, near_loop}
use grainstore.Float.{Float32, is_nan, value_rank, cmp_or_equal, lt32, infinity}
use grainstore.Sort.{sort_by}
use grainstore.Sort.Laws.{IsNearest, IsSorted, Agrees, sort_by-All, take-sort_by-IsNearest}
use grainstore.Sort.Nearest.{IsNearest-merge, IsNearest-skip}

abbrev pub dist_rank : Candidate → ℕ
dist_rank c = value_rank c.dist

abbrev pub Clean : Candidate → Type 0
Clean c = is_nan c.dist ≡ false

by_dist-Agrees : Agrees by_dist dist_rank Clean
by_dist-Agrees x y hx hy =
    unfold cmp_or_equal in rw (hx, hy) ((λ l. ground arith), (λ n. ground arith))

lt32-infinity : (x : ℕ) → lt32 infinity x ≡ false
lt32-infinity x = ground arith

lt32→lt : (a b : ℕ) → lt32 a b ≡ true → value_rank a < value_rank b
lt32→lt a b h = ground arith

-- In a sorted list nothing is above the last element.
below_last :
    (j : ℕ) (xs : List Candidate)
    → IsSorted dist_rank xs
    → length xs ≡ suc j
    → (c : Candidate) × (get_elem? xs j ≡ some c) × All (λ x. dist_rank x ≤ dist_rank c) xs
below_last j [] s h = absurd (omega arith)
below_last zero (x ∷ []) s h = (x, refl, (omega arith, tt))
below_last zero (x ∷ y ∷ xs) s h = absurd (omega arith)
below_last (suc j) (x ∷ []) s h = absurd (omega arith)
below_last (suc j) (x ∷ y ∷ xs) s h =
    let (c, e, below) = below_last j (y ∷ xs) s.1 (omega arith) in
    (c, e, (omega (arith, s.0.0, below.0), below))

-- Of a full list the bound is the last distance; of another it is infinity.
kth_best_cases :
    (k : ℕ) (best : List Candidate)
    → 0 < k
    → length best ≤ k
    → IsSorted dist_rank best
    → ((length best < k) × (kth_best k best ≡ some infinity))
      ⊎ ((length best ≡ k)
          × (d : ℕ) × (kth_best k best ≡ some d)
          × All (λ x. dist_rank x ≤ value_rank d) best)
unfolding kth_best
kth_best_cases zero best some_k few s = absurd (omega arith)
kth_best_cases (suc j) best some_k few s = elim (Bool-cases (ltb (length best) (suc j))) [
  | inl short ↦ inl (omega (tests, short), rw short)
  | inr long ↦
      let (c, e, below) = below_last j best s (omega (tests, long)) in
      inr (omega (tests, long), c.dist, rw (long, e), below)
]

module _ (f : Float32) (q : List ℕ) where
  abbrev pub found_in : Block → List Candidate
  found_in b = candidates_of f q b.sids b.vectors

  -- All candidates of the blocks that are gone through.
  unfoldable pub found_in_all : List (ℕ × Block) → List Candidate
  found_in_all [] = []
  found_in_all ((d, b) ∷ order) = found_in b ++ found_in_all order

  -- The bound of the block is one for each of its candidates.
  abbrev pub IsBounded : ℕ × Block → Type 0
  IsBounded (d, b) =
      All (λ c. Clean c × (value_rank (f.sub d b.descriptor.radius) ≤ dist_rank c)) (found_in b)

module _ (f : Float32) (q : List ℕ) (k : ℕ) where
  -- What the loop keeps, out of all that it went past.
  abbrev pub Kept : List Candidate → List Candidate → Type 0
  Kept all best = IsNearest dist_rank k all best × All Clean best

  visit_block :
      (all best : List Candidate) (d : ℕ) (b : Block)
      → IsBounded f q (d, b)
      → Kept all best
      → Kept (all ++ found_in f q b) (take k (sort_by by_dist (best ++ found_in f q b)))
  visit_block all best d b bounded (h, clean) =
      let both =
        All-append Clean best (found_in f q b) clean (All-map _ _ (λ c h. h.0) _ bounded) in
      (
        IsNearest-merge dist_rank k all best (found_in f q b) _ h (
            take-sort_by-IsNearest by_dist dist_rank Clean by_dist-Agrees k (best ++ found_in f q b)
              both),
        All-take Clean k _ (sort_by-All by_dist Clean (best ++ found_in f q b) both),
      )

  skip_block :
      (all best : List Candidate) (d : ℕ) (b : Block) (kth : ℕ)
      → IsBounded f q (d, b)
      → length best ≡ k
      → All (λ x. dist_rank x ≤ value_rank kth) best
      → lt32 kth (f.sub d b.descriptor.radius) ≡ true
      → Kept all best
      → Kept (all ++ found_in f q b) best
  skip_block all best d b kth bounded full below far (h, clean) = (
    IsNearest-skip dist_rank k all best (found_in f q b) full
        (All-map _ _
          (λ x le.
            All-map _ _
              (λ c g. omega (arith, le, g.1, lt32→lt kth (f.sub d b.descriptor.radius) far))
              (found_in f q b) bounded)
          best below)
        h,
    clean,
  )

  near_step :
      (d : ℕ) (b : Block) (order : List (ℕ × Block)) (best : List Candidate) (touched kth : ℕ)
      → kth_best k best ≡ some kth
      → near_loop f q k best touched ((d, b) ∷ order) ≡ (
          if lt32 kth (f.sub d b.descriptor.radius)
          then near_loop f q k best touched order
          else near_loop f q k
              (take k (sort_by by_dist (best ++ found_in f q b)))
              (touched + 1)
              order)
  unfolding near_loop
  near_step d b order best touched kth e = rw (e, near_loop)

  -- The loop succeeds and keeps the nearest.
  abbrev pub Finds : List Candidate → Option (List Candidate × ℕ) → Type 0
  Finds all o =
      (kept : List Candidate) × (t : ℕ) × (o ≡ some (kept, t)) × IsNearest dist_rank k all kept

  -- With the bounds that `IsBounded` gives, the loop succeeds and keeps the nearest of all that it
  -- goes past.
  pub near_loop-Kept :
      0 < k
      → (order : List (ℕ × Block)) (all best : List Candidate) (touched : ℕ)
      → All (IsBounded f q) order
      → Kept all best
      → Finds (all ++ found_in_all f q order) (near_loop f q k best touched order)
  unfolding near_loop found_in_all
  near_loop-Kept some_k [] all best touched bounded h =
      (best, touched, refl, rw (append-nil all) h.0)
  near_loop-Kept some_k ((d, b) ∷ order) all best touched bounded h =
      let few : (length best ≤ k) = omega (arith, h.0.count) in
      let visited = visit_block all best d b bounded.0 h in
      let on =
        near_loop-Kept some_k order (all ++ found_in f q b)
          (take k (sort_by by_dist (best ++ found_in f q b))) (touched + 1) bounded.1 visited in
      elim (kth_best_cases k best some_k few h.0.ordered) [
        | inl (short, e) ↦
            rw
              (
                near_step d b order best touched infinity e,
                lt32-infinity (f.sub d b.descriptor.radius),
                ← append_assoc all (found_in f q b) (found_in_all f q order),
              )
              on
        | inr (full, kth, e, below) ↦ elim (Bool-cases (lt32 kth (f.sub d b.descriptor.radius))) [
          | inl far ↦
              rw
                (
                  near_step d b order best touched kth e,
                  far,
                  ← append_assoc all (found_in f q b) (found_in_all f q order),
                )
                (near_loop-Kept some_k order (all ++ found_in f q b) best touched bounded.1
                  (skip_block all best d b kth bounded.0 full below far h))
          | inr close ↦
              rw
                (
                  near_step d b order best touched kth e,
                  close,
                  ← append_assoc all (found_in f q b) (found_in_all f q order),
                )
                on
        ]
      ]

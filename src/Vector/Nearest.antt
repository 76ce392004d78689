-- ===== src/Vector/Nearest.antt =====
-- What the searches of the exact and of the sharded index return.
use mathlib.Core.List.{Perm, perm_append_comm}
use mathlib.Core.List.Perm
use grainstore.Base.{
  ℕ, ◌*◌, ◌%◌, ◌^◌, ◌<◌, ◌≡◌, refl, sym, subst, ◌∙◌, List, [], ◌∷◌, ◌++◌, All, true, arith,
  append_assoc, some, take, length, ltb, ◌==◌, Bool-cases, inl, inr,
}
use grainstore.Float.{value_rank, total_rank, total_cmp}
use grainstore.Sort.Laws.{IsNearest, Agrees, take-sort_by-IsNearest}
use grainstore.Sort.Nearest.{IsNearest-perm, IsNearest-merge}
use grainstore.Vector.{Candidate, VectorIndex, has_capacity}
use grainstore.Sort.{sort_by}
use mathlib.Core.Option.{some_inj}
use grainstore.Vector.Brute
use grainstore.Vector.Sharded
use grainstore.Vector.Sharded.{ShardedIndex, gather, search_all}

abbrev pub dist_rank : Candidate → ℕ
dist_rank c = value_rank c.dist

abbrev pub total_dist_rank : Candidate → ℕ
total_dist_rank c = total_rank c.dist

by_total-Agrees : Agrees Sharded.by_total total_dist_rank (λ _. Unit {0})
by_total-Agrees x y hx hy = unfold total_cmp in ((λ l. ground arith), (λ n. ground arith))

All-unit : {A : Type 0} (xs : List A) → All (λ (_ : A). Unit {0}) xs
All-unit [] = tt
All-unit (x ∷ xs) = (tt, All-unit xs)

module _ (v : VectorIndex) (query : List ℕ) (k ef : ℕ) (contents : v.Index → List Candidate) where
  -- The candidates of all shards.
  pub all_contents : ShardedIndex v → List Candidate
  all_contents [] = []
  all_contents (s ∷ shards) = contents s ++ all_contents shards

  swap_front : (xs ys zs : List Candidate) → Perm (xs ++ (ys ++ zs)) (ys ++ (xs ++ zs))
  swap_front xs ys zs =
      rw (← append_assoc xs ys zs, ← append_assoc ys xs zs)
        (Perm.append_right zs (perm_append_comm xs ys))

  abbrev pub Exact : v.Index → Type 0
  Exact s =
      (found : List Candidate) × (v.search s query k ef ≡ some found)
      × IsNearest total_dist_rank k (contents s) found

  search_all-gather :
      (shards : ShardedIndex v)
      → k * length shards * 32 < 2 ^ 63
      → search_all v shards query k ef ≡ gather v shards query k ef
  unfolding search_all has_capacity
  search_all-gather shards room =
      let small : (k * length shards % 2 ^ 64 ≡ k * length shards) = omega arith in
      let fits : (ltb (k * length shards % 2 ^ 64 * 32) (2 ^ 63) ≡ true) =
        rw small (ground arith) in
      elim (Bool-cases (length shards == 1)) [
        | inl one ↦ rw (one, search_all) refl
        | inr several ↦ rw (several, search_all, has_capacity, fits) refl
      ]

  gather_total :
      (shards : ShardedIndex v)
      → All Exact shards
      → (all : List Candidate) × (gather v shards query k ef ≡ some all)
  unfolding gather
  gather_total [] exact = ([], refl)
  gather_total (s ∷ shards) exact =
      let (found, e, near) = exact.0 in
      let (rest, e') = gather_total shards exact.1 in (found ++ rest, rw (e, gather, e') refl)

  gathered-IsNearest :
      (before kept : List Candidate) (shards : ShardedIndex v) (all : List Candidate)
      → All Exact shards
      → gather v shards query k ef ≡ some all
      → IsNearest total_dist_rank k (before ++ all) kept
      → IsNearest total_dist_rank k (before ++ all_contents shards) kept
  unfolding gather all_contents
  gathered-IsNearest before kept [] all exact g h =
      subst (λ (l : List Candidate). IsNearest total_dist_rank k (before ++ l) kept)
        (sym (some_inj.0 g)) h
  gathered-IsNearest before kept (s ∷ shards) all exact g h =
      let (found, e, near) = exact.0 in
      let (rest, e') = gather_total shards exact.1 in
      let same : (found ++ rest ≡ all) = some_inj.0 (sym (rw (e, gather, e') refl) ∙ g) in
      let h' =
        subst (λ (l : List Candidate). IsNearest total_dist_rank k (before ++ l) kept) (sym same)
          h in
      let part =
        IsNearest-merge total_dist_rank k (contents s) found (before ++ rest) kept near
          (IsNearest-perm total_dist_rank k kept (swap_front before found rest) h') in
      rw (← append_assoc before (contents s) (all_contents shards)) (
        gathered-IsNearest (before ++ contents s) kept shards rest exact.1 e' (
          rw (append_assoc before (contents s) rest)
            (IsNearest-perm total_dist_rank k kept (swap_front (contents s) before rest) part)))

  -- When each shard's search returns the `k` nearest of what the shard holds, and `k` candidates of 32
  -- bytes for each shard are less than 2^63 bytes, the sharded search does not panic and returns the
  -- `k` nearest of what all shards hold, in the total order of floats.
  pub sharded-IsNearest :
      (shards : ShardedIndex v)
      → All Exact shards
      → k * length shards * 32 < 2 ^ 63
      → (best : List Candidate) × (Sharded.search v shards query k ef ≡ some best)
        × IsNearest total_dist_rank k (all_contents shards) best
  unfolding Sharded.search
  sharded-IsNearest shards exact room =
      let (all, e) = gather_total shards exact in
      let best = take k (sort_by Sharded.by_total all) in
      (
        best,
        rw (Sharded.search, search_all-gather shards room, e) refl,
        gathered-IsNearest [] best shards all exact e (
            take-sort_by-IsNearest Sharded.by_total total_dist_rank (λ _. Unit {0}) by_total-Agrees
              k all (All-unit all)),
      )

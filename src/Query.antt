-- ===== src/Query.antt =====
-- src/query.rs: candidates from the index, joined to the truth, filtered, ranked and cut to `k`.
pub mod Ranking
pub mod Total
use grainstore.Base.{
  ℕ, ◌*◌, ◌-◌, ◌^◌, max, min, List, [], ◌∷◌, ◌++◌, Option, none, some, Bool, take, Ordering,
  if◌then◌else◌,
}
use grainstore.Base.Panic
use grainstore.Error.{Result, ok, err, ◌>>=◌}
use grainstore.Float.{cmp_or_equal}
use grainstore.Model.{Grain, PredId}
use grainstore.Sort.{sort_by}
use grainstore.Truth.{TruthStore, strong, get}
use grainstore.Vector.{Candidate, VectorIndex}

pub record MixedQuery : Type 0 where
  pub pred : PredId
  pub query : List ℕ
  pub k : ℕ
  pub ef : ℕ
  pub over_fetch : ℕ

pub record Ranked : Type 0 where
  pub grain : Grain
  pub dist : ℕ

-- `a.saturating_mul(b)` on a 64-bit `usize`
unfoldable pub saturating_mul : ℕ → ℕ → ℕ
saturating_mul a b = min (a * b) (2 ^ 64 - 1)

unfoldable pub k_prime : MixedQuery → ℕ
unfolding saturating_mul
k_prime q = max (saturating_mul q.k (max q.over_fetch 1)) q.k

-- The row of a candidate whose grain is there and passes.
join_one : (Grain → Bool) → Candidate → Option Grain → List Ranked → List Ranked
join_one predicate c none out = out
join_one predicate c (some grain) out =
    if predicate grain then out ++ (record { grain = grain; dist = c.dist } ∷ []) else out

-- The loop over the candidates, with `out`; a failed read ends it.
pub join_loop :
    TruthStore → PredId → (Grain → Bool) → List Candidate → List Ranked → Result (List Ranked)
unfolding join_one
join_loop t pred predicate [] out = ok out
join_loop t pred predicate (c ∷ cs) out = do
  found ← get t c.sid pred strong
  join_loop t pred predicate cs (join_one predicate c found out)

-- The comparison of the final sort.
abbrev pub by_dist : Ranked → Ranked → Ordering
by_dist a b = cmp_or_equal a.dist b.dist

-- The sort and the cut. With a NaN among the distances the comparison is no total order, for which
-- `sort_by` may panic too; this is what it gives when it does not.
unfoldable pub rank : ℕ → List Ranked → List Ranked
rank k out = take k (sort_by by_dist out)

-- What the truth makes of the candidates.
unfoldable pub select :
    TruthStore → MixedQuery → (Grain → Bool) → List Candidate → Result (List Ranked)
unfolding join_loop rank
select t q predicate cs = do out ← join_loop t q.pred predicate cs []; ok (rank q.k out)

-- A panic of the search is `none`.
unfoldable pub near_join_select :
    TruthStore
    → (v : VectorIndex) → v.Index
    → MixedQuery
    → (Grain → Bool)
    → Option (Result (List Ranked))
unfolding select k_prime
near_join_select t v index q predicate =
    Panic.◌>>=◌ (v.search index q.query (k_prime q) q.ef) λ cs. some (select t q predicate cs)

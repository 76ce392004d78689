-- ===== src/Query/Total.antt =====
-- A query over a store whose log replays to it does not fail.
use grainstore.Base.{ℕ, ◌≡◌, refl, List, [], ◌∷◌, All, Bool, none, some, false}
use grainstore.Durability.Numbering.{IsHistory}
use grainstore.Error.{ok}
use grainstore.Model.{Grain, IsU32, IsU64, IsU128, PredId}
use grainstore.Query.{MixedQuery, Ranked, join_loop, rank, k_prime, select, near_join_select}
use grainstore.Query.Ranking.{dist_rank, near_join_select-nearest}
use grainstore.Sort.Laws.{IsSorted}
use grainstore.Float.{is_nan}
use grainstore.Truth.{TruthStore, strong, get}
use grainstore.Truth.Mvcc.{answer, get_at-visible}
use grainstore.Truth.Visible.{visible}
use grainstore.Vector.{Candidate, VectorIndex}
use grainstore.Wal.{WalRecord}

module _ (t : TruthStore) (log : List WalRecord) (h : IsHistory log t.committer)
    (room : IsU64 t.committer.hlc) where
  get-visible :
      (sid : ℕ) (pred : PredId)
      → IsU128 sid
      → IsU32 pred
      → get t sid pred strong ≡ ok (answer (visible sid pred t.committer.hlc none log))
  unfolding get
  get-visible sid pred hs hp =
      get_at-visible t sid pred t.committer.hlc
        (record { sid_fits = hs; pred_fits = hp; t_fits = room }) log h

  join_loop_total :
      (pred : PredId) (predicate : Grain → Bool) (cs : List Candidate) (out : List Ranked)
      → IsU32 pred
      → All (λ c. IsU128 c.sid) cs
      → (rows : List Ranked) × (join_loop t pred predicate cs out ≡ ok rows)
  unfolding join_loop
  join_loop_total pred predicate [] out hp fits = (out, refl)
  join_loop_total pred predicate (c ∷ cs) out hp fits =
      rw (get-visible c.sid pred fits.0 hp) (join_loop_total pred predicate cs _ hp fits.1)

  -- On a store whose log replays to it, a query succeeds with whatever candidates the search of the
  -- index returns, as long as their ids are 128-bit numbers and no distance is a NaN, so that the
  -- comparison of the sort is a total order, and its rows come nearest first. The predicate and the
  -- clock fit their widths too.
  pub near_join_select_total :
      (v : VectorIndex) (index : v.Index) (q : MixedQuery) (predicate : Grain → Bool)
      (cs : List Candidate)
      → IsU32 q.pred
      → v.search index q.query (k_prime q) q.ef ≡ some cs
      → All (λ c. IsU128 c.sid) cs
      → All (λ c. is_nan c.dist ≡ false) cs
      → (rows : List Ranked) × (near_join_select t v index q predicate ≡ some (ok rows))
        × IsSorted dist_rank rows
  unfolding near_join_select select
  near_join_select_total v index q predicate cs hp searched fits clean =
      let (out, e) = join_loop_total q.pred predicate cs [] hp fits in
      let done : (near_join_select t v index q predicate ≡ some (ok (rank q.k out))) =
        rw (searched, near_join_select, e, select) refl in
      (
        rank q.k out,
        done,
        (near_join_select-nearest t v index q predicate (rank q.k out) cs searched done clean).0,
      )

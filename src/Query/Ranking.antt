-- ===== src/Query/Ranking.antt =====
-- What the rows of a mixed query are.
use mathlib.Core.List.{Perm, Mem, mem-cons_self, mem-cons_of_mem}
use mathlib.Core.Option.{some_inj}
use grainstore.Base.Panic.{bind_some}
use grainstore.Base.{
  ℕ, ◌≤◌, ◌≡◌, refl, sym, ◌∙◌, List, [], ◌∷◌, ◌++◌, Option, none, some, Bool, true, false, length,
  All, All-append, All-take, arith, length-take, Bool-cases, inl, inr, subst, drop,
  take-append-drop,
}
use grainstore.Error.{Result, ok, err, ◌>>=◌}
use grainstore.Float.{is_nan, value_rank, cmp_or_equal}
use grainstore.Model.{Grain, PredId}
use grainstore.Query.{
  MixedQuery, Ranked, join_one, join_loop, by_dist, rank, select, near_join_select, k_prime,
}
use grainstore.Sort.{sort_by}
use grainstore.Sort.Laws.{
  IsSorted-take, sort_by-All, sort_by-perm, sort_by-IsSorted, IsSorted, Agrees,
  IsSorted-KeepsNearest,
}
use grainstore.Truth.{TruthStore, strong, get}
use grainstore.Vector.{Candidate, VectorIndex}

-- A row is right: its grain is what a strong read of the predicate gives for one of the candidates,
-- whose distance the row has, and it passes.
abbrev pub IsRow : TruthStore → PredId → (Grain → Bool) → List Candidate → Ranked → Type 0
IsRow t pred predicate candidates r =
    ((c : Candidate) × Mem c candidates
      × (get t c.sid pred strong ≡ ok (some r.grain))
      × (r.dist ≡ c.dist))
    × (predicate r.grain ≡ true)

module _ (t : TruthStore) (pred : PredId) (predicate : Grain → Bool) where
  join_one-IsRow :
      (cs : List Candidate) (c : Candidate) (found : Option Grain) (out : List Ranked)
      → Mem c cs
      → get t c.sid pred strong ≡ ok found
      → All (IsRow t pred predicate cs) out
      → All (IsRow t pred predicate cs) (join_one predicate c found out)
  unfolding join_one
  join_one-IsRow cs c none out m e h = h
  join_one-IsRow cs c (some g) out m e h = elim (Bool-cases (predicate g)) [
    | inl passes ↦
        rw passes (All-append (IsRow t pred predicate cs) out _ h (((c, m, e, refl), passes), tt))
    | inr fails ↦ rw fails h
  ]

  -- The loop keeps what holds of every row that it adds.
  join_loop-All :
      (R : Candidate → Type 0) (Q : Ranked → Type 0)
      (keep : (c : Candidate) (found : Option Grain) (out : List Ranked)
        → R c
        → get t c.sid pred strong ≡ ok found
        → All Q out
        → All Q (join_one predicate c found out))
      (cs : List Candidate) (out res : List Ranked)
      → All R cs
      → All Q out
      → join_loop t pred predicate cs out ≡ ok res
      → All Q res
  unfolding join_loop
  join_loop-All R Q keep [] out res rs h e = subst (All Q) {x = out} {y = res} (cc) h
  join_loop-All R Q keep (c ∷ cs) out res rs h e =
      go (get t c.sid pred strong)
        (λ found f g.
          join_loop-All R Q keep cs (join_one predicate c found out) res rs.1
            (keep c found out rs.0 f h) g)
        refl e
    where
      go :
          (r : Result (Option Grain))
          → ((found : Option Grain)
              → get t c.sid pred strong ≡ ok found
              → join_loop t pred predicate cs (join_one predicate c found out) ≡ ok res
              → All Q res)
          → get t c.sid pred strong ≡ r
          → (r >>= λ found. join_loop t pred predicate cs (join_one predicate c found out)) ≡ ok res
          → All Q res
      go (err x) later f g = absurd (cc)
      go (ok found) later f g = later found f g

  join_one-clean :
      (c : Candidate) (found : Option Grain) (out : List Ranked)
      → is_nan c.dist ≡ false
      → get t c.sid pred strong ≡ ok found
      → All (λ r. is_nan r.dist ≡ false) out
      → All (λ r. is_nan r.dist ≡ false) (join_one predicate c found out)
  unfolding join_one
  join_one-clean c none out n e h = h
  join_one-clean c (some g) out n e h = elim (Bool-cases (predicate g)) [
    | inl passes ↦ rw passes (All-append (λ r. is_nan r.dist ≡ false) out _ h (n, tt))
    | inr fails ↦ rw fails h
  ]

-- The joined rows before the sort, of a query that succeeds.
joined :
    (t : TruthStore) (q : MixedQuery) (predicate : Grain → Bool) (cs : List Candidate)
    (rows : List Ranked)
    → select t q predicate cs ≡ ok rows
    → (out : List Ranked) × (join_loop t q.pred predicate cs [] ≡ ok out) × (rank q.k out ≡ rows)
unfolding select
joined t q predicate cs rows e = go (join_loop t q.pred predicate cs []) refl e
  where
    go :
        (r : Result (List Ranked))
        → join_loop t q.pred predicate cs [] ≡ r
        → (r >>= λ out. ok (rank q.k out)) ≡ ok rows
        → (out : List Ranked) × (join_loop t q.pred predicate cs [] ≡ ok out)
          × (rank q.k out ≡ rows)
    go (err x) f g = absurd (cc)
    go (ok out) f g = (out, f, cc)

All-Mem_in :
    (cs all : List Candidate) → ((c : Candidate) → Mem c cs → Mem c all) → All (λ c. Mem c all) cs
All-Mem_in [] all h = tt
All-Mem_in (c ∷ cs) all h =
    (h c mem-cons_self, All-Mem_in cs all (λ x m. h x (mem-cons_of_mem c m)))

-- A query that is answered has had candidates.
pub answered-select :
    (t : TruthStore) (v : VectorIndex) (index : v.Index) (q : MixedQuery) (predicate : Grain → Bool)
    (res : Result (List Ranked))
    → near_join_select t v index q predicate ≡ some res
    → (cs : List Candidate) × (v.search index q.query (k_prime q) q.ef ≡ some cs)
      × (select t q predicate cs ≡ res)
unfolding near_join_select
answered-select t v index q predicate res e =
    let (cs, found, same) =
      bind_some (v.search index q.query (k_prime q) q.ef) (λ cs. some (select t q predicate cs)) res
        e in
    (cs, found, some_inj.0 same)

-- A successful query returns at most `k` rows. Each of them is a grain that a strong read of the
-- queried predicate gives now for one of the candidates of the index's search, with the distance of
-- that candidate, and passes the filter.
pub near_join_select-IsRow :
    (t : TruthStore) (v : VectorIndex) (index : v.Index) (q : MixedQuery) (predicate : Grain → Bool)
    (rows : List Ranked)
    → near_join_select t v index q predicate ≡ some (ok rows)
    → (cs : List Candidate) × (v.search index q.query (k_prime q) q.ef ≡ some cs)
      × (length rows ≤ q.k)
      × All (IsRow t q.pred predicate cs) rows
unfolding rank
near_join_select-IsRow t v index q predicate rows e =
    let (cs, searched, selected) = answered-select t v index q predicate (ok rows) e in
    let (out, f, g) = joined t q predicate cs rows selected in
    let each =
      join_loop-All t q.pred predicate (λ c. Mem c cs) (IsRow t q.pred predicate cs)
        (join_one-IsRow t q.pred predicate cs) cs [] out (All-Mem_in cs cs (λ c m. m)) tt f in
    (
      cs,
      searched,
      subst (λ (rs : List Ranked). length rs ≤ q.k) g
          (omega (arith, length-take q.k (sort_by by_dist out))),
      subst (All (IsRow t q.pred predicate cs)) g (
          All-take (IsRow t q.pred predicate cs) q.k (sort_by by_dist out)
            (sort_by-All by_dist (IsRow t q.pred predicate cs) out each)),
    )

abbrev pub dist_rank : Ranked → ℕ
dist_rank r = value_rank r.dist

by_dist-Agrees : Agrees by_dist dist_rank (λ r. is_nan r.dist ≡ false)
by_dist-Agrees x y hx hy =
    unfold cmp_or_equal in rw (hx, hy) ((λ l. ground arith), (λ n. ground arith))

-- When no candidate's distance is a NaN, the rows come nearest first, and they are the nearest of all
-- rows that were joined: those are a rearrangement of the rows returned and rows that are no nearer.
pub near_join_select-nearest :
    (t : TruthStore) (v : VectorIndex) (index : v.Index) (q : MixedQuery) (predicate : Grain → Bool)
    (rows : List Ranked) (cs : List Candidate)
    → v.search index q.query (k_prime q) q.ef ≡ some cs
    → near_join_select t v index q predicate ≡ some (ok rows)
    → All (λ c. is_nan c.dist ≡ false) cs
    → IsSorted dist_rank rows
      × ((out left : List Ranked) × (join_loop t q.pred predicate cs [] ≡ ok out)
          × Perm (rows ++ left) out
          × All (λ x. All (λ y. dist_rank x ≤ dist_rank y) left) rows)
unfolding rank
near_join_select-nearest t v index q predicate rows cs searched e clean =
    let (cs', searched', selected) = answered-select t v index q predicate (ok rows) e in
    let same : (cs' ≡ cs) = some_inj.0 (sym searched' ∙ searched) in
    let (out, f, g) =
      joined t q predicate cs rows
        (subst (λ (l : List Candidate). select t q predicate l ≡ ok rows) same selected) in
    let sorted = sort_by by_dist out in
    let ordered =
      sort_by-IsSorted by_dist dist_rank (λ r. is_nan r.dist ≡ false) by_dist-Agrees out
        (join_loop-All t q.pred predicate (λ c. is_nan c.dist ≡ false) (λ r. is_nan r.dist ≡ false)
          (join_one-clean t q.pred predicate) cs [] out clean tt f) in
    rw (← g) (
      IsSorted-take dist_rank q.k sorted ordered,
      (
        out,
        drop q.k sorted,
        f,
        rw (take-append-drop q.k sorted) (sort_by-perm by_dist out),
        IsSorted-KeepsNearest dist_rank q.k sorted ordered,
      ),
    )

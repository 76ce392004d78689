-- ===== src/Server/Total.antt =====
-- server/src/lib.rs: the dimension and the index of the store, and that a query of a store with a
-- dimension has an answer when the search of its index returns.
use grainstore.Base.{
  ℕ, ◌*◌, ◌<◌, ◌≤◌, ◌≡◌, refl, ◌∙◌, ◌⊎◌, inl, inr, max, List, [], ◌∷◌, All, Option, some, false,
  length, arith,
}
use grainstore.Catalog.{CatState}
use grainstore.Engine
use grainstore.Engine.{GrainEngine, WriteMeta, put_raw, written}
use grainstore.Error.{Error, Result, ok, err}
use grainstore.Float.{Float32, is_nan}
use grainstore.Query.{MixedQuery, k_prime, saturating_mul, select, near_join_select}
use grainstore.Truth
use grainstore.Truth.{TruthStore}
use grainstore.Server
use grainstore.Server.{
  GrainRec, QueryHit, Store, load, load_loop, loaded, pred, encode_val, matches,
}
use grainstore.Server.Layout.{embed_text_total}
use grainstore.Vector.{Candidate, VectorIndex}
use grainstore.Wal.Commit.{WriteEnd}

pub Result-cases : (r : Result ℕ) → ((n : ℕ) × (r ≡ ok n)) ⊎ ((reason : Error) × (r ≡ err reason))
Result-cases (ok n) = inl (n, refl)
Result-cases (err reason) = inr (reason, refl)

-- The query that the server makes.
abbrev server_query : List ℕ → ℕ → MixedQuery
server_query q k = record { pred = pred; query = q; k = k; ef = 128; over_fetch = 64 }

-- A result that is there.
abbrev pub Answers {ℓ} : {A : Type ℓ} → Option A → Type ℓ
Answers {A} o = (a : A) × (o ≡ some a)

module _ (v : VectorIndex) (s : Store v) where
  dim-loaded : (n : ℕ) (t : GrainEngine v × Result ℕ) → (loaded v s n t).0.dim ≡ s.dim
  unfolding loaded
  dim-loaded n (e, ok x) = refl
  dim-loaded n (e, err x) = refl

  pub dim-load : (recs : List (GrainRec × WriteEnd)) → (load v s recs).0.dim ≡ s.dim
  unfolding load
  dim-load recs = dim-loaded (length recs) (load_loop v s.engine s.last_seq recs)

  index-loaded :
      (n : ℕ) (t : GrainEngine v × Result ℕ) → (loaded v s n t).0.engine.index ≡ t.0.index
  unfolding loaded
  index-loaded n (e, ok x) = refl
  index-loaded n (e, err x) = refl

  index-written :
      (e : GrainEngine v) (c : CatState) (t : TruthStore × Result ℕ)
      → (written v e c t).0.index ≡ e.index
  unfolding written
  index-written e c (t, answer) = refl

  index-put_raw :
      (e : GrainEngine v) (sid pred : ℕ) (value : List ℕ) (meta : WriteMeta) (end : WriteEnd)
      → (put_raw v e sid pred value meta end).0.index ≡ e.index
  unfolding put_raw
  index-put_raw e sid pred value meta end =
      index-written e e.catalog
        (Truth.put e.truth sid pred value meta.c meta.t_valid meta.idem_key end)

  index-load_loop :
      (e : GrainEngine v) (m : ℕ) (recs : List (GrainRec × WriteEnd))
      → (load_loop v e m recs).0.index ≡ e.index
  unfolding load_loop
  index-load_loop e m [] = refl
  index-load_loop e m ((r, end) ∷ recs) =
      let put =
        put_raw v e r.sid pred (encode_val r.category r.amount r.text)
          (record { c = 0x3f800000; t_valid = 0; idem_key = r.sid }) end in
      let kept : (put.0.index ≡ e.index) = index-put_raw e r.sid pred _ _ end in
      elim (Result-cases (put.1)) [
        | inr (reason, failed) ↦ rw (load_loop, failed) kept
        | inl (h, done) ↦ rw (load_loop, done) (index-load_loop (put.0) (max m h) recs ∙ kept)
      ]

  -- The writes of a load are not those of the index, which the materializer feeds.
  pub index-load :
      (recs : List (GrainRec × WriteEnd)) → (load v s recs).0.engine.index ≡ s.engine.index
  unfolding load
  index-load recs =
      index-loaded (length recs) (load_loop v s.engine s.last_seq recs)
      ∙ index-load_loop s.engine s.last_seq recs

-- An index as the server relies on it: in a good state the search for at most `bound` candidates
-- returns, and no distance is a NaN, which the sort of the rows could panic of.
pub record Searches (v : VectorIndex) (bound : ℕ) (Good : v.Index → Type 0) : Type 0 where
  pub returns :
      (index : v.Index) (q : List ℕ) (k ef : ℕ)
      → Good index
      → k ≤ bound
      → (cs : List Candidate) × (v.search index q k ef ≡ some cs)
        × All (λ c. is_nan c.dist ≡ false) cs

k_prime-le : (q : List ℕ) (k : ℕ) → k_prime (server_query q k) ≤ k * 64
unfolding k_prime saturating_mul
k_prime-le q k = omega arith

module _ (v : VectorIndex) (s : Store v) where
  pub query_total :
      (f : Float32) (lossy : List ℕ → List ℕ) (bound : ℕ) (Good : v.Index → Type 0)
      → Searches v bound Good
      → Good s.engine.index
      → 0 < s.dim
      → (text : List ℕ) (category lo hi : Option ℕ) (k : ℕ) → k * 64 ≤ bound
      → Answers (Server.query v f lossy s text category lo hi k)
  unfolding Server.query Engine.query near_join_select
  query_total f lossy bound Good searches good some_dim text category lo hi k few =
      let (q, embedded, size) = embed_text_total f text s.dim some_dim in
      let (cs, found, clean) =
        searches.returns s.engine.index q (k_prime (server_query q k)) 128 good
          (omega (arith, k_prime-le q k)) in
      (
        Server.hits_of v f lossy
            (select s.engine.truth (server_query q k) (matches lossy category lo hi) cs),
        rw (Server.query, embedded, found) refl,
      )

-- ===== src/Server/Answers.antt =====
-- server/src/lib.rs: the answers of Store::query and Store::load.
use grainstore.Base.{
  ℕ, suc, ◌≤◌, ◌≡◌, refl, ap, subst, max, List, [], ◌∷◌, All, Option, none, some, true, ◌==◌,
  &&-eq-true, ==_iff, length, map, arith, Option-cases, inl, inr,
}
use grainstore.Base.HashMap
use grainstore.Engine
use grainstore.Engine.{GrainEngine}
use grainstore.Error.{Result, ok, err}
use grainstore.Float.{Float32}
use grainstore.Query.{Ranked, near_join_select}
use grainstore.Query.Ranking.{IsRow, near_join_select-IsRow}
use grainstore.Server.{
  GrainRec, QueryHit, Store, signed_rank, at_least, encode_val, matches, hit_of, load, load_loop,
  loaded, query, pred,
}
use grainstore.Server.Text.{embed_text}
use grainstore.Truth
use grainstore.Truth.{TruthStore, commit}
use grainstore.Truth.Session.{commit_retry}
use grainstore.Vector.{Candidate, VectorIndex}
use grainstore.Wal
use grainstore.Wal.Commit.{WriteEnd}

-- The hit is in the category that is asked for, if one is.
abbrev pub InCategory : Option ℕ → QueryHit → Type 0
InCategory none h = Unit
InCategory (some w) h = h.category ≡ w

abbrev pub FromAmount : Option ℕ → QueryHit → Type 0
FromAmount none h = Unit
FromAmount (some lo) h = signed_rank lo ≤ signed_rank h.amount

abbrev pub ToAmount : Option ℕ → QueryHit → Type 0
ToAmount none h = Unit
ToAmount (some hi) h = signed_rank h.amount ≤ signed_rank hi

in_category :
    (category : Option ℕ) (h : QueryHit)
    → elim category [ none ↦ true | some w ↦ h.category == w ] ≡ true
    → InCategory category h
in_category none h e = tt
in_category (some w) h e = (==_iff h.category w).0 e

from_amount :
    (lo : Option ℕ) (h : QueryHit)
    → elim lo [ none ↦ true | some lo ↦ at_least h.amount lo ] ≡ true
    → FromAmount lo h
from_amount none h e = tt
from_amount (some lo) h e = ground (arith, e)

to_amount :
    (hi : Option ℕ) (h : QueryHit)
    → elim hi [ none ↦ true | some hi ↦ at_least hi h.amount ] ≡ true
    → ToAmount hi h
to_amount none h e = tt
to_amount (some hi) h e = ground (arith, e)

module _ (lossy : List ℕ → List ℕ) (category lo hi : Option ℕ) where
  abbrev pub Fits : QueryHit → Type 0
  Fits h = InCategory category h × FromAmount lo h × ToAmount hi h

  hit_of-Fits : (r : Ranked) → matches lossy category lo hi r.grain ≡ true → Fits (hit_of lossy r)
  unfolding matches hit_of
  hit_of-Fits r e =
      let (ab, c) = &&-eq-true _ _ e in
      let (a, b) = &&-eq-true _ _ ab in
      (
        in_category category (hit_of lossy r) a,
        from_amount lo (hit_of lossy r) b,
        to_amount hi (hit_of lossy r) c,
      )

  rows-Fit :
      (t : TruthStore) (p : ℕ) (cs : List Candidate) (rows : List Ranked)
      → All (IsRow t p (matches lossy category lo hi) cs) rows
      → All Fits (map (hit_of lossy) rows)
  rows-Fit t p cs [] h = tt
  rows-Fit t p cs (r ∷ rows) h = (hit_of-Fits r h.0.1, rows-Fit t p cs rows h.1)

  length-hits : (rows : List Ranked) → length (map (hit_of lossy) rows) ≡ length rows
  length-hits [] = refl
  length-hits (r ∷ rows) = ap (λ (n : ℕ). suc n) (length-hits rows)

  -- The hits of a query that succeeds are at most `k`, and each is in the category and between the
  -- amounts that were asked for.
  pub query-Fits :
      (v : VectorIndex) (f : Float32) (s : Store v) (text : List ℕ) (k : ℕ) (hits : List QueryHit)
      → query v f lossy s text category lo hi k ≡ some (ok hits)
      → (length hits ≤ k) × All Fits hits
  unfolding query Engine.query
  query-Fits v f s text k hits e = elim (Option-cases (embed_text f text s.dim)) [
    | inl panics ↦ absurd (cc)
    | inr (qvec, embedded) ↦
        answered qvec embedded
          (near_join_select s.engine.truth v s.engine.index
            (record { pred = pred; query = qvec; k = k; ef = 128; over_fetch = 64 })
            (matches lossy category lo hi))
          refl
  ]
    where
      answered :
          (qvec : List ℕ)
          → embed_text f text s.dim ≡ some qvec
          → (res : Option (Result (List Ranked)))
          → near_join_select s.engine.truth v s.engine.index
              (record { pred = pred; query = qvec; k = k; ef = 128; over_fetch = 64 })
              (matches lossy category lo hi)
            ≡ res
          → (length hits ≤ k) × All Fits hits
      answered qvec embedded none found = absurd (cc)
      answered qvec embedded (some (err reason)) found = absurd (cc)
      answered qvec embedded (some (ok rows)) found =
          let same : (map (hit_of lossy) rows ≡ hits) = cc in
          let (cs, searched, few, all) =
            near_join_select-IsRow s.engine.truth v s.engine.index
              (record { pred = pred; query = qvec; k = k; ef = 128; over_fetch = 64 })
              (matches lossy category lo hi) rows found in
          (
            rw (← same) (omega (arith, few, length-hits rows)),
            subst (All Fits) same (rows-Fit s.engine.truth pred cs rows all),
          )

module _ (v : VectorIndex) where
  -- What the engine makes of the write of one record.
  abbrev put_one : GrainEngine v → GrainRec → WriteEnd → GrainEngine v × Result ℕ
  put_one e r end =
      Engine.put_raw v e r.sid pred (encode_val r.category r.amount r.text)
        (record { c = 0x3f800000; t_valid = 0; idem_key = r.sid }) end

  load_loop-put_one :
      (e : GrainEngine v) (max_seq orig : ℕ) (r : GrainRec) (end : WriteEnd)
      → (put_one e r end).1 ≡ ok orig
      → load_loop v e max_seq ((r, end) ∷ []) ≡ ((put_one e r end).0, ok (max max_seq orig))
  unfolding load_loop
  load_loop-put_one e max_seq orig r end h = rw (h, load_loop)

  -- A load of a record whose sid is an idempotency key of the running store is answered as one record
  -- loaded, and leaves the log and the grains as they were, whatever the record says.
  pub load-repeated :
      (s : Store v) (r : GrainRec) (orig : ℕ) (end : WriteEnd)
      → s.engine.truth.running ≡ true
      → HashMap.get r.sid s.engine.truth.committer.idem ≡ some orig
      → ((load v s ((r, end) ∷ [])).1 ≡ ok 1)
        × ((load v s ((r, end) ∷ [])).0.engine.truth.committer.file ≡ s.engine.truth.committer.file)
        × ((load v s ((r, end) ∷ [])).0.engine.truth.committer.kv.grains
            ≡ s.engine.truth.committer.kv.grains)
  unfolding load loaded Engine.put_raw Engine.written Truth.put Wal.put
  load-repeated s r orig end running known =
      let req = Wal.put r.sid pred (encode_val r.category r.amount r.text) 0x3f800000 0 r.sid in
      let retry = commit_retry s.engine.truth req orig end running known in
      rw (load_loop-put_one s.engine s.last_seq orig r end retry.0) (refl, retry.2, retry.3)

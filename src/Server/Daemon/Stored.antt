-- ===== src/Server/Daemon/Stored.antt =====
-- server/src/bin/grainstored.rs: what the truth knows after a request.
use grainstore.Base.{
  ℕ, suc, ◌≡◌, refl, sym, subst, ap, ◌∙◌, ◌⊎◌, inl, inr, List, [], ◌∷◌, All, Option, none, some,
  true,
}
use grainstore.Error.{Error, Result, ok, err}
use grainstore.Float.{Float32}
use grainstore.Server.{GrainRec, Store, load}
use grainstore.Server.Daemon.{Request, Response, with_ends, handle}
use grainstore.Server.Daemon.Effect.{Loads, Follows, grains_of, handle-Follows}
use grainstore.Server.Json.{Json}
use grainstore.Server.Repeated.{Knows, sids, load-Knows}
use grainstore.Truth.Known.{Known}
use grainstore.Vector.{VectorIndex}
use grainstore.Wal.Commit.{WriteEnd}

module _ (v : VectorIndex) where
  -- Not all grains were loaded, or the store runs and the committer knows the sid of each.
  abbrev pub Stored : Option (List GrainRec) → Store v → ℕ → Type 0
  Stored none s' status = Unit
  Stored (some recs) s' status =
      (status ≡ 500)
      ⊎ ((status ≡ 200)
          × (s'.engine.truth.running ≡ true)
          × All (λ r. Known s'.engine.truth.committer.idem r.sid) recs)

sids-with_ends :
    (P : ℕ → Type 0) (ends : ℕ → WriteEnd) (i : ℕ) (recs : List GrainRec)
    → All P (sids (with_ends ends i recs))
    → All (λ r. P r.sid) recs
unfolding with_ends
sids-with_ends P ends i [] h = tt
sids-with_ends P ends i (r ∷ recs) h = (h.0, sids-with_ends P ends (suc i) recs h.1)

module _ (j : Json) (trim : List ℕ → List ℕ) (message : Error → List ℕ) (v : VectorIndex)
    (f : Float32) (lossy : List ℕ → List ℕ) (s : Store v) (ends : ℕ → WriteEnd)
    (settle : v.Index → v.Index) where
  Loads-Stored :
      (recs : List GrainRec) (t : Store v × Result ℕ) (s' : Store v) (status : ℕ)
      → ((n : ℕ) → t.1 ≡ ok n → Knows t.0.engine.truth (sids (with_ends ends 0 recs)))
      → Loads j trim message v f lossy s ends settle recs t s' status
      → Stored v (some recs) s' status
  Loads-Stored recs (t, err x) s' status known h = inl h.0
  Loads-Stored recs (t, ok n) s' status known h =
      let (runs, all) = known n refl in
      inr (
        h.1,
        ap (λ (x : Store v). x.engine.truth.running) h.2 ∙ runs,
        subst (λ (x : Store v). All (λ r. Known x.engine.truth.committer.idem r.sid) recs) (sym h.2)
            (sids-with_ends (Known t.engine.truth.committer.idem) ends 0 recs all),
      )

  Follows-Stored :
      (o : Option (List GrainRec)) (s' : Store v) (status : ℕ)
      → s.engine.truth.running ≡ true
      → Follows j trim message v f lossy s ends settle o s' status
      → Stored v o s' status
  Follows-Stored none s' status running h = tt
  Follows-Stored (some recs) s' status running h =
      Loads-Stored recs (load v s (with_ends ends 0 recs)) s' status
        (λ n e. load-Knows v s (with_ends ends 0 recs) n running e) h

  -- What a request does that a running store answers. It brings grains just if it is a POST to the path
  -- "/grains", a query string aside, whose body parses. One that brings none leaves the store as it
  -- is. One that brings some makes it the store of `load` with just these grains. Its response has the
  -- status 200 if all were loaded, the index then having settled, and 500 if not; after a 200 the
  -- store runs and the committer knows the sid of each grain that was brought.
  pub handle-Stored :
      (rq : Request) (s' : Store v) (r : Response)
      → s.engine.truth.running ≡ true
      → handle j trim message v f lossy s ends settle rq ≡ some (s', r)
      → Follows j trim message v f lossy s ends settle
          (grains_of j trim message v f lossy rq)
          s'
          r.status
        × Stored v (grains_of j trim message v f lossy rq) s' r.status
  handle-Stored rq s' r running e =
      let follows = handle-Follows j trim message v f lossy s ends settle rq s' r e in
      (follows, Follows-Stored (grains_of j trim message v f lossy rq) s' r.status running follows)

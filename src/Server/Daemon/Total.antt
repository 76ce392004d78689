-- ===== src/Server/Daemon/Total.antt =====
-- server/src/bin/grainstored.rs: the responses of a worker.
use grainstore.Base.{ℕ, ◌*◌, ◌≤◌, ◌≡◌, All, List, Option, some}
use grainstore.Error.{Error}
use grainstore.Float.{Float32}
use grainstore.Server.Body.{unwrap_or}
use grainstore.Server.Daemon.{Request, on_query, route}
use grainstore.Server.Json.{Json, got, u64_of}
use grainstore.Vector.{VectorIndex}
use grainstore.Wal.Commit.{WriteEnd}

module _ (j : Json) (trim : List ℕ → List ℕ) (message : Error → List ℕ) (v : VectorIndex)
    (f : Float32) (lossy : List ℕ → List ℕ) where
  -- The query in the body, if it is one, asks for at most `bound` / 64 hits, `bound` being the number of
  -- candidates that the index is asked for at most.
  abbrev pub IsModest : ℕ → Option (List ℕ) → Type 0
  IsModest bound body =
      (b : List ℕ) (o : j.Value)
      → body ≡ some b
      → j.from_str b ≡ got o
      → unwrap_or 5 (u64_of j o "k") * 64 ≤ bound

  -- Every request that is a query is modest, and what the materializer does leaves the index good.
  abbrev pub AreServed :
      ℕ → (v.Index → Type 0) → List ((ℕ → WriteEnd) × (v.Index → v.Index) × Request) → Type 0
  AreServed bound Good rqs =
      All
        (λ (rq : (ℕ → WriteEnd) × (v.Index → v.Index) × Request).
          ((index : v.Index) → Good index → Good (rq.1 index))
          × (route (rq.2) ≡ on_query → IsModest bound (rq.2).body))
        rqs

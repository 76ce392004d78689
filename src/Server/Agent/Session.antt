-- ===== src/Server/Agent/Session.antt =====
-- server/src/bin/grainstore-mcp.rs: the loop over the lines of a session.
use grainstore.Base.{ℕ, ◌*◌, All, ◌≤◌, ◌≡◌, List, [], ◌∷◌, Option, none, some}
use grainstore.Base.Panic
use grainstore.Error.{Error}
use grainstore.Float.{Float32}
use grainstore.Server.{Store}
use grainstore.Server.Agent.{object_of, answer_line}
use grainstore.Server.Body.{unwrap_or}
use grainstore.Server.Json.{got, Json, u64_of}
use grainstore.Vector.{VectorIndex}
use grainstore.Wal.Commit.{WriteEnd}

-- The values that are sent, with the one for a line if there is one.
abbrev pub sent {ℓ} : {A : Type ℓ} → Option A → List A → List A
sent none xs = xs
sent (some x) xs = x ∷ xs

module _ (j : Json) (trim : List ℕ → List ℕ) (message : Error → List ℕ) (v : VectorIndex)
    (f : Float32) (lossy : List ℕ → List ℕ) (pretty : j.Value → List ℕ) (tool_defs : j.Value) where
  -- The lines that are read, with what their writes and the index come to.
  unfoldable pub session :
      Store v
      → List ((ℕ → WriteEnd) × (v.Index → v.Index) × List ℕ)
      → Option (Store v × List j.Value)
  unfolding answer_line
  session s [] = some (s, [])
  session s ((ends, settle, line) ∷ rest) =
      Panic.◌>>=◌ (answer_line j trim message v f lossy pretty tool_defs s ends settle line)
        λ one. Panic.◌>>=◌ (session (one.0) rest) λ more. some (more.0, sent (one.1) (more.1))

  -- The result is there, its store has the dimension it had, and its index is good.
  abbrev Goes {κ} : {B : Type κ} → (v.Index → Type 0) → Store v → Option (Store v × B) → Type κ
  Goes {B} Good s o =
      (t : Store v) × (x : B) × (o ≡ some (t, x)) × (t.dim ≡ s.dim) × Good t.engine.index

  -- The arguments that a request has for a tool.
  abbrev pub args_of : j.Value → j.Value
  args_of req =
      object_of j trim message v f lossy pretty tool_defs
        (object_of j trim message v f lossy pretty tool_defs req "params") "arguments"

  -- The arguments of a line that is a request ask for at most `bound` / 64 hits.
  abbrev pub IsModest : ℕ → List ℕ → Type 0
  IsModest bound line =
      (req : j.Value)
      → j.from_str line ≡ got req
      → unwrap_or 5 (u64_of j (args_of req) "k") * 64 ≤ bound

  abbrev pub AreServed :
      ℕ → (v.Index → Type 0) → List ((ℕ → WriteEnd) × (v.Index → v.Index) × List ℕ) → Type 0
  AreServed bound Good lines =
      All
        (λ (line : (ℕ → WriteEnd) × (v.Index → v.Index) × List ℕ).
          ((index : v.Index) → Good index → Good (line.1 index)) × IsModest bound (line.2))
        lines

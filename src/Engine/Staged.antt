-- ===== src/Engine/Staged.antt =====
-- What a staged query and its continuation promise together.
use grainstore.Base.{ℕ, ◌≡◌, refl, ap, List, Option, none, some}
use grainstore.Disclosure.{total_tokens, store, full, build_summary}
use grainstore.Float.{Float32}
use grainstore.Disclosure.Cache.{IsCache, store-IsCache}
use grainstore.Engine.{GrainEngine, query_planned, query_staged, pinned, drill, Stage, stage_one}
use grainstore.Error.{Result, ok, err}
use grainstore.Planner.{Filter, Float64, Plan}
use grainstore.Model.{PredId}
use grainstore.Query.{Ranked}
use grainstore.Vector.{VectorIndex}

module _ (v : VectorIndex) (f : Float64) where
  -- The handle that an answer carries.
  pub handle_of : Result (Stage v f) → Option ℕ
  handle_of (err _) = none
  handle_of (ok s) = s.continuation

  -- A staged query hands out a handle with which the drill, from the engine it leaves, gives every
  -- row that the planned query found, at the tokens announced, and the cache keeps its invariant.
  -- The planned query succeeds, and the cache satisfied its invariant before.
  pub drill-query_staged :
      (g : Float32) (e : GrainEngine v) (pred : PredId) (query : List ℕ) (filter : Filter) (k : ℕ)
      (target : f.Real) (reps : ℕ) (ranked : List Ranked) (p : Plan f)
      → IsCache e.continuations
      → query_planned v f e pred query filter k target ≡ some (ok (ranked, p))
      → (after : GrainEngine v) × (answer : Result (Stage v f)) × (query_staged v f g e pred query
            filter k target reps
          ≡ some (after, answer))
        × (handle_of answer ≡ some e.continuations.next)
        × ((drill v f after e.continuations.next
              ≡ some (record {
                stage_index = 1;
                stage = full ranked;
                est_tokens = total_tokens ranked;
                continuation = none;
              }))
            × IsCache after.continuations)
  unfolding query_staged pinned drill handle_of store build_summary
  drill-query_staged g e pred query filter k target reps ranked p h found =
      let kept = store-IsCache e.continuations ranked (total_tokens ranked) h in
      (
        (pinned v f g e reps (ok (ranked, p))).0,
        (pinned v f g e reps (ok (ranked, p))).1,
        rw (found, query_staged) refl,
        refl,
        (
          ap
              (λ c. elim c as (λ _. Option (Stage v f)) [
                | none ↦ none
                | some c ↦ some (stage_one v f c)
              ])
              kept.1,
          kept.0,
        ),
      )

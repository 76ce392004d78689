-- ===== src/Server/Agent/Same.antt =====
-- server/src/bin/grainstore-mcp.rs and grainstored.rs: the grains that an agent and a client load.
use grainstore.Base.{
  ℕ, ◌≡◌, refl, ap, sym, ◌∙◌, List, [], ◌∷◌, ◌++◌, none, some, true, append_assoc, append-nil,
  Option-cases, inl, inr,
}
use grainstore.Base.Panic
use grainstore.Error.{Error, Result, ok, err}
use grainstore.Float.{Float32}
use grainstore.Server.{GrainRec, Store, load}
use grainstore.Server.Agent.{grain_of, grain_loop, load_text, load_grains, tool_load}
use grainstore.Server.Body.{grain_from_value, parse_items, parse_value, parse_grains}
use grainstore.Server.Daemon.{
  Request, on_grains, route, with_ends, load_reply, load_parsed, post_grains, respond, handle,
}
use grainstore.Server.Daemon.Effect.{got_grains}
use grainstore.Server.Json.{Attempt, got, refused, ◌>>=◌, Json, u64_of, str_of, array_of}
use grainstore.Vector.{VectorIndex}
use grainstore.Wal.Commit.{WriteEnd}

module _ (j : Json) where
  grain_of-grain_from_value : (g : j.Value) → grain_of j g ≡ grain_from_value j g
  unfolding grain_of grain_from_value
  grain_of-grain_from_value g = elim (Option-cases (u64_of j g "sid")) [
    | inl no_sid ↦ rw (no_sid, grain_of)
    | inr (sid, there) ↦ elim (Option-cases (str_of j g "text")) [
      | inl no_text ↦ rw (there, grain_of, no_text)
      | inr (text, text_there) ↦ rw (there, grain_of, text_there)
    ]
  ]

  -- The loop that pushes to `recs` collects what the other one does.
  grain_loop-parse_items :
      (recs : List GrainRec) (items : List j.Value)
      → got_grains (grain_loop j recs items)
        ≡ Panic.◌>>=◌ (got_grains (parse_items j items)) (λ gs. some (recs ++ gs))
  unfolding grain_loop parse_items got_grains
  grain_loop-parse_items recs [] = ap some (sym (append-nil recs))
  grain_loop-parse_items recs (g ∷ items) = elim (Option-cases (grain_from_value j g)) [
    | inl bad ↦ rw (grain_loop, grain_of-grain_from_value g, parse_items, bad)
    | inr (r, good) ↦
        rw (grain_loop, grain_of-grain_from_value g, parse_items, good)
          (grain_loop-parse_items (recs ++ r ∷ []) items ∙ further r (parse_items j items))
  ]
    where
      further :
          (r : GrainRec) (o : Attempt (List GrainRec))
          → Panic.◌>>=◌ (got_grains o) (λ gs. some ((recs ++ r ∷ []) ++ gs))
            ≡ Panic.◌>>=◌ (got_grains (o >>= λ grains. got (r ∷ grains))) (λ gs. some (recs ++ gs))
      further r (got gs) = ap some (append_assoc recs (r ∷ []) gs)
      further r (refused m) = refl

  kept_grains :
      (o : Attempt (List GrainRec))
      → Panic.◌>>=◌ (got_grains o) (λ gs. some ([] ++ gs)) ≡ got_grains o
  unfolding got_grains
  kept_grains (got gs) = refl
  kept_grains (refused m) = refl

  module _ (trim : List ℕ → List ℕ) (message : Error → List ℕ) (v : VectorIndex) (f : Float32)
      (lossy : List ℕ → List ℕ) (pretty : j.Value → List ℕ) (tool_defs : j.Value) (s : Store v)
      (ends : ℕ → WriteEnd) (settle : v.Index → v.Index) where
    load_text-load_reply :
        (t : Store v × Result ℕ)
        → (load_text j trim message v f lossy pretty tool_defs settle t).0
          ≡ (load_reply j trim message v f lossy settle t).0
    unfolding load_text load_reply
    load_text-load_reply (t, ok n) = refl
    load_text-load_reply (t, err e) = refl

    load_grains-load_parsed :
        (a b : Attempt (List GrainRec))
        → got_grains a ≡ got_grains b
        → (load_grains j trim message v f lossy pretty tool_defs s ends settle a).0
          ≡ (load_parsed j trim message v f lossy s ends settle b).0
    unfolding load_grains load_parsed got_grains
    load_grains-load_parsed (got a) (got b) e =
        let same : (a ≡ b) = cc in rw same (load_text-load_reply (load v s (with_ends ends 0 b)))
    load_grains-load_parsed (got a) (refused n) e = absurd (cc)
    load_grains-load_parsed (refused m) (got b) e = absurd (cc)
    load_grains-load_parsed (refused m) (refused n) e = refl

    tool_load_held :
        (args : j.Value) (items : List j.Value)
        → array_of j args "grains" ≡ some items
        → (tool_load j trim message v f lossy pretty tool_defs s ends settle args).0
          ≡ (load_grains j trim message v f lossy pretty tool_defs s ends settle
              (grain_loop j [] items)).0
    unfolding tool_load
    tool_load_held args items held = rw (tool_load, held)

    -- An agent that calls the tool with an object that has a list of grains leaves the store that a client
    -- leaves which posts the text of that object to the path of grains, whatever the grains are.
    pub handle-tool_load :
        (args : j.Value) (items : List j.Value) (rq : Request) (body : List ℕ)
        → route rq ≡ on_grains
        → rq.body ≡ some body
        → j.from_str body ≡ got args
        → j.as_array args ≡ none
        → j.is_object args ≡ true
        → array_of j args "grains" ≡ some items
        → Panic.◌>>=◌ (handle j trim message v f lossy s ends settle rq) (λ done. some (done.0))
          ≡ some ((tool_load j trim message v f lossy pretty tool_defs s ends settle args).0)
    unfolding handle
    handle-tool_load args items rq body to there read no_array object held =
        let same =
          load_grains-load_parsed (grain_loop j [] items) (parse_items j items)
            (grain_loop-parse_items [] items ∙ kept_grains (parse_items j items)) in
        rw
          (to, there, respond, post_grains, parse_grains, read, parse_value, no_array, object, held)
          (ap some (sym same ∙ sym (tool_load_held args items held)))

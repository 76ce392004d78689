-- ===== src/Materializer/Graph.antt =====
-- src/materializer.rs and src/vector/hnsw.rs: the graph that the change stream makes.
use grainstore.Base.{
  ℕ, ◌+◌, ◌*◌, ◌^◌, ◌<◌, length, sym, subst, ◌≡◌, refl, ap, ◌∙◌, List, [], ◌∷◌, Option, none, some,
  ◌==◌, if◌then◌else◌, foldl, Bool-cases, Option-cases, inl, inr,
}
use grainstore.Cdc
use grainstore.Cdc.{CdcRecord}
use grainstore.Embed.{Embedder}
use grainstore.Float.{Float32, LogFloat}
use grainstore.Materializer.{apply}
use grainstore.Model.{Sid}
use grainstore.Vector.Graph.{graph_index}
use grainstore.Vector.Hnsw.{State, rand_level, remove}
use grainstore.Vector.Hnsw.Links.{HasDim}
use grainstore.Vector.Hnsw.Refine.{IsReady, vector_of, insert_total, remove_total}

module _ (e : Embedder) where
  -- The vector that a change gives its sid; none takes it out.
  abbrev pub effect : CdcRecord → Option (List ℕ)
  effect rec = if Cdc.is_delete rec then none else e.embed rec.val

  -- The vector of a sid after changes, the last of which holds.
  unfoldable pub latest : Option (List ℕ) → List CdcRecord → Sid → Option (List ℕ)
  latest before [] k = before
  latest before (rec ∷ recs) k = latest (if rec.sid == k then effect rec else before) recs k

  module _ (f : Float32) (g : LogFloat) (dim : ℕ)
      (sized : (b vec : List ℕ) → e.embed b ≡ some vec → length vec ≡ dim) where
    -- A graph that is ready and holds these vectors.
    abbrev pub Holds : Option (State g.Real) → (Sid → Option (List ℕ)) → Type 0
    Holds o vectors =
        (s : State g.Real) × (o ≡ some s)
        × IsReady f g dim s
        × ((k : Sid) → vector_of s k ≡ vectors k)

    taken_out :
        (s : State g.Real) (sid : Sid)
        → IsReady f g dim s
        → Holds (remove s sid) (λ k. if sid == k then none else vector_of s k)
    taken_out s sid h =
        let (t, made, whole, nodes, ml, now) = remove_total s sid h.whole in
        (
          t,
          made,
          record {
            whole = whole;
            dims = subst (HasDim dim) (sym nodes) h.dims;
            levels =
                λ rng. subst (λ r. (rand_level g rng r + 1) * 24 < 2 ^ 63) (sym ml) (h.levels rng);
          },
          now,
        )

    apply-Holds :
        (s : State g.Real) (rec : CdcRecord)
        → IsReady f g dim s
        → Holds
            (apply (graph_index f g) e (some s) rec)
            (λ k. if rec.sid == k then effect rec else vector_of s k)
    unfolding apply
    apply-Holds s rec h = elim (Bool-cases (Cdc.is_delete rec)) [
      | inl deleted ↦ rw (deleted, apply) (taken_out s rec.sid h)
      | inr kept ↦ elim (Option-cases (e.embed rec.val)) [
        | inl opaque ↦ rw (kept, opaque, apply) (taken_out s rec.sid h)
        | inr (vec, embedded) ↦
            rw (kept, embedded, apply)
              (insert_total f g dim s rec.sid vec h (sized rec.val vec embedded))
      ]
    ]

    -- Take a whole graph of vectors of one length whose new nodes, whatever is drawn, have levels of less
    -- than 2^63 bytes, and an embedder all of whose vectors have that length. Feeding the graph with
    -- changes does not panic and leaves it so, and the vector of each sid is the one that its last
    -- change gives, none if that was a delete or a value with no vector, and the one that it was where
    -- no change is of that sid.
    pub foldl-apply-Holds :
        (s : State g.Real) (recs : List CdcRecord)
        → IsReady f g dim s
        → Holds
            (foldl (apply (graph_index f g) e) (some s) recs)
            (λ k. latest (vector_of s k) recs k)
    unfolding latest
    foldl-apply-Holds s [] h = (s, refl, h, λ k. refl)
    foldl-apply-Holds s (rec ∷ recs) h =
        let (t, made, whole, now) = apply-Holds s rec h in
        let (u, fed, still, later) = foldl-apply-Holds t recs whole in
        (
          u,
          ap (λ (o : Option (State g.Real)). foldl (apply (graph_index f g) e) o recs) made ∙ fed,
          still,
          λ k. later k ∙ ap (λ (o : Option (List ℕ)). latest o recs k) (now k),
        )

-- ===== src/Engine.antt =====
-- src/engine.rs: the facade. Its index and embedder are parameters, as `f64` is; the materializer is
-- `Materializer`, and the records that it has handled are in the index already.
pub mod Staged
use grainstore.Base.{
  ℕ, zero, suc, ◌+◌, ◌/◌, List, [], ◌∷◌, ◌++◌, Option, none, some, Bool, true, false, map, length,
  max, ltb, ◌==◌, if◌then◌else◌,
}
use grainstore.Base.Panic
use grainstore.Catalog
use grainstore.Catalog.{CatState}
use grainstore.Disclosure
use grainstore.Disclosure.{
  ContinuationCache, Continuation, Payload, summary, full, build_summary, summary_tokens,
}
use grainstore.Embed.{Embedder, RawVectorEmbedder, raw_vector, encode_value_with_header}
use grainstore.Float.{Float32, LogFloat}
use grainstore.Error.{Result, ok, err, ◌>>=◌}
use grainstore.Model.{Sid, PredId, Hlc, Grain, Val, bytes, tombstone}
use grainstore.Planner.{Filter, any, header_byte_eq, eval, Float64, Plan, plan}
use grainstore.Query.{MixedQuery, Ranked, near_join_select}
use grainstore.Truth
use grainstore.Recovery.{FileRead}
use grainstore.Truth.{TruthStore, scan_live}
use grainstore.Vector.{VectorIndex}
use grainstore.Vector.Graph.{graph_index}
use grainstore.Vector.Hnsw
use grainstore.Vector.Hnsw.{HnswConfig, default_config}
use grainstore.Wal.Commit.{WriteEnd}

pub record EngineConfig : Type 0 where
  pub dim : ℕ
  pub header_len : ℕ
  pub hnsw : HnswConfig
  pub materializer_workers : ℕ

unfoldable pub config : ℕ → EngineConfig
config dim = record { dim = dim; header_len = 0; hnsw = default_config; materializer_workers = 1 }

unfoldable pub with_header : EngineConfig → ℕ → EngineConfig
with_header cfg header_len = record cfg { header_len = header_len }

unfoldable pub with_hnsw : EngineConfig → HnswConfig → EngineConfig
with_hnsw cfg hnsw = record cfg { hnsw = hnsw }

unfoldable pub with_workers : EngineConfig → ℕ → EngineConfig
with_workers cfg workers = record cfg { materializer_workers = max workers 1 }

pub record WriteMeta : Type 0 where
  pub c : ℕ
  pub t_valid : ℕ
  pub idem_key : ℕ

-- WriteMeta::new; 1.0 has the bit pattern 0x3f800000.
unfoldable pub write_meta : ℕ → WriteMeta
write_meta idem_key = record { c = 0x3f800000; t_valid = 0; idem_key = idem_key }

unfoldable pub with_confidence : WriteMeta → ℕ → WriteMeta
with_confidence meta c = record meta { c = c }

unfoldable pub with_t_valid : WriteMeta → ℕ → WriteMeta
with_t_valid meta t_valid = record meta { t_valid = t_valid }

module _ (v : VectorIndex) where
  pub record GrainEngine : Type 0 where
    pub truth : TruthStore
    pub index : v.Index
    pub catalog : CatState
    pub continuations : ContinuationCache

  opened : v.Index → Option TruthStore → Option GrainEngine
  opened index none = none
  opened index (some t) = some (record {
    truth = Truth.subscribe_to t;
    index = index;
    catalog = Catalog.new;
    continuations = Disclosure.new 4096;
  })

  -- GrainEngine::open_with, with what reading the log gave: the materializer's channel is the
  -- subscription, and the index is the one that is brought, also when the log has grains.
  unfoldable pub open_with : FileRead → v.Index → Result (Option GrainEngine)
  unfolding opened
  open_with read index = do t ← Truth.open_store read; ok (opened index t)

  -- The catalog counts header byte 0, whatever comes of the write.
  observed : CatState → List ℕ → CatState
  observed s [] = s
  observed s (b ∷ _) = Catalog.observe s b

  unfoldable pub written :
      GrainEngine → CatState → TruthStore × Result Hlc → GrainEngine × Result Hlc
  written e catalog (t, answer) = (record e { truth = t; catalog = catalog }, answer)

  unfoldable pub put_vector :
      GrainEngine → Sid → PredId → List ℕ → List ℕ → WriteMeta → WriteEnd → GrainEngine × Result Hlc
  unfolding observed written
  put_vector e sid pred header vector meta end = written e (observed e.catalog header) (
      Truth.put e.truth sid pred (encode_value_with_header header vector) meta.c meta.t_valid
        meta.idem_key end)

  unfoldable pub put_raw :
      GrainEngine → Sid → PredId → List ℕ → WriteMeta → WriteEnd → GrainEngine × Result Hlc
  unfolding written
  put_raw e sid pred value meta end =
      written e e.catalog (Truth.put e.truth sid pred value meta.c meta.t_valid meta.idem_key end)

  unfoldable pub delete :
      GrainEngine → Sid → PredId → WriteMeta → WriteEnd → GrainEngine × Result Hlc
  unfolding written
  delete e sid pred meta end =
      written e e.catalog (Truth.delete e.truth sid pred meta.c meta.t_valid meta.idem_key end)

  unfoldable pub query : GrainEngine → MixedQuery → (Grain → Bool) → Option (Result (List Ranked))
  query e q predicate = near_join_select e.truth v e.index q predicate

  -- The loop of the rebuild, with `n`.
  rebuild_loop : Embedder → v.Index → ℕ → List Grain → v.Index × ℕ
  rebuild_loop e index n [] = (index, n)
  rebuild_loop e index n (g ∷ grains) =
      let skipped = rebuild_loop e index n grains in
      let inserted = λ (vec : List ℕ). rebuild_loop e (v.insert index g.sid vec) (n + 1) grains in
      elim (g.val) [
        | tombstone ↦ skipped
        | bytes b ↦ elim (e.embed b) [ none ↦ skipped | some vec ↦ inserted vec ]
      ]

  unfoldable pub rebuild_index_from_truth : GrainEngine → Embedder → Result (GrainEngine × ℕ)
  unfolding rebuild_loop
  rebuild_index_from_truth e embedder = do
    live ← scan_live e.truth
    let (index, n) = rebuild_loop embedder e.index 0 live in ok (record e { index = index }, n)

  module _ (f : Float64) where
    open f use {Real, lit, div}

    -- `selectivity(value).unwrap_or(0.5)`
    share_or_half : Option Real → Real
    share_or_half none = lit 1 2
    share_or_half (some share) = share

    unfoldable pub estimated : CatState → Filter → Real
    unfolding share_or_half
    estimated s any = lit 1 1
    estimated s (header_byte_eq zero value) = share_or_half (Catalog.selectivity f s value)
    estimated s (header_byte_eq (suc _) value) = lit 1 2

    unfoldable pub planned_query : PredId → List ℕ → ℕ → Plan f → MixedQuery
    planned_query pred query k p = record {
      pred = pred;
      query = query;
      k = k;
      ef = p.ef;
      over_fetch = p.over_fetch;
    }

    with_plan : Plan f → Result (List Ranked) → Result (List Ranked × Plan f)
    with_plan p found = do results ← found; ok (results, p)

    -- A panic of the search is `none`, here as in `query`.
    unfoldable pub query_planned :
        GrainEngine → PredId → List ℕ → Filter → ℕ → Real → Option (Result (List Ranked × Plan f))
    unfolding estimated planned_query with_plan
    query_planned e pred query filter k target_recall =
        let p = plan f (estimated e.catalog filter) k target_recall in
        Panic.◌>>=◌
          (near_join_select e.truth v e.index (planned_query pred query k p) (eval filter))
          λ found. some (with_plan p found)

    -- disclosure::Staged
    pub record Stage : Type 0 where
      pub stage_index : ℕ
      pub stage : Payload
      pub est_tokens : ℕ
      pub continuation : Option ℕ

    module _ (g : Float32) where
      pin : GrainEngine → ℕ → List Ranked → GrainEngine × Stage
      pin e reps ranked =
          let shown = build_summary g ranked reps in
          let (kept, handle) = Disclosure.store e.continuations ranked shown.est_full_tokens in
          (
            record e { continuations = kept },
            record {
              stage_index = 0;
              stage = summary shown;
              est_tokens = summary_tokens shown;
              continuation = some handle;
            },
          )

      unfoldable pub pinned :
          GrainEngine → ℕ → Result (List Ranked × Plan f) → GrainEngine × Result Stage
      unfolding pin
      pinned e reps (err x) = (e, err x)
      pinned e reps (ok (ranked, _)) = let (after, stage) = pin e reps ranked in (after, ok stage)

      unfoldable pub query_staged :
          GrainEngine
          → PredId
          → List ℕ
          → Filter
          → ℕ
          → Real
          → ℕ
          → Option (GrainEngine × Result Stage)
      unfolding pinned query_planned
      query_staged e pred query filter k target_recall reps =
          Panic.◌>>=◌ (query_planned e pred query filter k target_recall)
            λ answer. some (pinned e reps answer)

    stage_one : Continuation → Stage
    stage_one c = record {
      stage_index = 1;
      stage = full c.ranked;
      est_tokens = c.full_tokens;
      continuation = none;
    }

    unfoldable pub drill : GrainEngine → ℕ → Option Stage
    unfolding stage_one
    drill e handle = elim (Disclosure.get_full e.continuations handle) [
      | none ↦ none
      | some c ↦ some (stage_one c)
    ]

module _ (f : Float32) (g : LogFloat) where
  -- GrainEngine::open: the index is a new graph, and the embedder reads raw vectors.
  unfoldable pub open_engine :
      FileRead → EngineConfig → Result (Option (GrainEngine (graph_index f g)))
  unfolding open_with
  open_engine read cfg = open_with (graph_index f g) read (some (Hnsw.new g cfg.hnsw))

abbrev pub default_embedder : EngineConfig → Embedder
default_embedder cfg = raw_vector (record { dim = cfg.dim; header = cfg.header_len })

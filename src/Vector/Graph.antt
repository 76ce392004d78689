-- ===== src/Vector/Graph.antt =====
-- src/vector/hnsw.rs: the graph behind the interface of an index. A panic leaves no graph.
use grainstore.Base.{Option, none, some}
use grainstore.Base.Panic
use grainstore.Float.{Float32, LogFloat}
use grainstore.Vector.{VectorIndex}
use grainstore.Vector.Hnsw
use grainstore.Vector.Hnsw.{State}

-- `impl VectorIndex for Hnsw`
abbrev pub graph_index : Float32 → LogFloat → VectorIndex
graph_index f g = record {
  Index = Option (State g.Real);
  insert = λ o sid vec. Panic.◌>>=◌ o λ s. Hnsw.insert f g s sid vec;
  remove = λ o sid. Panic.◌>>=◌ o λ s. Hnsw.remove s sid;
  search = λ o q k ef. Panic.◌>>=◌ o λ s. Hnsw.search f s q k ef;
  len = λ o. elim o [ none ↦ 0 | some s ↦ Hnsw.len s ];
}

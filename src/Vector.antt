-- ===== src/Vector.antt =====
-- src/vector/mod.rs: the interface of a vector index. Coordinates and distances are `f32` bit
-- patterns.
pub mod Brute
pub mod Hnsw
pub mod Sharded
pub mod Nearest
pub mod Graph
use grainstore.Base.{ℕ, ◌*◌, ◌^◌, List, Option, Bool, ltb}
use grainstore.Model.{Sid}

pub record Candidate : Type 0 where
  pub sid : Sid
  pub dist : ℕ

-- `Vec::with_capacity(n)` of candidates, which take 32 bytes: it panics beyond 2^63 - 1 bytes.
unfoldable pub has_capacity : ℕ → Bool
has_capacity n = ltb (n * 32) (2 ^ 63)

-- The trait `VectorIndex`, with the index as explicit state. A search that panics is `none`.
pub record VectorIndex : Type 1 where
  pub Index : Type 0
  pub insert : Index → Sid → List ℕ → Index
  pub remove : Index → Sid → Index
  pub search : Index → List ℕ → ℕ → ℕ → Option (List Candidate)
  pub len : Index → ℕ

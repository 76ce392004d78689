-- ===== src/Model.antt =====
-- src/model.rs: the domain types. `Sid`, `PredId`, `Hlc` wrap one unsigned integer each, and are
-- that integer here; their widths are stated where they matter (`IsU128`, `IsU32`, `IsU64`). An
-- `f32` that is only stored and passed on is its bit pattern, a `u32`.
use grainstore.Base.{ℕ, ◌^◌, ◌<◌, List}

abbrev pub IsU8 : ℕ → Type 0
IsU8 v = v < 2 ^ 8

abbrev pub IsU32 : ℕ → Type 0
IsU32 v = v < 2 ^ 32

abbrev pub IsU64 : ℕ → Type 0
IsU64 v = v < 2 ^ 64

abbrev pub IsU128 : ℕ → Type 0
IsU128 v = v < 2 ^ 128

abbrev pub Sid : Type 0
Sid = ℕ

abbrev pub PredId : Type 0
PredId = ℕ

abbrev pub Hlc : Type 0
Hlc = ℕ

-- The bit pattern of the confidence.
abbrev pub Confidence : Type 0
Confidence = ℕ

pub data Val : Type 0 where
  bytes : List ℕ → Val
  tombstone : Val

pub record Grain : Type 0 where
  pub sid : Sid
  pub pred : PredId
  pub val : Val
  pub c : Confidence
  pub t_valid : Hlc
  pub t_tx : Hlc

-- ===== src/Hlc.antt =====
-- src/hlc.rs: the clock oracle, a counter that hands out timestamps.
pub mod Contention
use grainstore.Base.{ℕ, ◌+◌, ◌%◌, ◌^◌}

-- HlcOracle::new
abbrev pub new : ℕ
new = 0

-- HlcOracle::resume_from
unfoldable pub resume_from : ℕ → ℕ
resume_from high_watermark = high_watermark

-- The value that a call of `next` on a counter at `last` tries to issue; `prev + 1` wraps (a build
-- with overflow checks panics there).
unfoldable pub successor : ℕ → ℕ
successor prev = (prev + 1) % 2 ^ 64

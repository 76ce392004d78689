-- ===== src/Tests.antt =====
-- The theorems at concrete inputs.
pub mod Fixtures
pub mod Storage
pub mod Store
pub mod Index
pub mod Access
pub mod Blocks
pub mod Graph
pub mod Served
pub mod Wire
pub mod Programs

-- ===== src/Store.antt =====
-- The store: store/*.go.
pub mod Interface
pub mod Adapter
pub mod ActualState
pub mod Sync
pub mod Freshness
pub mod Base
pub mod Messages
pub mod CrashCounts
pub mod SavedMetrics
pub mod Apps
pub mod Compaction
pub mod Real

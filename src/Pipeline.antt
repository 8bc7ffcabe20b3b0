-- ===== src/Pipeline.antt =====
-- engine/: the layers that a group of candidate signals of one symbol passes through.
pub mod Consolidation
pub mod Merged
pub mod Meta
pub mod Confirmation
pub mod Quality
pub mod Gates
pub mod Front
pub mod Windows
mod Tests

-- ===== src/Usage.antt =====
-- The usage module (src/modules/usage).
pub mod Days
pub mod Aggregation
pub mod Windows
pub mod Overage
pub mod Store
pub mod Authorize
pub mod Ingest
pub mod Recording
mod Tests

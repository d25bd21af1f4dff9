-- ===== src/Engine.antt =====
-- The inference core around the cache, astrai/inference/core/.
mod Tests
pub mod Request
pub mod Planner
pub mod Scheduler
pub mod Results
pub mod Versioning

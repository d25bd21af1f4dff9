-- ===== src/Frontend.antt =====
-- What a consumer makes of the engine's events, astrai/inference/frontend/.
mod Tests
pub mod StopChecker
pub mod Output
pub mod Tracking

-- ===== src/Integration.antt =====
-- `integration/`: the orchestrator that runs a whole authentication, its metrics, and the check of
-- recorded frames.
pub mod Metrics
pub mod Orchestrator
pub mod Frames

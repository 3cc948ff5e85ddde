-- ===== src/Pipeline.antt =====
-- src/pipeline: the engine that executes the nodes of a pipeline.
pub mod Types
pub mod Loader
pub mod Ci
pub mod FixLoop
pub mod Engine
pub mod Run
pub mod Visits
pub mod Outcome
pub mod Fixed
pub mod Skips

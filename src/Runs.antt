-- ===== src/Runs.antt =====
-- src/runs: what a run is asked to do.
pub mod Intents

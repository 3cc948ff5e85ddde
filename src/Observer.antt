-- ===== src/Observer.antt =====
-- src/observer: what stands between an event and a run.
pub mod Safety

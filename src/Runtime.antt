-- ===== src/Runtime.antt =====
-- The control plane of the runs: src/runtime.
pub mod KeyedTable
pub mod Tokens
pub mod Completions
pub mod Reconciler
pub mod Slots

-- ===== src/WorkItems.antt =====
-- Work items: src/work-items.
pub mod Types
pub mod Workflow
pub mod DeliveryPolicy
pub mod Reducer
pub mod Table
pub mod Store
pub mod Apply
pub mod Discovery

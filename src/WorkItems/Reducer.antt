-- ===== src/WorkItems/Reducer.antt =====
-- src/work-items/feature-delivery-reducer.ts: from a work item and an event to the patches of the
-- work item and the commands that follow.
pub mod Decision
pub mod Path
pub mod Ci
pub mod Reviews
pub mod Events
pub mod Legal
pub mod Gates
pub mod PathEnd
pub mod Entered

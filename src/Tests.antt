-- ===== src/Tests.antt =====
-- Runs of the definitions at fixed inputs, and the theorems at inputs that meet their hypotheses.
mod WorkItems
mod Store
mod Runtime
mod Pipeline
mod Observer
mod Reconciler
mod Discovery
mod Deliveries
mod Runs
mod Supervisor
mod Loader
mod Slots
mod Ci

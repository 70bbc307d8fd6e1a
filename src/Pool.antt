-- ===== src/Pool.antt =====
-- internal/controller/baremetalpool_controller.go.
pub mod State
pub mod Scale
pub mod Create
pub mod Provision
pub mod Update
pub mod Delete
pub mod Reconcile
pub mod Slices
pub mod Counts
pub mod Ending
pub mod Panics
pub mod Specs
pub mod Calm
pub mod Unpanicked
pub mod Ledger
pub mod Scaling
pub mod Replicas
pub mod Grouping
pub mod Balance
pub mod Readiness
pub mod Teardown
mod Tests

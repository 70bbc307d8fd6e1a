-- ===== src/Instance.antt =====
-- internal/controller/baremetalinstance_controller.go: one module for each group of handlers, and
-- one for each kind of property.
pub mod State
pub mod Allocate
pub mod Provision
pub mod Restart
pub mod Power
pub mod Manage
pub mod Delete
pub mod Reconcile
pub mod Frame
pub mod Guarding
pub mod Locking
pub mod Labels
pub mod Finalizers
pub mod World
pub mod Owners
pub mod Tenure
pub mod Served
pub mod Progress
pub mod Allocation
pub mod Granting
pub mod Liveness
pub mod Releasing
pub mod Settling
pub mod Samples
mod Tests
mod Backed
mod Reached

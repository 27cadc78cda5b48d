-- ===== src/Supervisor.antt =====
-- tools/cmdrunner/supervisor.go: a process that is started again by a policy.
pub mod State
pub mod Policy
pub mod Metrics
pub mod Machine
pub mod Loop
pub mod Create
pub mod Setup
pub mod Snapshot
pub mod Progress
pub mod Flags
pub mod Bounds
pub mod Safety
pub mod Ends
pub mod Control
pub mod Stopping
pub mod Decisions
mod SetupTests
mod Tests

-- ===== src/Agent/Orchestrator.antt =====
-- internal/agent/orchestrator.go: each exported method runs under the run's lock.
pub mod Steps
pub mod Tool
pub mod Start
pub mod Next
pub mod Control
pub mod Invariant
pub mod Moves
pub mod Contract
pub mod Termination
pub mod Terminal
pub mod Exclusion
pub mod Compensation

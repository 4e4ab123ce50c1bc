-- ===== src/Examples.antt =====
-- Concrete runs of the models and of the theorems about them.
mod Locks
mod Stores
mod Tooling
mod Approvals
mod Orchestration
mod Lifecycle
mod Releases
mod Decisions
mod Diffs
mod Sessions
mod Limits

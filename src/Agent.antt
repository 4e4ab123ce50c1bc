-- ===== src/Agent.antt =====
-- internal/agent: durable runs, their store and locks, the tool registry and the orchestrator.
pub mod Types
pub mod Lock
pub mod Store
pub mod Policy
pub mod Schema
pub mod Tools
pub mod Approval
pub mod World
pub mod Orchestrator

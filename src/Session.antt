-- ===== src/Session.antt =====
-- Platform sessions: their store and the manager in front of it.
pub mod Types
pub mod Store
pub mod Manager
pub mod Access
pub mod Lifecycle
pub mod Rotation

-- ===== src/Release.antt =====
-- Managed-document releases: the publication workflow, the release center's policy and its
-- approver groups.
pub mod Publication
pub mod Center
pub mod Approvers
pub mod Decisions

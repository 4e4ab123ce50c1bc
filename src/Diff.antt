-- ===== src/Diff.antt =====
-- Differences between two indexed versions of a document.
pub mod Subsequence
pub mod Compare

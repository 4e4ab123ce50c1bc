-- ===== src/Middleware.antt =====
-- Limits on what a client may do: logins in a row, and requests at once.
pub mod LoginGuard
pub mod Concurrency

-- ===== src/Session/Manager.antt =====
-- internal/session/manager.go: the manager of platform sessions. The repository is an interface in
-- the source and an argument here. The hash, the test of a uuid, the clock, and what the generators
-- of tokens and of uuids answer are arguments too.
mod Commands
mod Configuration
mod Authentication
mod Control
mod Establishment
unfoldable pub use Commands.*
unfoldable pub use Configuration.*
unfoldable pub use Authentication.*
unfoldable pub use Control.*
unfoldable pub use Establishment.*

-- ===== src/Auth.antt =====
-- sdk/wapsell/auth: the in-memory user and session repositories and the auth service.
mod Defs
pub mod Emails
pub mod Sessions
mod Tests
unfoldable pub use Defs.*

-- ===== src/Access.antt =====
-- The access control of services/api/main.py.
mod Defs
pub mod Isolation
mod Tests
unfoldable pub use Defs.*
